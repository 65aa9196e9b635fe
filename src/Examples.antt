-- ===== src/Examples.antt =====
-- The theorems at concrete inputs, one module for each part of the program.
mod Data
mod Lifecycles
mod Placements
mod Launches
mod Stores
mod Requests
mod Servers
mod Sweeps
mod Doctors
