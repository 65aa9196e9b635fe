-- ===== src/Schema.antt =====
-- The wire types of schedune-control-plane/pkg/schema. A Go struct is a record with its fields in
-- the source's order, a pointer that may be nil is an `Option`, an `int` or `int64` is a ℤ.
pub mod Orphan
pub mod Reasons
pub mod Spec
pub mod Execution
pub mod Envelope
pub mod Workload
pub mod Plan
pub mod Views
