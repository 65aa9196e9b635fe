-- ===== src/Doctor.antt =====
-- schedune-control-plane/cmd/schedune/main.go: the doctor command, which probes the host and prints a
-- report, and the dispatch on the arguments. The probes are an argument; the report is a list of lines.
pub mod Verdict
use schedune.Base.{
  ℕ, String, Bool, not, ◌&&◌, Option, none, some, List, [], ◌∷◌, ◌++◌, ◌<>◌, ◌==◌, if◌then◌else◌,
  is_some,
}

-- The constants PASS, WARN, INFO and FAIL.
pub data Mark : Type 0 where
  pass warn info fail : Mark

-- A line that is printed, with a mark in front of it or without.
pub data Line : Type 0 where
  plain : String → Line
  marked : Mark → String → Line

-- What the doctor asks the host: runtime.GOOS and GOARCH, `uname -r`, syscall.Access with a mode,
-- os.MkdirAll, os.Stat without an error, os.TempDir, exec.LookPath, and whether a port can be bound.
pub record Probe : Type 0 where
  pub goos : String
  pub goarch : String
  pub kernel_version : String
  pub can_access : String → ℕ → Bool
  pub mkdir_all : String → Option String
  pub is_present : String → Bool
  pub temp_dir : String
  pub look_path : String → Option String
  pub check_port : String → Bool

-- `checkCommand(name)`, empty where LookPath fails.
abbrev check_command : Probe → String → String
check_command p name = elim (p.look_path name) [ none ↦ "" | some path ↦ path ]

-- A line for either outcome of a test.
abbrev pub either : Bool → Line → Line → Line
either test here there = if test then here else there

-- The flags of the summary, by the probes that set them.
abbrev pub is_linux : Probe → Bool
is_linux p = p.goos == "linux"

abbrev pub orphan_sweep_ready : Probe → Bool
orphan_sweep_ready p = p.can_access "/proc" 4

abbrev pub database_writable : Probe → Bool
database_writable p = not (is_some (p.mkdir_all "./var")) && p.can_access "./var" 2

abbrev pub runtime_writable : Probe → Bool
runtime_writable p = not (is_some (p.mkdir_all "./var/run")) && p.can_access "./var/run" 2

abbrev pub control_plane_ready : Probe → Bool
control_plane_ready p = database_writable p && p.check_port "127.0.0.1:9090"

abbrev pub kvm_exists : Probe → Bool
kvm_exists p = p.is_present "/dev/kvm"

abbrev qemu_bin : Probe → String
qemu_bin p = if p.goarch == "arm64" then "qemu-system-aarch64" else "qemu-system-x86_64"

abbrev has_command : Probe → String → Bool
has_command p name = not (check_command p name == "")

abbrev pub vm_launch_ready : Probe → Bool
vm_launch_ready p = kvm_exists p && p.can_access "/dev/kvm" 6 && has_command p (qemu_bin p)

abbrev pub host_lines : Probe → List Line
host_lines p =
    plain "Host"
      ∷ plain "----"
      ∷ (if is_linux p
          then marked pass ("OS: " <> p.goos)
            ∷ marked pass ("Architecture: " <> p.goarch)
            ∷ marked pass ("Kernel: " <> p.kernel_version)
            ∷ []
          else marked warn (
              "OS: " <> p.goos <> " (Control plane: evaluator mode. Agent/Runtime: Linux required)")
            ∷ [])
    ++ either (orphan_sweep_ready p) (marked pass "/proc: readable")
        (marked warn "/proc: not readable")
      ∷ plain ""
      ∷ []

abbrev pub database_line : Probe → Option String → Line
database_line p (some e) = marked fail ("SQLite DB Path: ./var not writable (" <> e <> ")")
database_line p none =
    either (p.can_access "./var" 2) (marked pass "SQLite DB Path: ./var/schedune.db (writable)")
      (marked fail "SQLite DB Path: ./var not writable")

abbrev pub storage_lines : Probe → List Line
storage_lines p =
    plain "Storage / Paths"
    ∷ plain "---------------"
    ∷ database_line p (p.mkdir_all "./var")
    ∷ either (runtime_writable p) (marked pass "Runtime Path: ./var/run (writable)")
        (marked fail "Runtime Path: ./var/run not writable")
    ∷ marked pass ("Temp Path: " <> p.temp_dir <> " (writable)")
    ∷ plain ""
    ∷ []

abbrev kvm_line : Probe → Line
kvm_line p =
    if kvm_exists p
    then either (p.can_access "/dev/kvm" 6) (marked pass "/dev/kvm: present and openable")
        (marked warn "/dev/kvm: present but not openable by current user")
    else marked info "/dev/kvm: missing"

abbrev pub primitive_lines : Probe → List Line
primitive_lines p =
    plain "Virtualization Primitives"
    ∷ plain "-------------------------"
    ∷ kvm_line p
    ∷ either (p.is_present "/dev/net/tun") (marked pass "/dev/net/tun: present")
        (marked info "/dev/net/tun: missing")
    ∷ either (p.can_access "/sys/fs/cgroup" 4) (marked pass "cgroups: readable")
        (marked info "cgroups: not readable")
    ∷ plain ""
    ∷ []

abbrev command_line : Probe → String → String → String → Line
command_line p title name missing =
    either (has_command p name) (marked pass (title <> ": " <> check_command p name))
      (marked info (title <> ": " <> missing <> "not found"))

abbrev pub binary_lines : Probe → List Line
binary_lines p =
    plain "Backend Binaries"
    ∷ plain "----------------"
    ∷ command_line p "QEMU" (qemu_bin p) (qemu_bin p <> " ")
    ∷ command_line p "Cloud Hypervisor" "cloud-hypervisor" ""
    ∷ command_line p "Firecracker" "firecracker" ""
    ∷ plain ""
    ∷ []

abbrev pub control_plane_lines : Probe → List Line
control_plane_lines p =
    plain "Control Plane"
    ∷ plain "-------------"
    ∷ either (p.check_port "127.0.0.1:9090") (marked pass "API Port: 127.0.0.1:9090 is available")
        (marked fail "API Port: 127.0.0.1:9090 is in use or unavailable")
    ∷ either (control_plane_ready p) (marked pass "SQLite Initialization: possible")
        (marked fail "SQLite Initialization: blocked by path errors")
    ∷ plain ""
    ∷ []

abbrev vm_line : Probe → Line
vm_line p =
    if vm_launch_ready p
    then marked pass "VM launch"
    else either (kvm_exists p) (marked warn "VM launch (missing QEMU or permissions)")
        (marked info "VM launch (missing /dev/kvm)")

abbrev support_line : Probe → String → String → Line
support_line p name title =
    either (has_command p name && kvm_exists p) (marked pass title)
      (marked info (title <> " (missing binary or /dev/kvm)"))

abbrev pub summary_lines : Probe → List Line
summary_lines p =
    plain "Summary"
    ∷ plain "-------"
    ∷ either (control_plane_ready p) (marked pass "Control plane") (marked fail "Control plane")
    ∷ either (is_linux p) (marked pass "Agent inspect") (marked fail "Agent inspect")
    ∷ vm_line p
    ∷ support_line p "cloud-hypervisor" "Cloud Hypervisor support"
    ∷ support_line p "firecracker" "Firecracker support"
    ∷ either (orphan_sweep_ready p) (marked pass "Orphan sweep prerequisites")
        (marked fail "Orphan sweep prerequisites")
    ∷ plain ""
    ∷ []

unfoldable pub next_step : Probe → String
next_step p =
    if not (is_linux p) && control_plane_ready p
    then "  make demo-fixture (evaluator mode)"
    else if control_plane_ready p && is_linux p
    then "  make demo"
    else "  Resolve [FAIL] items before continuing."

-- runDoctor
unfoldable pub run_doctor : Probe → List Line
unfolding next_step
run_doctor p =
    (plain "============================================"
      ∷ plain "              Schedune Doctor               "
      ∷ plain "============================================"
      ∷ plain ""
      ∷ [])
    ++ host_lines p
    ++ storage_lines p
    ++ primitive_lines p
    ++ binary_lines p
    ++ control_plane_lines p
    ++ summary_lines p
    ++ plain "Recommended next step:" ∷ plain (next_step p) ∷ []

-- What main does for the arguments: a command, or the help and the exit code 1.
pub data Command : Type 0 where
  run_server_command run_doctor_command : Command
  help : Command
  unknown_command : String → Command

unfoldable pub main : List String → Command
main [] = help
main (program ∷ []) = help
main (program ∷ command ∷ rest) =
    if command == "server"
    then run_server_command
    else if command == "doctor"
    then run_doctor_command
    else unknown_command command
