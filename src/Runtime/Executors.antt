-- ===== src/Runtime/Executors.antt =====
-- schedune-control-plane/internal/runtime: kvm.go, cloudhypervisor.go and firecracker_validate.go, and
-- the resolver of internal/api/launch_handlers.go. The host is an argument.
use schedune.Base.{
  String, Bool, Option, none, some, List, [], ◌∷◌, ◌<>◌, ◌==◌, ◌||◌, if◌then◌else◌, Result, ok, err,
}
use schedune.Base.Int64.{ℤ, pos, decimal_ℤ}
use schedune.Base.Paths.{dir}
use schedune.Schema.Spec.{LaunchSpec}
use schedune.Schema.Execution.{
  PreparedLaunch, PreparedQemuLaunch, PreparedCloudHypervisorLaunch, no_prepared_launch,
}
use schedune.Orchestrate.Calls.{Executor}
use schedune.Runtime.{
  get_control_socket_path, join_path, resolve_primary_disk, resolve_firecracker_disks,
}

-- What the packages os, os/exec and net tell of the host; an error is its message.
-- is_missing: `os.IsNotExist` of the error of `os.Stat`. mkdir_all: `os.MkdirAll` with mode 0755.
-- start: `exec.Command` and `cmd.Start`, with the PID. kill: `os.FindProcess` and `proc.Kill`.
-- is_alive: `os.FindProcess` and the signal 0 both succeed. is_socket: `os.Stat` finds a socket.
-- dials: `net.DialTimeout` on a Unix socket succeeds. now: `time.Now().Unix()`.
pub record Host : Type 0 where
  pub is_missing : String → Bool
  pub mkdir_all : String → Option String
  pub start : String → List String → Result ℤ
  pub kill : ℤ → Option String
  pub is_alive : ℤ → Bool
  pub is_socket : String → Bool
  pub dials : String → Bool
  pub now : ℤ

abbrev no_socket : String → String
no_socket e = "failed to resolve control socket: " <> e

-- What KvmExecutor.Prepare returns for the control socket.
unfoldable pub prepared_kvm : LaunchSpec → String × String → String → PreparedLaunch
prepared_kvm spec (artifact, format) socket = record no_prepared_launch {
  runtime_backend = "kvm_qemu";
  memory_mb = spec.memory_mb;
  vcpu = spec.vcpu;
  startup_grace_sec = pos 5;
  kvm_qemu = some (record {
    binary_path = "qemu-system-" <> spec.architecture;
    artifact_path = artifact;
    command_args =
        "-enable-kvm"
        ∷ "-m"
        ∷ decimal_ℤ spec.memory_mb
        ∷ "-smp"
        ∷ decimal_ℤ spec.vcpu
        ∷ "-drive"
        ∷ ("file=" <> artifact <> ",format=" <> format)
        ∷ "-nographic"
        ∷ "-qmp"
        ∷ ("unix:" <> socket <> ",server,nowait")
        ∷ [];
    control_socket_path = socket;
  });
}

unfoldable pub prepared_cloud_hypervisor : LaunchSpec → String → String → PreparedLaunch
prepared_cloud_hypervisor spec artifact socket = record no_prepared_launch {
  runtime_backend = "cloud_hypervisor";
  memory_mb = spec.memory_mb;
  vcpu = spec.vcpu;
  startup_grace_sec = pos 3;
  cloud_hypervisor = some (record {
    binary_path = "cloud-hypervisor";
    artifact_path = artifact;
    command_args =
        "--memory"
        ∷ ("size=" <> decimal_ℤ spec.memory_mb <> "M")
        ∷ "--cpus"
        ∷ ("boot=" <> decimal_ℤ spec.vcpu)
        ∷ "--disk"
        ∷ ("path=" <> artifact)
        ∷ "--api-socket"
        ∷ socket
        ∷ [];
    control_socket_path = socket;
  });
}

unfoldable pub prepared_firecracker : LaunchSpec → String → String → String → PreparedLaunch
prepared_firecracker spec kernel rootfs socket = record no_prepared_launch {
  runtime_backend = "firecracker";
  memory_mb = spec.memory_mb;
  vcpu = spec.vcpu;
  startup_grace_sec = pos 2;
  firecracker = some (record {
    binary_path = "firecracker";
    kernel_image_path = kernel;
    rootfs_path = rootfs;
    command_args =
        "--api-sock" ∷ socket ∷ "--config-file" ∷ join_path (dir socket) "fc-config.json" ∷ [];
    control_socket_path = socket;
  });
}

abbrev pub with_socket : Result String → (String → PreparedLaunch) → Result PreparedLaunch
with_socket (err e) prepared = err (no_socket e)
with_socket (ok socket) prepared = ok (prepared socket)

module _ (h : Host) where
  -- The checks of the artifact, before the control socket.
  unfoldable pub check_artifact : String → Result PreparedLaunch → Result PreparedLaunch
  check_artifact artifact next =
      if artifact == ""
      then err "artifact missing for execution"
      else if h.is_missing artifact
      then err ("artifact missing at host path: " <> artifact)
      else next

  -- The runtime directory and the process, for a control socket, a binary and its arguments.
  unfoldable pub spawn : String → String → List String → Result ℤ
  spawn socket binary args = elim (if socket == "" then none else h.mkdir_all (dir socket)) [
    | some e ↦ err ("failed to create runtime directory: " <> e)
    | none ↦ elim (h.start binary args) [
      | err e ↦ err ("executable failed to start: " <> e)
      | ok pid ↦ ok pid
    ]
  ]

  unfoldable pub execute_kvm : Option PreparedQemuLaunch → Result ℤ
  unfolding spawn
  execute_kvm none = err "missing kvm_qemu prepared state"
  execute_kvm (some p) = spawn p.control_socket_path p.binary_path p.command_args

  unfoldable pub execute_cloud_hypervisor : Option PreparedCloudHypervisorLaunch → Result ℤ
  unfolding spawn
  execute_cloud_hypervisor none = err "missing cloud_hypervisor prepared state"
  execute_cloud_hypervisor (some p) = spawn p.control_socket_path p.binary_path p.command_args

  unfoldable pub prepare_kvm : LaunchSpec → Result PreparedLaunch
  unfolding check_artifact
  prepare_kvm spec =
      let disk = resolve_primary_disk spec in
      check_artifact disk.0
        (with_socket (get_control_socket_path spec.workload_id "qemu") (prepared_kvm spec disk))

  unfoldable pub prepare_cloud_hypervisor : LaunchSpec → Result PreparedLaunch
  unfolding check_artifact
  prepare_cloud_hypervisor spec =
      let artifact = (resolve_primary_disk spec).0 in
      check_artifact artifact (
        with_socket (get_control_socket_path spec.workload_id "cloudhypervisor")
          (prepared_cloud_hypervisor spec artifact))

  unfoldable pub prepare_firecracker : LaunchSpec → Result PreparedLaunch
  prepare_firecracker spec =
      let (kernel, rootfs) = resolve_firecracker_disks spec in
      if kernel == "" || rootfs == ""
      then err "missing kernel or rootfs path for firecracker artifact model"
      else with_socket (get_control_socket_path spec.workload_id "firecracker")
          (prepared_firecracker spec kernel rootfs)

  abbrev pub kvm_executor : Executor
  kvm_executor = record {
    prepare = prepare_kvm;
    execute = λ prepared. execute_kvm prepared.kvm_qemu;
    terminate = h.kill;
  }

  abbrev pub cloud_hypervisor_executor : Executor
  cloud_hypervisor_executor = record {
    prepare = prepare_cloud_hypervisor;
    execute = λ prepared. execute_cloud_hypervisor prepared.cloud_hypervisor;
    terminate = h.kill;
  }

  abbrev pub firecracker_executor : Executor
  firecracker_executor = record {
    prepare = prepare_firecracker;
    execute = λ prepared.
        err "firecracker actual execution not implemented in Data Plane V0 - validate/dry-run only";
    terminate = λ pid. some "firecracker termination not implemented";
  }

  -- StaticExecutorResolver.Resolve, with the executors that NewLaunchHandler registers.
  unfoldable pub resolve_executor : String → Result Executor
  resolve_executor backend =
      if backend == "kvm_qemu"
      then ok kvm_executor
      else if backend == "cloud_hypervisor"
      then ok cloud_hypervisor_executor
      else if backend == "firecracker"
      then ok firecracker_executor
      else err ("backend " <> backend <> " not registered")
