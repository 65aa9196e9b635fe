-- ===== src/Examples/Data.antt =====
-- A node, a launch, an execution and a host, as test data.
use schedune.Base.{Bool, true, false, none, some, [], ◌∷◌, ok, err, ◌==◌, if◌then◌else◌}
use schedune.Base.Int64.{pos}
use schedune.Schema.Spec.{LaunchSpec}
use schedune.Schema.Execution.{
  LaunchState, starting, LaunchExecutionRecord, RuntimeObservation, Inspector, no_prepared_launch,
}
use schedune.Schema.Workload.{WorkloadIntent}
use schedune.Schema.Plan.{LaunchTemplateSpec}
use schedune.Node.{NodeRecord, NodeCapabilityRecord}
use schedune.Recovery.{EnumeratedProcess}
use schedune.Orchestrate.Calls.{Executor, Services}

abbrev supported : NodeCapabilityRecord
supported = record {
  state = "Supported";
  provenance = "Observed";
  reason_code = "";
  version = "QEMU emulator version 8.2.1";
  is_stale = false;
}

abbrev pub node_a : NodeRecord
node_a = record {
  id = "node-a";
  identity = record {
    hostname = "a";
    architecture = "x86_64";
    total_cores = pos 8;
    total_memory_mb = pos 16384;
  };
  health = record { state = "Healthy"; active_alarms = [] };
  compatibility = record { class = "ArmProduction"; reason_codes = [] };
  capabilities =
      ("kvm_vm_launch", supported)
      ∷ ("kvm_virtualization", supported)
      ∷ ("kvm_openable", supported)
      ∷ ("kvm_qemu", supported)
      ∷ ("qemu_binary_present", supported)
      ∷ ("kernel_seccomp_supported", supported)
      ∷ [];
  constraints = [];
  freshness = record {
    last_collection_id = "c1";
    last_collection_time = pos 1000;
    is_stale = false;
    stale_collectors = [];
  };
}

-- The same host without the health that a workload asks for.
abbrev pub node_b : NodeRecord
node_b = record node_a { id = "node-b"; health = record { state = "Critical"; active_alarms = [] } }

abbrev pub vm_spec : LaunchSpec
vm_spec = record {
  schema_version = "v1alpha1";
  workload_id = "w1";
  tenant_id = "t1";
  node_id = "node-a";
  runtime_class = "VirtualMachine";
  architecture = "x86_64";
  image_reference = "";
  kernel_image_path = "";
  rootfs_path = "";
  network_attachments = [];
  storage =
      record {
        volume_id = "v1";
        host_path = "/img/root.qcow2";
        read_only = false;
        format = "qcow2";
        mount_point = "/";
      }
      ∷ [];
  networks = [];
  security = none;
  vcpu = pos 2;
  memory_mb = pos 1024;
  launch_mode = "Execute";
  runtime_backend_preference = "kvm_qemu";
  allow_backend_fallback = false;
  runtime_version = none;
}

abbrev pub intent : WorkloadIntent
intent = record {
  schema_version = "v1alpha1";
  workload_id = "w1";
  tenant_id = "t1";
  runtime_class = "VirtualMachine";
  required_architecture = "any";
  max_telemetry_age_sec = pos 60;
  requires_kvm = true;
  requires_tpm = false;
  kernel_image_path = "";
  rootfs_path = "";
  runtime_backend_preference = "";
  allow_backend_fallback = false;
  forbidden_constraints = "NO_IOMMU" ∷ [];
  required_compatibility_classes = "ArmProduction" ∷ [];
  preferred_features = "kvm_qemu" ∷ [];
}

abbrev pub template : LaunchTemplateSpec
template = record {
  schema_version = "v1alpha1";
  workload_id = "w1";
  tenant_id = "t1";
  node_id = "";
  runtime_class = "VirtualMachine";
  architecture = "x86_64";
  image_reference = "";
  kernel_image_path = "";
  rootfs_path = "";
  network_attachments = [];
  storage = vm_spec.storage;
  networks = [];
  security = none;
  vcpu = pos 2;
  memory_mb = pos 1024;
  launch_mode = "";
  runtime_backend_preference = "kvm_qemu";
  allow_backend_fallback = false;
  runtime_version = none;
}

abbrev pub started_execution : LaunchExecutionRecord
started_execution = record {
  execution_id = "e1";
  workload_id = "w1";
  node_id = "node-a";
  spec = vm_spec;
  prepared_state = some (record no_prepared_launch { runtime_backend = "kvm_qemu" });
  state = starting;
  runtime_liveness = "Unknown";
  runtime_readiness = "NotStarted";
  created_at_sec = pos 1000;
  updated_at_sec = pos 1000;
  started_at_sec = some (pos 1000);
  ready_at_sec = none;
  terminated_at_sec = none;
  pid = some (pos 42);
  exit_code = none;
  failure_reason_code = none;
  trace = [];
  generation = pos 0;
  recovery_epoch = "";
  last_observed_at_sec = none;
  readiness_signal = none;
}

abbrev pub in_state : LaunchState → LaunchExecutionRecord
in_state s = record started_execution { state = s }

-- A process that is alive, with or without the signal that it is ready.
abbrev pub seen_alive : Bool → RuntimeObservation
seen_alive ready = record {
  backend = "kvm_qemu";
  process_exists = true;
  pid = some (pos 42);
  exit_code = none;
  observed_at_sec = pos 1020;
  control_socket_path = "/run/e1.sock";
  control_socket_exists = ready;
  control_socket_dial_ok = ready;
  startup_grace_elapsed = true;
  backend_ready_signal = ready;
  backend_signal_source = "qmp";
  backend_specific_error = none;
}

abbrev pub always : RuntimeObservation → Inspector
always obs execution_id pid prepared = ok obs

abbrev pub qemu : Executor
qemu = record {
  prepare = λ spec. ok (record no_prepared_launch { runtime_backend = "kvm_qemu" });
  execute = λ prepared. ok (pos 42);
  terminate = λ pid. none;
}

abbrev pub services : Services
services = record {
  get_node = λ id. (node_a, if id == "node-a" then none else some "node not found");
  get_node_again = λ id. (node_a, if id == "node-a" then none else some "node not found");
  resolve = λ backend. if backend == "kvm_qemu" then ok qemu else err "no executor";
  has_event_store = true;
  clock = λ i. pos 1000;
  new_id = λ i. "id";
  trace_order = λ m. m;
  hints_order = λ m. m;
}

abbrev pub process : EnumeratedProcess
process = record {
  pid = pos 42;
  ppid = none;
  backend = "kvm_qemu";
  command = "qemu-system-x86_64";
  command_args = [];
  command_fingerprint = "f";
  execution_id_hint = "e1";
  workload_id_hint = "";
  observed_at_sec = pos 1020;
  details = [];
}
