-- ===== src/Schema/Execution.antt =====
-- schedune-control-plane/pkg/schema/launch/v1alpha1.go, lines 93 to 258: the execution record, its
-- states and its events; and internal/runtime/inspect/inspector.go: what is seen of a process.
use schedune.Base.{String, Bool, true, false, ◌==◌, List, Option, Result, none}
use schedune.Base.Int64.{ℤ}
use schedune.Schema.Spec.{LaunchSpec}
use schedune.Schema.Orphan.{OrphanRecord}

-- The constants of the text type LaunchState; `other` is any text that is none of them, such as a
-- stored record may hold.
pub data LaunchState : Type 0 where
  pending preparing validated launching starting running degraded : LaunchState
  exited failed terminating terminated unknown : LaunchState
  other : String → LaunchState

-- The texts of the constants.
unfoldable pub state_text : LaunchState → String
state_text pending = "Pending"
state_text preparing = "Preparing"
state_text validated = "Validated"
state_text launching = "Launching"
state_text starting = "Starting"
state_text running = "Running"
state_text degraded = "Degraded"
state_text exited = "Exited"
state_text failed = "Failed"
state_text terminating = "Terminating"
state_text terminated = "Terminated"
state_text unknown = "Unknown"
state_text (other s) = s

-- `a == b` on states.
abbrev pub same_state : LaunchState → LaunchState → Bool
same_state pending pending = true
same_state preparing preparing = true
same_state validated validated = true
same_state launching launching = true
same_state starting starting = true
same_state running running = true
same_state degraded degraded = true
same_state exited exited = true
same_state failed failed = true
same_state terminating terminating = true
same_state terminated terminated = true
same_state unknown unknown = true
same_state (other s) (other t) = s == t
same_state _ _ = false

pub record ExecutionTraceStep : Type 0 where
  pub stage : String
  pub status : String
  pub reason_code : String
  pub message : String
  pub timestamp_sec : ℤ

pub record PreparedQemuLaunch : Type 0 where
  pub binary_path : String
  pub artifact_path : String
  pub command_args : List String
  pub control_socket_path : String

pub record PreparedCloudHypervisorLaunch : Type 0 where
  pub binary_path : String
  pub artifact_path : String
  pub command_args : List String
  pub control_socket_path : String

pub record PreparedFirecrackerLaunch : Type 0 where
  pub binary_path : String
  pub kernel_image_path : String
  pub rootfs_path : String
  pub command_args : List String
  pub control_socket_path : String

pub record PreparedLaunch : Type 0 where
  pub runtime_backend : String
  pub memory_mb : ℤ
  pub vcpu : ℤ
  pub startup_grace_sec : ℤ
  pub kvm_qemu : Option PreparedQemuLaunch
  pub cloud_hypervisor : Option PreparedCloudHypervisorLaunch
  pub firecracker : Option PreparedFirecrackerLaunch

pub record ReadinessSignalSummary : Type 0 where
  pub control_socket_path : String
  pub control_socket_exists : Bool
  pub control_socket_dial_ok : Bool
  pub backend_ready_signal : Bool
  pub backend_signal_source : String
  pub startup_grace_elapsed : Bool
  pub last_observed_at_sec : ℤ

pub record LaunchExecutionRecord : Type 0 where
  pub execution_id : String
  pub workload_id : String
  pub node_id : String
  pub spec : LaunchSpec
  pub prepared_state : Option PreparedLaunch
  pub state : LaunchState
  pub runtime_liveness : String
  pub runtime_readiness : String
  pub created_at_sec : ℤ
  pub updated_at_sec : ℤ
  pub started_at_sec : Option ℤ
  pub ready_at_sec : Option ℤ
  pub terminated_at_sec : Option ℤ
  pub pid : Option ℤ
  pub exit_code : Option ℤ
  pub failure_reason_code : Option String
  pub trace : List ExecutionTraceStep
  pub generation : ℤ
  pub recovery_epoch : String
  pub last_observed_at_sec : Option ℤ
  pub readiness_signal : Option ReadinessSignalSummary

pub record EventPayloadLifecycle : Type 0 where
  pub execution_id : String
  pub workload_id : String
  pub node_id : String
  pub backend : String
  pub state : LaunchState
  pub message : String

pub record EventPayloadReconcile : Type 0 where
  pub execution_id : String
  pub node_id : String
  pub before_state : LaunchState
  pub after_state : LaunchState
  pub before_liveness : String
  pub after_liveness : String
  pub before_readiness : String
  pub after_readiness : String
  pub exit_code : Option ℤ
  pub signal : Option ReadinessSignalSummary

-- The payloads that the program puts behind the `interface{}`.
pub data EventPayload : Type 0 where
  lifecycle_payload : EventPayloadLifecycle → EventPayload
  reconcile_payload : EventPayloadReconcile → EventPayload
  message_payload : String → EventPayload
  orphan_payload : OrphanRecord → EventPayload

pub record RuntimeEvent : Type 0 where
  pub event_id : String
  pub execution_id : String
  pub event_type : String
  pub timestamp_sec : ℤ
  pub reason_code : String
  pub payload_json : EventPayload

pub record RuntimeObservation : Type 0 where
  pub backend : String
  pub process_exists : Bool
  pub pid : Option ℤ
  pub exit_code : Option ℤ
  pub observed_at_sec : ℤ
  pub control_socket_path : String
  pub control_socket_exists : Bool
  pub control_socket_dial_ok : Bool
  pub startup_grace_elapsed : Bool
  pub backend_ready_signal : Bool
  pub backend_signal_source : String
  pub backend_specific_error : Option String

-- The method of the interface inspect.Inspector.
abbrev pub Inspector : Type 0
Inspector = String → Option ℤ → PreparedLaunch → Result RuntimeObservation

-- Go's zero value of PreparedLaunch.
abbrev pub no_prepared_launch : PreparedLaunch
no_prepared_launch = record {
  runtime_backend = "";
  memory_mb = ℤ.pos 0;
  vcpu = ℤ.pos 0;
  startup_grace_sec = ℤ.pos 0;
  kvm_qemu = none;
  cloud_hypervisor = none;
  firecracker = none;
}
