-- ===== src/Schema/Views.antt =====
-- schedune-control-plane/pkg/schema/launch/v1alpha1.go, lines 84 to 91, 184 to 211 and 259 to 276: what
-- the API answers about an execution.
use schedune.Base.{String, Bool, List, Option}
use schedune.Base.Int64.{ℤ}
use schedune.Schema.Spec.{LaunchValidationResult}
use schedune.Schema.Execution.{LaunchState, PreparedLaunch, ExecutionTraceStep}

pub record LaunchDryRunResult : Type 0 where
  pub validation : LaunchValidationResult
  pub prepared_launch : Option PreparedLaunch
  pub preparation_reason_code : Option String
  pub preparation_error : Option String

pub record ReadinessSignalView : Type 0 where
  pub control_socket_path : String
  pub control_socket_exists : Bool
  pub control_socket_dial_ok : Bool
  pub backend_ready_signal : Bool
  pub backend_signal_source : String

pub record ReadinessTimingView : Type 0 where
  pub startup_grace_sec : ℤ
  pub startup_grace_elapsed : Bool
  pub readiness_timeout_sec : ℤ
  pub readiness_deadline_sec : ℤ
  pub last_observed_at_sec : ℤ

pub record LaunchReadinessResponse : Type 0 where
  pub execution_id : String
  pub workload_id : String
  pub node_id : String
  pub backend : String
  pub state : LaunchState
  pub runtime_liveness : String
  pub runtime_readiness : String
  pub reason_code : String
  pub message : String
  pub signal : ReadinessSignalView
  pub timing : ReadinessTimingView

pub record ExecutionSummary : Type 0 where
  pub execution_id : String
  pub workload_id : String
  pub node_id : String
  pub state : LaunchState
  pub runtime_liveness : String
  pub runtime_readiness : String
  pub created_at_sec : ℤ

-- `E` is the type of the events, as the store lists them.
pub record ExecutionObservation (E : Type 0) : Type 0 where
  pub summary : ExecutionSummary
  pub prepared_with : Option PreparedLaunch
  pub readiness : LaunchReadinessResponse
  pub trace : List ExecutionTraceStep
  pub recent_events : List E
