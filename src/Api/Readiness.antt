-- ===== src/Api/Readiness.antt =====
-- schedune-control-plane/internal/api/launch_handlers.go: the readiness view of an execution.
use schedune.Base.{String, Bool, false, Option, none, some, if◌then◌else◌, ◌==◌}
use schedune.Base.Int64.{ℤ, pos, add64}
use schedune.Schema.Execution.{
  LaunchState, starting, same_state, PreparedLaunch, ReadinessSignalSummary, LaunchExecutionRecord,
}
use schedune.Schema.Views.{ReadinessSignalView, LaunchReadinessResponse, ExecutionSummary}

abbrev pub backend_name : Option PreparedLaunch → String
backend_name none = ""
backend_name (some p) = p.runtime_backend

abbrev signal_view : Option ReadinessSignalSummary → ReadinessSignalView
signal_view none = record {
  control_socket_path = "";
  control_socket_exists = false;
  control_socket_dial_ok = false;
  backend_ready_signal = false;
  backend_signal_source = "";
}
signal_view (some sig) = record {
  control_socket_path = sig.control_socket_path;
  control_socket_exists = sig.control_socket_exists;
  control_socket_dial_ok = sig.control_socket_dial_ok;
  backend_ready_signal = sig.backend_ready_signal;
  backend_signal_source = sig.backend_signal_source;
}

abbrev grace_of : Option PreparedLaunch → ℤ
grace_of none = pos 0
grace_of (some p) = p.startup_grace_sec

abbrev deadline_view : Option ℤ → ℤ
deadline_view none = pos 0
deadline_view (some started) = add64 started (pos 15)

abbrev last_observed : Option ReadinessSignalSummary → ℤ
last_observed none = pos 0
last_observed (some sig) = sig.last_observed_at_sec

abbrev grace_elapsed : Option ReadinessSignalSummary → Bool
grace_elapsed none = false
grace_elapsed (some sig) = sig.startup_grace_elapsed

-- The message, by the state and the readiness.
unfoldable pub readiness_message : LaunchState → String → String
readiness_message state readiness =
    if same_state state starting
    then "process alive but readiness signal not yet observed"
    else if readiness == "Ready"
    then "readiness signal observed"
    else if readiness == "Failed"
    then "readiness failed or timed out"
    else if readiness == "Unknown"
    then "process missing during readiness evaluation"
    else ""

abbrev text_of : Option String → String
text_of none = ""
text_of (some s) = s

-- buildReadinessResponse
unfoldable pub build_readiness_response : LaunchExecutionRecord → LaunchReadinessResponse
unfolding readiness_message
build_readiness_response rec = record {
  execution_id = rec.execution_id;
  workload_id = rec.workload_id;
  node_id = rec.node_id;
  backend = backend_name rec.prepared_state;
  state = rec.state;
  runtime_liveness = rec.runtime_liveness;
  runtime_readiness = rec.runtime_readiness;
  reason_code = text_of rec.failure_reason_code;
  message = readiness_message rec.state rec.runtime_readiness;
  signal = signal_view rec.readiness_signal;
  timing = record {
    startup_grace_sec = grace_of rec.prepared_state;
    startup_grace_elapsed = grace_elapsed rec.readiness_signal;
    readiness_timeout_sec = pos 15;
    readiness_deadline_sec = deadline_view rec.started_at_sec;
    last_observed_at_sec = last_observed rec.readiness_signal;
  };
}

-- The summary that ListLaunches and ObserveLaunch build.
abbrev pub summary_of : LaunchExecutionRecord → ExecutionSummary
summary_of rec = record {
  execution_id = rec.execution_id;
  workload_id = rec.workload_id;
  node_id = rec.node_id;
  state = rec.state;
  runtime_liveness = rec.runtime_liveness;
  runtime_readiness = rec.runtime_readiness;
  created_at_sec = rec.created_at_sec;
}
