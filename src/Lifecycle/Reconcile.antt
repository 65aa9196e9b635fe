-- ===== src/Lifecycle/Reconcile.antt =====
-- schedune-control-plane/internal/domain/lifecycle/reconcile.go: one round of polling an execution.
-- `now` is the clock at the head of Reconcile, `later` the clock when a trace step is appended.
pub mod Steps
pub mod Frame
pub mod Polling
use schedune.Base.{
  String, Bool, true, false, not, ◌&&◌, ◌||◌, Option, none, some, ◌<>◌, if◌then◌else◌, is_some,
  Result, ok, err,
}
use schedune.Base.Int64.{ℤ, pos, add64, ltb_ℤ}
use schedune.Schema.Execution.{
  LaunchState, starting, running, degraded, exited, failed, terminating, terminated, unknown,
  same_state, PreparedLaunch, no_prepared_launch, LaunchExecutionRecord, ReadinessSignalSummary,
  RuntimeObservation, Inspector,
}
use schedune.Lifecycle.{transition_to}

abbrev pub is_terminal : LaunchState → Bool
is_terminal s = same_state s exited || same_state s failed || same_state s terminated

-- The states in which a process should exist.
abbrev pub is_reconciled : LaunchState → Bool
is_reconciled s =
    same_state s starting
    || same_state s running
    || same_state s degraded
    || same_state s terminating
    || same_state s unknown

-- `*rec.PreparedState`, or the zero value.
abbrev pub prepared_of : Option PreparedLaunch → PreparedLaunch
prepared_of none = no_prepared_launch
prepared_of (some p) = p

abbrev pub signal_of : RuntimeObservation → ReadinessSignalSummary
signal_of obs = record {
  control_socket_path = obs.control_socket_path;
  control_socket_exists = obs.control_socket_exists;
  control_socket_dial_ok = obs.control_socket_dial_ok;
  backend_ready_signal = obs.backend_ready_signal;
  backend_signal_source = obs.backend_signal_source;
  startup_grace_elapsed = obs.startup_grace_elapsed;
  last_observed_at_sec = obs.observed_at_sec;
}

-- The readiness deadline: fifteen seconds from the start, 0 where there was none.
unfoldable pub deadline_of : Option ℤ → ℤ
deadline_of none = pos 0
deadline_of (some started) = add64 started (pos 15)

-- `if obs.ExitCode != nil { rec.ExitCode = obs.ExitCode }`
abbrev pub set_exit_code : Option ℤ → LaunchExecutionRecord → LaunchExecutionRecord
set_exit_code none rec = rec
set_exit_code (some code) rec = record rec { exit_code = some code }

module _ (now later : ℤ) where
  -- Scenarios 5 and 6, and the update of the timestamp.
  unfoldable pub reconcile_recovery :
      RuntimeObservation → LaunchExecutionRecord → LaunchExecutionRecord × Option String
  reconcile_recovery obs rec =
      if same_state rec.state degraded
        && not (is_some obs.backend_specific_error)
        && obs.backend_ready_signal
      then transition_to later (record rec { runtime_readiness = "Ready" }) running ""
          "Runtime recovered from degraded state"
      else if same_state rec.state unknown && obs.process_exists
      then if obs.backend_ready_signal
        then transition_to later rec running "" "Telemetry restored, process is alive and ready"
        else transition_to later rec starting ""
            "Telemetry restored, process is alive but not ready"
      else (record rec { updated_at_sec = now }, none)

  -- Scenario 4, and what follows it.
  unfoldable pub reconcile_health :
      Option String
      → RuntimeObservation
      → LaunchExecutionRecord
      → LaunchExecutionRecord × Option String
  unfolding reconcile_recovery
  reconcile_health none obs rec = reconcile_recovery obs rec
  reconcile_health (some e) obs rec =
      if same_state rec.state running
      then transition_to later (record rec { runtime_readiness = "Degraded" }) degraded
          "ERR_READY_PROBE_FAILED" e
      else reconcile_recovery obs rec

  -- Scenarios 2 and 3, and what follows them.
  unfoldable pub reconcile_process :
      RuntimeObservation → LaunchExecutionRecord → LaunchExecutionRecord × Option String
  unfolding reconcile_health deadline_of
  reconcile_process obs rec =
      let deadline = deadline_of rec.started_at_sec in
      if not obs.process_exists && not (same_state rec.state terminating)
      then if same_state rec.state starting
        then transition_to later (record rec { runtime_readiness = "Failed" }) failed
            "ERR_EXEC_RUNTIME_EXITED_EARLY" "Process died before reaching readiness"
        else transition_to later (set_exit_code obs.exit_code rec) exited "ERR_EXEC_RUNTIME_CRASHED"
            "Process exited unexpectedly"
      else if same_state rec.state starting && obs.process_exists && obs.backend_ready_signal
      then transition_to later (record rec { runtime_readiness = "Ready"; ready_at_sec = some now })
          running "" ("Runtime reached readiness criteria via " <> obs.backend_signal_source)
      else if same_state rec.state starting
          && obs.process_exists
          && ltb_ℤ (pos 0) deadline
          && ltb_ℤ deadline now
      then transition_to later (record rec { runtime_readiness = "Failed" }) failed
          "ERR_READY_TIMEOUT" "Process is alive but failed readiness checks within timeout"
      else reconcile_health obs.backend_specific_error obs rec

  -- From the observation on: the signal, the fast path of a termination, the liveness.
  unfoldable pub reconcile_observed :
      RuntimeObservation → LaunchExecutionRecord → LaunchExecutionRecord × Option String
  unfolding reconcile_process
  reconcile_observed obs rec =
      let seen = record rec { readiness_signal = some (signal_of obs) } in
      if same_state rec.state terminating && not obs.process_exists
      then transition_to later
          (record seen {
            terminated_at_sec = some now;
            runtime_liveness = "Dead";
            runtime_readiness = "NotReady";
          })
          terminated "" "Process disappeared after termination requested"
      else reconcile_process obs
          (record seen { runtime_liveness = if obs.process_exists then "Alive" else "Dead" })

  abbrev pub inspected :
      Result RuntimeObservation → LaunchExecutionRecord → LaunchExecutionRecord × Option String
  inspected (err e) rec = transition_to later rec unknown "ERR_RECONCILE_STATUS_UNREADABLE" e
  inspected (ok obs) rec = reconcile_observed obs rec

  abbrev pub with_pid :
      Inspector → Option ℤ → LaunchExecutionRecord → LaunchExecutionRecord × Option String
  with_pid inspector none rec =
      transition_to later rec failed "ERR_RECONCILE_PROCESS_MISSING"
        "Expected PID is missing from record"
  with_pid inspector (some pid) rec =
      inspected (inspector rec.execution_id (some pid) (prepared_of rec.prepared_state)) rec

  -- Reconcile: the record as the call leaves it, and the error that it returns.
  unfoldable pub reconcile :
      Inspector → LaunchExecutionRecord → LaunchExecutionRecord × Option String
  reconcile inspector rec =
      if is_terminal rec.state
      then (rec, none)
      else if not (is_reconciled rec.state)
      then (rec, none)
      else with_pid inspector rec.pid rec
