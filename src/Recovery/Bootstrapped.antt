-- ===== src/Recovery/Bootstrapped.antt =====
-- What recovery makes of a stored execution (schedune-control-plane/internal/recovery/bootstrap.go).
use schedune.Base.{◌≡◌, String, Option, none, some, Result, ok, err, arith, if◌then◌else◌}
use schedune.Base.Int64.{ℤ}
use schedune.Schema.Execution.{
  LaunchState, terminating, terminated, unknown, LaunchExecutionRecord, RuntimeObservation,
  Inspector,
}
use schedune.Lifecycle.{is_transition_allowed, append_trace, transition_to}
use schedune.Lifecycle.Graph.{IsTerminal}
use schedune.Lifecycle.Reconcile.{prepared_of}
use schedune.Recovery.{recover_observed, recover_pid, seen_by, recover_execution}

-- What the host shows of an execution's process.
pub data Sight : Type 0 where
  no_pid unreadable alive gone : Sight

abbrev sight_of_result : Result RuntimeObservation → Sight
sight_of_result (err e) = unreadable
sight_of_result (ok obs) = if obs.process_exists then alive else gone

abbrev pub sight : Inspector → LaunchExecutionRecord → Option ℤ → Sight
sight inspect rec none = no_pid
sight inspect rec (some pid) =
    sight_of_result (inspect rec.execution_id (some pid) (prepared_of rec.prepared_state))

-- The state of a recovered execution: as it was where its process is alive, terminated where it was
-- being stopped and is gone, and unknown in every other case.
abbrev pub recovered_state : LaunchState → Sight → LaunchState
recovered_state s alive = s
recovered_state terminating gone = terminated
recovered_state s _ = unknown

observed_lem :
    (later : ℤ) (rec : LaunchExecutionRecord) (r : Result RuntimeObservation)
    → ¬ IsTerminal rec.state
    → (recover_observed later rec r).0.state ≡ recovered_state rec.state (sight_of_result r)
unfolding recover_observed transition_to append_trace is_transition_allowed
observed_lem later rec r h = ground arith

pid_lem :
    (inspect : Inspector) (later : ℤ) (rec : LaunchExecutionRecord) (pid : Option ℤ)
    → ¬ IsTerminal rec.state
    → (recover_pid inspect later rec pid).0.state
      ≡ recovered_state rec.state (sight inspect rec pid)
unfolding recover_pid transition_to append_trace is_transition_allowed
pid_lem inspect later rec none h = ground arith
pid_lem inspect later rec (some pid) h = observed_lem later rec _ h

-- An execution that is not over recovers to the state of the table `recovered_state`, for what the
-- host shows of its process.
pub recover_execution-recovered_state :
    (inspect : Inspector) (epoch : String) (now later : ℤ) (rec : LaunchExecutionRecord)
    → ¬ IsTerminal rec.state
    → (recover_execution inspect epoch now later rec).0.state
      ≡ recovered_state rec.state (sight inspect rec rec.pid)
unfolding recover_execution
recover_execution-recovered_state inspect epoch now later rec h =
    pid_lem inspect later (seen_by epoch now rec) rec.pid h
