-- ===== src/Orchestrate/Ended.antt =====
-- What TerminateLaunch ends with (schedune-control-plane/internal/domain/orchestrator.go).
use schedune.Base.{
  ◌≡◌, ◌≢◌, ◌↔◌, ◌⊎◌, inl, inr, ap, sym, ◌∙◌, refl, suc, String, true, false, Option, none, some,
  [], arith, Bool-cases, if◌then◌else◌,
}
use mathlib.Core.Path.{subst}
use schedune.Schema.Execution.{
  LaunchState, pending, preparing, validated, launching, starting, running, degraded, exited,
  failed, terminating, terminated, unknown, LaunchExecutionRecord,
}
use schedune.Schema.Reasons.{err_term_signal_failed}
use schedune.Lifecycle.{is_transition_allowed, transition_to, append_trace}
use schedune.Lifecycle.Graph.{IsTerminal}
use schedune.Orchestrate.Calls.{Services, Machine, go_to, emit_event, pass_with}
use schedune.Orchestrate.{send_signal, is_over, record_signal, terminate_found}
use schedune.Orchestrate.Steps.{last_saved, Settles, pass_with-Settles, emit_settled, trace-Moves}

-- One of the constants of LaunchState.
abbrev pub IsNamed : LaunchState → Type 0
IsNamed s = (x : String) → s ≢ LaunchState.other x

abbrev IsStopping : LaunchState → Type 0
IsStopping s = (s ≡ terminating) ⊎ (s ≡ pending)

abbrev after_request : LaunchState → LaunchState
after_request s = if is_transition_allowed s terminating then terminating else s

-- Where a request to stop leaves the state of an execution that is not over: only one that is still
-- pending stays as it is.
abbrev pub asked_to_stop : LaunchState → LaunchState
asked_to_stop pending = pending
asked_to_stop s = terminating

asked_to_stop_lem :
    (o : Services) (s : LaunchState)
    → is_over o s ≡ false
    → IsNamed s
    → after_request s ≡ asked_to_stop s
unfolding is_transition_allowed
asked_to_stop_lem o pending h named = refl
asked_to_stop_lem o preparing h named = refl
asked_to_stop_lem o validated h named = refl
asked_to_stop_lem o launching h named = refl
asked_to_stop_lem o starting h named = refl
asked_to_stop_lem o running h named = refl
asked_to_stop_lem o degraded h named = refl
asked_to_stop_lem o exited h named = ground arith
asked_to_stop_lem o failed h named = ground arith
asked_to_stop_lem o terminating h named = refl
asked_to_stop_lem o terminated h named = ground arith
asked_to_stop_lem o unknown h named = refl
asked_to_stop_lem o (LaunchState.other x) h named = absurd (named x refl)

asked_to_stop-IsStopping : (s : LaunchState) → IsStopping (asked_to_stop s)
asked_to_stop-IsStopping pending = inr refl
asked_to_stop-IsStopping s = ground arith

stop_allowed : (s : LaunchState) → IsStopping s → is_transition_allowed s terminated ≡ true
unfolding is_transition_allowed
stop_allowed s h = ground arith

over_iff : (o : Services) (s : LaunchState) → (is_over o s ≡ true) ↔ IsTerminal s
over_iff o s = ground arith

module _ (o : Services) where
  asked_lem :
      (m : Machine)
      → Settles
          (after_request m.rec.state)
          m
          (pass_with o terminating "TerminationRequested" "Termination requested by API" m)
  unfolding go_to transition_to append_trace
  asked_lem m =
      emit_settled o (after_request m.rec.state) "TerminationRequested" "" _ m _
        (record { in_state = ground arith; same_pid = ground arith; same_prepared = ground arith })

  liveness_kept :
      (m : Machine)
      → (pass_with o terminated "Terminated" "Process terminated successfully"
          m).rec.runtime_liveness
        ≡ m.rec.runtime_liveness
  unfolding go_to transition_to append_trace emit_event
  liveness_kept m = ground arith

  -- How the termination of a stored record ends.
  pub data Ended (rec : LaunchExecutionRecord) (m : Machine) (e : Option String) : Type 0 where
    was_over : IsTerminal rec.state → m.rec ≡ rec → m.effects ≡ [] → e ≡ none → Ended rec m e
    has_stopped :
        ¬ IsTerminal rec.state
        → send_signal o rec.pid rec.prepared_state ≡ none
        → m.rec.state ≡ terminated
        → m.rec.runtime_liveness ≡ "Dead"
        → last_saved m.effects ≡ some m.rec
        → e ≡ none
        → Ended rec m e
    is_still_stopping :
        (failure : String)
        → ¬ IsTerminal rec.state
        → send_signal o rec.pid rec.prepared_state ≡ some failure
        → m.rec.state ≡ asked_to_stop rec.state
        → last_saved m.effects ≡ some m.rec
        → e ≡ some failure
        → Ended rec m e

  record_signal-Ended :
      (rec : LaunchExecutionRecord) (signal : Option String) (m : Machine)
      → ¬ IsTerminal rec.state
      → send_signal o rec.pid rec.prepared_state ≡ signal
      → m.rec.state ≡ asked_to_stop rec.state
      → Ended rec (record_signal o signal m).0 (record_signal o signal m).1
  unfolding record_signal
  record_signal-Ended rec (some failure) m alive sent stopping =
      let noted = trace-Moves o "Termination" "Failed" err_term_signal_failed failure m in
      let settled =
        emit_settled o m.rec.state "TerminationFailed" err_term_signal_failed failure m _ noted in
      is_still_stopping failure alive sent (settled.in_state ∙ stopping) settled.saved refl
  record_signal-Ended rec none m alive sent stopping =
      let dead : Machine = record m {
        rec = record m.rec {
          terminated_at_sec = some (o.clock m.ticks);
          runtime_liveness = "Dead";
          runtime_readiness = "NotReady";
        };
        ticks = suc m.ticks;
      } in
      let settled =
        pass_with-Settles o terminated "Terminated" "Process terminated successfully" dead (
          stop_allowed m.rec.state
            (subst IsStopping (sym stopping) (asked_to_stop-IsStopping rec.state))) in
      has_stopped alive sent settled.in_state (liveness_kept dead) settled.saved refl

  -- The termination of a stored record in one of the named states does nothing where the record is
  -- over. Otherwise, where there is no process to signal or the signal is sent, the record is
  -- terminated, dead and saved; where the signal fails the call returns that error, and the record is
  -- saved as terminating, or as pending where it was pending.
  pub terminate_found-Ended :
      (rec : LaunchExecutionRecord)
      → IsNamed rec.state
      → Ended rec (terminate_found o rec).0 (terminate_found o rec).1
  unfolding terminate_found
  terminate_found-Ended rec named = elim (Bool-cases (is_over o rec.state)) [
    | inl over ↦ rw over (was_over ((over_iff o rec.state).0 over) refl refl refl)
    | inr alive ↦
        let m : Machine = record { rec = rec; ticks = 0; ids = 0; effects = [] } in
        let asked = asked_lem m in
        rw alive (
          record_signal-Ended rec _
            (pass_with o terminating "TerminationRequested" "Termination requested by API" m)
            (λ h. let over = (over_iff o rec.state).1 h in ground arith)
            (ap (λ p. send_signal o p rec.prepared_state) (sym asked.same_pid)
              ∙ ap
                  (λ p.
                    send_signal o
                      (pass_with o terminating "TerminationRequested" "Termination requested by API"
                        m).rec.pid
                      p)
                  (sym asked.same_prepared))
            (asked.in_state ∙ asked_to_stop_lem o rec.state alive named))
  ]
