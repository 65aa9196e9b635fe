-- ===== src/Examples/Lifecycles.antt =====
-- Theorems on the states of an execution, at concrete executions.
use schedune.Base.{
  ◌≡◌, ◌⊎◌, ◌↔◌, refl, true, false, none, some, is_some, List, [], ◌∷◌, ◌++◌, arith,
}
use schedune.Base.Int64.{pos, ◌+ℤ◌, ◌<ℤ◌, +ℤ_parts}
use schedune.Schema.Execution.{starting, running, degraded, failed, unknown}
use schedune.Lifecycle.{is_transition_allowed, transition_to, invalid_transition}
use schedune.Lifecycle.Graph.{◌⟶◌, IsTerminal, is_transition_allowed_iff}
use schedune.Lifecycle.Transition.{transition_step, transition_to-cases}
use schedune.Lifecycle.Reconcile.{reconcile}
use schedune.Lifecycle.Reconcile.Steps.{
  observed_state, is_refused, reconcile-observed_state, reconcile-deadline, reconcile-is_refused,
}
use schedune.Lifecycle.Reconcile.Frame.{Outcome, reconcile-Outcome}
use schedune.Lifecycle.Reconcile.Polling.{Round, poll_all, IsHistory, poll_all-IsHistory}
use schedune.Recovery.{recover_execution}
use schedune.Recovery.Bootstrapped.{recovered_state, sight, recover_execution-recovered_state}
use schedune.Readiness.{evaluate_backend_readiness}
use schedune.Readiness.Verdict.{IsReady, HasFailed, evaluate_backend_readiness_iff}
use schedune.Examples.Data.{started_execution, in_state, seen_alive, always}

is_transition_allowed_iff_example :
    (is_transition_allowed degraded running ≡ true) ↔ (degraded ⟶ running)
is_transition_allowed_iff_example = is_transition_allowed_iff degraded running

transition_to-cases_example :
    (starting ⟶ running)
      × (transition_to (pos 5) started_execution running "" "up" ≡ (
        record started_execution {
          state = running;
          trace = started_execution.trace ++ transition_step (pos 5) "" "up" ∷ [];
        },
        none,
      ))
    ⊎ (¬ (starting ⟶ running))
      × (transition_to (pos 5) started_execution running "" "up"
          ≡ (started_execution, some (invalid_transition starting running)))
transition_to-cases_example = transition_to-cases (pos 5) started_execution running "" "up"

reconcile-observed_state_example :
    (reconcile (pos 1005) (pos 1006) (always (seen_alive true)) started_execution).0.state
    ≡ observed_state (pos 1005) (some (pos 1000)) (seen_alive true) starting
reconcile-observed_state_example =
    reconcile-observed_state (pos 1005) (pos 1006) (always (seen_alive true)) started_execution
      (pos 42) (seen_alive true) refl refl

reconcile-deadline_example :
    (reconcile (pos 1020) (pos 1021) (always (seen_alive false)) started_execution).0.state ≡ failed
reconcile-deadline_example =
    reconcile-deadline (pos 1020) (pos 1021) (always (seen_alive false)) started_execution (pos 42)
      (pos 1000) (seen_alive false) refl refl refl refl refl refl (omega arith, omega arith) is_late
  where
    is_late : pos 1000 +ℤ pos 15 <ℤ pos 1020
    is_late = let parts = +ℤ_parts (pos 1000) (pos 15) in omega (arith, parts)

reconcile-is_refused_example :
    is_some (reconcile (pos 1020) (pos 1021) (always (seen_alive false)) (in_state unknown)).1
    ≡ is_refused (seen_alive false) unknown
reconcile-is_refused_example =
    reconcile-is_refused (pos 1020) (pos 1021) (always (seen_alive false)) (in_state unknown)
      (pos 42) (seen_alive false) refl refl

reconcile-Outcome_example :
    Outcome started_execution
      (reconcile (pos 1020) (pos 1021) (always (seen_alive false)) started_execution)
reconcile-Outcome_example =
    reconcile-Outcome (pos 1020) (pos 1021) (always (seen_alive false)) started_execution

abbrev rounds : List Round
rounds =
    record { now = pos 1005; later = pos 1006; inspector = always (seen_alive true) }
    ∷ record { now = pos 1010; later = pos 1011; inspector = always (seen_alive false) }
    ∷ []

poll_all-IsHistory_example : IsHistory started_execution (poll_all started_execution rounds)
poll_all-IsHistory_example = poll_all-IsHistory rounds started_execution

recover_execution-recovered_state_example :
    (recover_execution (always (seen_alive true)) "epoch" (pos 7) (pos 8) started_execution).0.state
    ≡ recovered_state starting (sight (always (seen_alive true)) started_execution (some (pos 42)))
recover_execution-recovered_state_example =
    recover_execution-recovered_state (always (seen_alive true)) "epoch" (pos 7) (pos 8)
      started_execution not_over
  where
    not_over : ¬ IsTerminal starting
    not_over = λ h. ground arith

evaluate_backend_readiness_iff_example :
    (((evaluate_backend_readiness "kvm_qemu" (seen_alive false) (pos 1015)).readiness ≡ "Ready")
      ↔ IsReady "kvm_qemu" (seen_alive false))
    × (((evaluate_backend_readiness "kvm_qemu" (seen_alive false) (pos 1015)).readiness ≡ "Failed")
        ↔ HasFailed "kvm_qemu" (seen_alive false) (pos 1015))
evaluate_backend_readiness_iff_example =
    evaluate_backend_readiness_iff "kvm_qemu" (seen_alive false) (pos 1015)
