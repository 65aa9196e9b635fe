-- ===== src/Lifecycle/Reconcile/Frame.antt =====
-- What a round of polling may change of a record, and what it may not
-- (schedune-control-plane/internal/domain/lifecycle/reconcile.go).
use schedune.Base.{
  ◌≡◌, ◌⊎◌, inl, inr, refl, String, ◌&&◌, not, [], ◌∷◌, ◌++◌, Option, none, some, is_some, arith,
  Result, ok, err, if_ind,
}
use schedune.Base.Int64.{ℤ, pos, ltb_ℤ}
use schedune.Schema.Execution.{
  LaunchState, ExecutionTraceStep, same_state, terminating, starting, running, degraded, exited,
  failed, terminated, unknown, LaunchExecutionRecord, RuntimeObservation, Inspector,
}
use schedune.Lifecycle.{transition_to}
use schedune.Lifecycle.Graph.{◌⟶◌}
use schedune.Lifecycle.Transition.{transition_to-cases, transition_step}
use schedune.Lifecycle.Reconcile.{
  is_terminal, is_reconciled, deadline_of, inspected, with_pid, set_exit_code, reconcile_recovery,
  reconcile_health, reconcile_process, reconcile_observed, reconcile,
}

-- What identifies an execution and what was decided at its launch.
abbrev pub SameIdentity : LaunchExecutionRecord → LaunchExecutionRecord → Type 0
SameIdentity a b =
    (a.execution_id ≡ b.execution_id)
    × (a.workload_id ≡ b.workload_id)
    × (a.node_id ≡ b.node_id)
    × (a.spec ≡ b.spec)
    × (a.prepared_state ≡ b.prepared_state)
    × (a.pid ≡ b.pid)
    × (a.created_at_sec ≡ b.created_at_sec)
    × (a.started_at_sec ≡ b.started_at_sec)
    × (a.recovery_epoch ≡ b.recovery_epoch)

-- A draft of a round's result: only readings differ from the record.
abbrev IsDraft : LaunchExecutionRecord → LaunchExecutionRecord → Type 0
IsDraft a b = SameIdentity a b × (a.state ≡ b.state) × (a.trace ≡ b.trace)

-- Either the state is kept and so is the trace, or one edge of the diagram is taken, without an
-- error, and the trace grows by one step.
pub record Outcome (a : LaunchExecutionRecord) (r : LaunchExecutionRecord × Option String)
    : Type 0 where
  pub identity : SameIdentity a r.0
  pub change :
      (a.state ≡ r.0.state) × (a.trace ≡ r.0.trace)
      ⊎ (a.state ⟶ r.0.state)
        × (r.1 ≡ none)
        × ((step : ExecutionTraceStep) × (r.0.trace ≡ a.trace ++ step ∷ []))

module _ (now later : ℤ) where
  transition_to-Outcome :
      (a b : LaunchExecutionRecord) (next : LaunchState) (code msg : String)
      → IsDraft a b
      → Outcome a (transition_to later b next code msg)
  transition_to-Outcome a b next code msg d = elim (transition_to-cases later b next code msg) [
    | inl (edge, same) ↦ rw same (record {
      identity = d.0;
      change = inr (rw d.1 edge, refl, (transition_step later code msg, rw d.2));
    })
    | inr (_, same) ↦ rw same (record { identity = d.0; change = inl (d.1, d.2) })
  ]

  unchanged : (a b : LaunchExecutionRecord) (e : Option String) → IsDraft a b → Outcome a (b, e)
  unchanged a b e d = record { identity = d.0; change = inl (d.1, d.2) }

  recovery-Outcome :
      (obs : RuntimeObservation) (a b : LaunchExecutionRecord)
      → IsDraft a b
      → Outcome a (reconcile_recovery now later obs b)
  unfolding reconcile_recovery
  recovery-Outcome obs a b d =
      if_ind (Outcome a)
        (same_state b.state degraded
          && not (is_some obs.backend_specific_error)
          && obs.backend_ready_signal)
        (transition_to-Outcome a _ running "" _ d)
        (if_ind (Outcome a) (same_state b.state unknown && obs.process_exists)
          (if_ind (Outcome a) obs.backend_ready_signal (transition_to-Outcome a b running "" _ d)
            (transition_to-Outcome a b starting "" _ d))
          (unchanged a _ none d))

  health-Outcome :
      (e : Option String) (obs : RuntimeObservation) (a b : LaunchExecutionRecord)
      → IsDraft a b
      → Outcome a (reconcile_health now later e obs b)
  unfolding reconcile_health
  health-Outcome none obs a b d = recovery-Outcome obs a b d
  health-Outcome (some e) obs a b d =
      if_ind (Outcome a) (same_state b.state running) (transition_to-Outcome a _ degraded _ e d)
        (recovery-Outcome obs a b d)

  exit-IsDraft :
      (code : Option ℤ) (a b : LaunchExecutionRecord)
      → IsDraft a b
      → IsDraft a (set_exit_code code b)
  exit-IsDraft none a b d = d
  exit-IsDraft (some code) a b d = d

  process-Outcome :
      (obs : RuntimeObservation) (a b : LaunchExecutionRecord)
      → IsDraft a b
      → Outcome a (reconcile_process now later obs b)
  unfolding reconcile_process
  process-Outcome obs a b d =
      if_ind (Outcome a) (not obs.process_exists && not (same_state b.state terminating))
        (if_ind (Outcome a) (same_state b.state starting) (transition_to-Outcome a _ failed _ _ d)
          (transition_to-Outcome a _ exited _ _ (exit-IsDraft obs.exit_code a b d)))
        (if_ind (Outcome a)
          (same_state b.state starting && obs.process_exists && obs.backend_ready_signal)
          (transition_to-Outcome a _ running "" _ d)
          (if_ind (Outcome a)
            (same_state b.state starting
              && obs.process_exists
              && ltb_ℤ (pos 0) (deadline_of b.started_at_sec)
              && ltb_ℤ (deadline_of b.started_at_sec) now)
            (transition_to-Outcome a _ failed _ _ d)
            (health-Outcome obs.backend_specific_error obs a b d)))

  own : (a : LaunchExecutionRecord) → IsDraft a a
  own a = ground arith

  observed-Outcome :
      (obs : RuntimeObservation) (a : LaunchExecutionRecord)
      → Outcome a (reconcile_observed now later obs a)
  unfolding reconcile_observed
  observed-Outcome obs a =
      if_ind (Outcome a) (same_state a.state terminating && not obs.process_exists)
        (transition_to-Outcome a _ terminated "" _ (own a)) (process-Outcome obs a _ (own a))

  inspected-Outcome :
      (r : Result RuntimeObservation) (a : LaunchExecutionRecord)
      → Outcome a (inspected now later r a)
  inspected-Outcome (err e) a = transition_to-Outcome a a unknown _ e (own a)
  inspected-Outcome (ok obs) a = observed-Outcome obs a

  with_pid-Outcome :
      (inspector : Inspector) (pid : Option ℤ) (a : LaunchExecutionRecord)
      → Outcome a (with_pid now later inspector pid a)
  with_pid-Outcome inspector none a = transition_to-Outcome a a failed _ _ (own a)
  with_pid-Outcome inspector (some pid) a = inspected-Outcome _ a

  -- A round of polling keeps the identity of the execution and its launch data. It either keeps the
  -- state and the trace, or takes one edge of the transition diagram, returns no error and appends
  -- one step to the trace.
  pub reconcile-Outcome :
      (inspector : Inspector) (rec : LaunchExecutionRecord)
      → Outcome rec (reconcile now later inspector rec)
  unfolding reconcile
  reconcile-Outcome inspector rec =
      if_ind (Outcome rec) (is_terminal rec.state) (unchanged rec rec none (own rec)) (
        if_ind (Outcome rec) (not (is_reconciled rec.state)) (unchanged rec rec none (own rec))
          (with_pid-Outcome inspector rec.pid rec))
