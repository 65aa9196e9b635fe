-- ===== src/Lifecycle/Reconcile/Steps.antt =====
-- What one round of polling does to an execution
-- (schedune-control-plane/internal/domain/lifecycle/reconcile.go).
use schedune.Base.{
  ◌≡◌, ◌∙◌, refl, Bool, true, false, not, ◌&&◌, ◌||◌, Option, some, is_some, if◌then◌else◌, arith,
  ok,
}
use schedune.Base.Int64.{ℤ, pos, ltb_ℤ, IsTime, ◌+ℤ◌, ◌<ℤ◌, add64_of_IsTime, +ℤ_parts}
use schedune.Schema.Execution.{
  LaunchState, starting, running, degraded, exited, failed, terminating, terminated, unknown,
  LaunchExecutionRecord, RuntimeObservation, Inspector,
}
use schedune.Lifecycle.{transition_to, append_trace, is_transition_allowed}
use schedune.Lifecycle.Reconcile.{
  is_reconciled, deadline_of, reconcile_observed, prepared_of, reconcile,
}

-- The state after a round whose inspection succeeds, as a table over the state before it.
abbrev pub observed_state : (now : ℤ) → Option ℤ → RuntimeObservation → LaunchState → LaunchState
observed_state now started obs starting =
    if not obs.process_exists
    then failed
    else if obs.backend_ready_signal
    then running
    else if ltb_ℤ (pos 0) (deadline_of started) && ltb_ℤ (deadline_of started) now
    then failed
    else starting
observed_state now started obs running =
    if not obs.process_exists
    then exited
    else if is_some obs.backend_specific_error
    then degraded
    else running
observed_state now started obs terminating = if obs.process_exists then terminating else terminated
observed_state now started obs unknown =
    if not obs.process_exists then exited else if obs.backend_ready_signal then running else unknown
observed_state now started obs s = s

-- When such a round asks for a transition that the diagram lacks.
abbrev pub is_refused : RuntimeObservation → LaunchState → Bool
is_refused obs degraded =
    not obs.process_exists || (not (is_some obs.backend_specific_error) && obs.backend_ready_signal)
is_refused obs unknown = obs.process_exists && not obs.backend_ready_signal
is_refused obs _ = false

module _ (now later : ℤ) where
  observed_lem :
      (obs : RuntimeObservation) (rec : LaunchExecutionRecord) (s : LaunchState)
      → rec.state ≡ s
      → (reconcile_observed now later obs rec).0.state ≡ observed_state now rec.started_at_sec obs s
  unfolding reconcile_observed transition_to append_trace is_transition_allowed
  observed_lem obs rec starting e = ground arith
  observed_lem obs rec _ e = ground arith

  -- A round that finds a PID and whose inspection succeeds leaves the state that the table
  -- `observed_state` gives.
  pub reconcile-observed_state :
      (inspector : Inspector) (rec : LaunchExecutionRecord) (pid : ℤ) (obs : RuntimeObservation)
      → rec.pid ≡ some pid
      → inspector rec.execution_id (some pid) (prepared_of rec.prepared_state) ≡ ok obs
      → (reconcile now later inspector rec).0.state
        ≡ observed_state now rec.started_at_sec obs rec.state
  unfolding reconcile
  reconcile-observed_state inspector rec pid obs hp hi =
      ground (arith, observed_lem obs rec rec.state refl)

  -- An execution that is starting, with a PID, seen alive and not ready, fails in a round that comes
  -- more than fifteen seconds after its start, for a start at a time that a clock can show.
  pub reconcile-deadline :
      (inspector : Inspector) (rec : LaunchExecutionRecord) (pid started : ℤ)
      (obs : RuntimeObservation)
      → rec.pid ≡ some pid
      → inspector rec.execution_id (some pid) (prepared_of rec.prepared_state) ≡ ok obs
      → rec.state ≡ starting
      → obs.process_exists ≡ true
      → obs.backend_ready_signal ≡ false
      → rec.started_at_sec ≡ some started
      → IsTime started
      → started +ℤ pos 15 <ℤ now
      → (reconcile now later inspector rec).0.state ≡ failed
  unfolding deadline_of
  reconcile-deadline inspector rec pid started obs hp hi hs alive unready hstart t late =
      let same = reconcile-observed_state inspector rec pid obs hp hi in
      let sum = add64_of_IsTime started (pos 15) t (omega arith) in
      let parts = +ℤ_parts started (pos 15) in
      same ∙ rw (hs, alive, unready, hstart, deadline_of, sum) (ground (arith, parts))

  refused_lem :
      (obs : RuntimeObservation) (rec : LaunchExecutionRecord) (s : LaunchState)
      → rec.state ≡ s
      → is_reconciled s ≡ true
      → is_some (reconcile_observed now later obs rec).1 ≡ is_refused obs s
  unfolding reconcile_observed transition_to append_trace is_transition_allowed
  refused_lem obs rec starting e h = ground arith
  refused_lem obs rec _ e h = ground arith

  -- A round that finds a PID and whose inspection succeeds returns an error in exactly three cases:
  -- a degraded execution without its process, a degraded one that is healthy and ready again, and
  -- one in `unknown` that is alive and not ready.
  pub reconcile-is_refused :
      (inspector : Inspector) (rec : LaunchExecutionRecord) (pid : ℤ) (obs : RuntimeObservation)
      → rec.pid ≡ some pid
      → inspector rec.execution_id (some pid) (prepared_of rec.prepared_state) ≡ ok obs
      → is_some (reconcile now later inspector rec).1 ≡ is_refused obs rec.state
  unfolding reconcile
  reconcile-is_refused inspector rec pid obs hp hi =
      ground (arith, refused_lem obs rec rec.state refl)
