-- ===== src/Lifecycle/Graph.antt =====
-- The transition diagram of an execution (schedune-control-plane/internal/domain/lifecycle).
use schedune.Base.{◌≡◌, ◌≢◌, ◌⊎◌, inl, inr, ◌↔◌, refl, true, arith, String}
use schedune.Schema.Execution.{
  LaunchState, pending, preparing, validated, launching, starting, running, degraded, exited,
  failed, terminating, terminated, unknown, other,
}
use schedune.Lifecycle.{is_transition_allowed}

-- States that hold no process any more and are not polled.
abbrev pub IsTerminal : LaunchState → Type 0
IsTerminal s = (s ≡ exited) ⊎ (s ≡ failed) ⊎ (s ≡ terminated)

-- One edge of the diagram.
infix 40 ◌⟶◌
pub data ◌⟶◌ : LaunchState → LaunchState → Type 0 where
  prepare : pending ⟶ preparing
  drop : pending ⟶ terminated
  validate : preparing ⟶ validated
  launch : validated ⟶ launching
  start : launching ⟶ starting
  ready : starting ⟶ running
  degrade : running ⟶ degraded
  exit_early : starting ⟶ exited
  exit : running ⟶ exited
  fail_preparing : preparing ⟶ failed
  fail_validated : validated ⟶ failed
  fail_launching : launching ⟶ failed
  fail_starting : starting ⟶ failed
  fail_degraded : degraded ⟶ failed
  stop_preparing : preparing ⟶ terminating
  stop_validated : validated ⟶ terminating
  stop_launching : launching ⟶ terminating
  stop_starting : starting ⟶ terminating
  stop_running : running ⟶ terminating
  stop_degraded : degraded ⟶ terminating
  stopped : terminating ⟶ terminated
  lose : {s : LaunchState} → s ≢ exited → s ≢ failed → s ≢ terminated → s ⟶ unknown
  found_running : unknown ⟶ running
  found_exited : unknown ⟶ exited
  found_failed : unknown ⟶ failed
  found_stopping : unknown ⟶ terminating

ruleset edges = (
  prepare, drop, validate, launch, start, ready, degrade, exit_early, exit, fail_preparing,
  fail_validated, fail_launching, fail_starting, fail_degraded, stop_preparing, stop_validated,
  stop_launching, stop_starting, stop_running, stop_degraded, stopped, lose, found_running,
  found_exited, found_failed, found_stopping,
)

allowed-⟶ : (s t : LaunchState) → is_transition_allowed s t ≡ true → s ⟶ t
unfolding is_transition_allowed
allowed-⟶ s t h = grind (arith, edges)

⟶-allowed : {s t : LaunchState} → s ⟶ t → is_transition_allowed s t ≡ true
unfolding is_transition_allowed
⟶-allowed (lose {s} e f t) = ground arith
⟶-allowed prepare = refl
⟶-allowed _ = refl

-- The test of the code accepts exactly the edges of the diagram.
pub is_transition_allowed_iff : (s t : LaunchState) → (is_transition_allowed s t ≡ true) ↔ (s ⟶ t)
is_transition_allowed_iff s t = (allowed-⟶ s t, ⟶-allowed)

infix 40 ◌⟶*◌
pub data ◌⟶*◌ : LaunchState → LaunchState → Type 0 where
  here : {s : LaunchState} → s ⟶* s
  then : {s t u : LaunchState} → s ⟶ t → t ⟶* u → s ⟶* u

pub terminal-⟶ : {s t : LaunchState} → s ⟶ t → IsTerminal s → ⊥
terminal-⟶ (lose e f t) h = ground arith
terminal-⟶ prepare h = ground arith
terminal-⟶ _ h = ground arith

-- No path of the diagram leaves a terminal state.
pub ⟶*_of_IsTerminal : {s t : LaunchState} → s ⟶* t → IsTerminal s → t ≡ s
⟶*_of_IsTerminal here h = refl
⟶*_of_IsTerminal (then e p) h = absurd (terminal-⟶ e h)

-- From each of the twelve named states a path of the diagram leads to a terminal one, without
-- passing through `unknown` unless it starts there.
pub ⟶*-IsTerminal :
    (s : LaunchState) → ((x : String) → s ≢ other x) → (t : LaunchState) × (s ⟶* t) × IsTerminal t
⟶*-IsTerminal pending h = (terminated, search (here, then, edges), inr (inr refl))
⟶*-IsTerminal preparing h = (failed, search (here, then, edges), inr (inl refl))
⟶*-IsTerminal validated h = (failed, search (here, then, edges), inr (inl refl))
⟶*-IsTerminal launching h = (failed, search (here, then, edges), inr (inl refl))
⟶*-IsTerminal starting h = (failed, search (here, then, edges), inr (inl refl))
⟶*-IsTerminal running h = (exited, search (here, then, edges), inl refl)
⟶*-IsTerminal degraded h = (failed, search (here, then, edges), inr (inl refl))
⟶*-IsTerminal exited h = (exited, here, inl refl)
⟶*-IsTerminal failed h = (failed, here, inr (inl refl))
⟶*-IsTerminal terminating h = (terminated, search (here, then, edges), inr (inr refl))
⟶*-IsTerminal terminated h = (terminated, here, inr (inr refl))
⟶*-IsTerminal unknown h = (failed, search (here, then, edges), inr (inl refl))
⟶*-IsTerminal (other x) h = absurd (h x refl)
