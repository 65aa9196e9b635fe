-- ===== src/Lifecycle.antt =====
-- schedune-control-plane/internal/domain/lifecycle/state.go: the state machine of an execution.
-- `now` is what the clock shows where the source calls `time.Now().Unix()`.
pub mod Graph
pub mod Transition
pub mod Reconcile
use schedune.Base.{
  ◌≡◌, String, Bool, true, false, not, ◌&&◌, ◌||◌, Option, none, some, List, [], ◌∷◌, ◌++◌, ◌<>◌,
  if◌then◌else◌,
}
use schedune.Base.Int64.{ℤ}
use schedune.Schema.Execution.{
  LaunchState, pending, preparing, validated, launching, starting, running, degraded, exited,
  failed, terminating, terminated, unknown, same_state, state_text, LaunchExecutionRecord,
}

-- The table AllowedTransitions; `none` where it has no entry.
unfoldable pub allowed_transitions : LaunchState → Option (List LaunchState)
allowed_transitions pending = some (preparing ∷ terminated ∷ [])
allowed_transitions preparing = some (validated ∷ failed ∷ terminating ∷ [])
allowed_transitions validated = some (launching ∷ failed ∷ terminating ∷ [])
allowed_transitions launching = some (starting ∷ failed ∷ terminating ∷ [])
allowed_transitions starting = some (running ∷ exited ∷ failed ∷ terminating ∷ [])
allowed_transitions running = some (degraded ∷ exited ∷ terminating ∷ [])
allowed_transitions degraded = some (failed ∷ terminating ∷ [])
allowed_transitions exited = some []
allowed_transitions failed = some []
allowed_transitions terminated = some []
allowed_transitions terminating = some (terminated ∷ [])
allowed_transitions _ = none

-- The loop over the table's entry.
unfoldable pub lists_state : LaunchState → Option (List LaunchState) → Bool
lists_state next none = false
lists_state next (some []) = false
lists_state next (some (a ∷ allowed)) = same_state a next || lists_state next (some allowed)

unfoldable pub is_transition_allowed : LaunchState → LaunchState → Bool
unfolding allowed_transitions lists_state
is_transition_allowed current next =
    if same_state next unknown
    then not (same_state current terminated)
      && not (same_state current failed)
      && not (same_state current exited)
    else if same_state current unknown
    then same_state next running
      || same_state next exited
      || same_state next failed
      || same_state next terminating
    else lists_state next (allowed_transitions current)

unfoldable pub append_trace :
    ℤ → LaunchExecutionRecord → String → String → String → String → LaunchExecutionRecord
append_trace now rec stage status code msg = record rec {
  trace =
      rec.trace
      ++ record {
        stage = stage;
        status = status;
        reason_code = code;
        message = msg;
        timestamp_sec = now;
      }
        ∷ [];
}

-- The text of the error that TransitionTo returns.
unfoldable pub invalid_transition : LaunchState → LaunchState → String
unfolding state_text
invalid_transition current next =
    "ERR_STATE_INVALID_TRANSITION: cannot transition from "
    <> state_text current
    <> " to "
    <> state_text next

-- TransitionTo: the record as the call leaves it, and the error that it returns.
unfoldable pub transition_to :
    ℤ
    → LaunchExecutionRecord
    → LaunchState
    → String
    → String
    → LaunchExecutionRecord × Option String
transition_to now rec next reason_code message =
    if is_transition_allowed rec.state next
    then (
      append_trace now (record rec { state = next }) "StateTransition" "Success" reason_code
          message,
      none,
    )
    else (rec, some (invalid_transition rec.state next))
