-- ===== src/Lifecycle/Transition.antt =====
-- What TransitionTo does to a record (schedune-control-plane/internal/domain/lifecycle/state.go).
use schedune.Base.{
  ◌≡◌, ap, ◌⊎◌, inl, inr, refl, String, false, Bool-cases, List, [], ◌∷◌, ◌++◌, none, some, arith,
}
use schedune.Base.Int64.{ℤ}
use schedune.Schema.Execution.{LaunchState, ExecutionTraceStep, LaunchExecutionRecord}
use schedune.Lifecycle.{is_transition_allowed, append_trace, invalid_transition, transition_to}
use schedune.Lifecycle.Graph.{IsTerminal, ◌⟶◌, is_transition_allowed_iff, terminal-⟶}

-- The trace step of an accepted transition.
abbrev pub transition_step : ℤ → String → String → ExecutionTraceStep
transition_step now reason_code message = record {
  stage = "StateTransition";
  status = "Success";
  reason_code = reason_code;
  message = message;
  timestamp_sec = now;
}

pub transition_to_of_⟶ :
    (now : ℤ) (rec : LaunchExecutionRecord) (next : LaunchState) (code msg : String)
    → rec.state ⟶ next
    → transition_to now rec next code msg
      ≡ (record rec { state = next; trace = rec.trace ++ transition_step now code msg ∷ [] }, none)
unfolding transition_to append_trace
transition_to_of_⟶ now rec next code msg e =
    let allowed = (is_transition_allowed_iff rec.state next).1 e in ground arith

pub transition_to_refused :
    (now : ℤ) (rec : LaunchExecutionRecord) (next : LaunchState) (code msg : String)
    → is_transition_allowed rec.state next ≡ false
    → transition_to now rec next code msg ≡ (rec, some (invalid_transition rec.state next))
unfolding transition_to
transition_to_refused now rec next code msg h = rw h

-- Either the diagram has the edge, the call returns no error, and of the record only the state and
-- one more trace step change; or it has not, and the call returns an error and changes nothing.
pub transition_to-cases :
    (now : ℤ) (rec : LaunchExecutionRecord) (next : LaunchState) (code msg : String)
    → (rec.state ⟶ next)
        × (transition_to now rec next code msg ≡ (
          record rec { state = next; trace = rec.trace ++ transition_step now code msg ∷ [] },
          none,
        ))
      ⊎ (¬ (rec.state ⟶ next))
        × (transition_to now rec next code msg ≡ (rec, some (invalid_transition rec.state next)))
transition_to-cases now rec next code msg =
    elim (Bool-cases (is_transition_allowed rec.state next)) [
      | inl y ↦
          let e = (is_transition_allowed_iff rec.state next).0 y in
          inl (e, transition_to_of_⟶ now rec next code msg e)
      | inr n ↦ inr (
        λ e. let y = (is_transition_allowed_iff rec.state next).1 e in cc,
        transition_to_refused now rec next code msg n,
      )
    ]

-- A request for a transition, as a caller makes it.
pub record Request : Type 0 where
  pub at : ℤ
  pub next : LaunchState
  pub reason_code : String
  pub message : String

-- Callers that ignore the error that TransitionTo returns.
abbrev pub request_all : LaunchExecutionRecord → List Request → LaunchExecutionRecord
request_all rec [] = rec
request_all rec (r ∷ rs) = request_all (transition_to r.at rec r.next r.reason_code r.message).0 rs

transition_to_terminal :
    (rec : LaunchExecutionRecord) (r : Request)
    → IsTerminal rec.state
    → (transition_to r.at rec r.next r.reason_code r.message).0 ≡ rec
transition_to_terminal rec r h =
    elim (transition_to-cases r.at rec r.next r.reason_code r.message) [
      | inl (e, _) ↦ absurd (terminal-⟶ e h)
      | inr (_, same) ↦ ap (λ p. p.0) same
    ]

-- Whatever transitions are asked of a record in a terminal state, it stays as it is.
pub request_all_of_IsTerminal :
    (rec : LaunchExecutionRecord) (rs : List Request)
    → IsTerminal rec.state
    → request_all rec rs ≡ rec
request_all_of_IsTerminal rec [] h = refl
request_all_of_IsTerminal rec (r ∷ rs) h =
    rw (transition_to_terminal rec r h) (request_all_of_IsTerminal rec rs h)
