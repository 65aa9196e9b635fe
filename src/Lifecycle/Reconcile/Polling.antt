-- ===== src/Lifecycle/Reconcile/Polling.antt =====
-- An execution under any sequence of polling rounds
-- (schedune-control-plane/internal/domain/lifecycle/reconcile.go).
use schedune.Base.{◌≡◌, sym, ◌∙◌, ap, inl, inr, refl, List, [], ◌∷◌, ◌++◌, none, arith}
use schedune.Base.Int64.{ℤ}
use schedune.Schema.Execution.{ExecutionTraceStep, LaunchExecutionRecord, Inspector}
use schedune.Lifecycle.Graph.{◌⟶*◌, here, then, IsTerminal}
use schedune.Lifecycle.Reconcile.{reconcile}
use schedune.Lifecycle.Reconcile.Frame.{SameIdentity, reconcile-Outcome}
use mathlib.Core.List.{append_assoc, append-nil}

-- One round: the two readings of the clock, and what the inspector would answer.
pub record Round : Type 0 where
  pub now : ℤ
  pub later : ℤ
  pub inspector : Inspector

abbrev pub poll_all : LaunchExecutionRecord → List Round → LaunchExecutionRecord
poll_all rec [] = rec
poll_all rec (r ∷ rs) = poll_all (reconcile r.now r.later r.inspector rec).0 rs

same_trans :
    (a b c : LaunchExecutionRecord) → SameIdentity a b → SameIdentity b c → SameIdentity a c
same_trans a b c p q = ground arith

-- What an execution `b` is to an execution `a` that it may have been before.
pub record IsHistory (a b : LaunchExecutionRecord) : Type 0 where
  pub identity : SameIdentity a b
  pub path : a.state ⟶* b.state
  pub steps : List ExecutionTraceStep
  pub appended : b.trace ≡ a.trace ++ steps

IsHistory-refl : (a : LaunchExecutionRecord) → IsHistory a a
IsHistory-refl a = record {
  identity = ground arith;
  path = here;
  steps = [];
  appended = sym (append-nil a.trace);
}

round-IsHistory :
    (r : Round) (a b : LaunchExecutionRecord)
    → IsHistory (reconcile r.now r.later r.inspector a).0 b
    → IsHistory a b
round-IsHistory r a b h =
    let o = reconcile-Outcome r.now r.later r.inspector a in
    elim o.change [
      | inl (same, trace) ↦ record {
        identity = same_trans a (reconcile r.now r.later r.inspector a).0 b o.identity h.identity;
        path = rw same h.path;
        steps = h.steps;
        appended = h.appended ∙ ap (λ t. t ++ h.steps) (sym trace);
      }
      | inr (edge, _, (step, trace)) ↦ record {
        identity = same_trans a (reconcile r.now r.later r.inspector a).0 b o.identity h.identity;
        path = then edge h.path;
        steps = step ∷ h.steps;
        appended =
            h.appended ∙ ap (λ t. t ++ h.steps) trace ∙ append_assoc a.trace (step ∷ []) h.steps;
      }
    ]

-- However an execution is polled, it keeps its identity and its launch data, its state moves along
-- edges of the transition diagram, and its trace is only appended to.
pub poll_all-IsHistory :
    (rs : List Round) (rec : LaunchExecutionRecord) → IsHistory rec (poll_all rec rs)
poll_all-IsHistory [] rec = IsHistory-refl rec
poll_all-IsHistory (r ∷ rs) rec =
    round-IsHistory r rec _ (poll_all-IsHistory rs (reconcile r.now r.later r.inspector rec).0)

reconcile_terminal :
    (r : Round) (rec : LaunchExecutionRecord)
    → IsTerminal rec.state
    → reconcile r.now r.later r.inspector rec ≡ (rec, none)
unfolding reconcile
reconcile_terminal r rec h = ground arith

-- An execution that has ended is not changed by polling.
pub poll_all_of_IsTerminal :
    (rs : List Round) (rec : LaunchExecutionRecord) → IsTerminal rec.state → poll_all rec rs ≡ rec
poll_all_of_IsTerminal [] rec h = refl
poll_all_of_IsTerminal (r ∷ rs) rec h =
    rw (reconcile_terminal r rec h) (poll_all_of_IsTerminal rs rec h)
