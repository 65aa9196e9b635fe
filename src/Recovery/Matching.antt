-- ===== src/Recovery/Matching.antt =====
-- Which execution a process is matched to (schedune-control-plane/internal/recovery/orphan_classify.go).
use schedune.Base.{
  ◌≡◌, ◌⊎◌, inl, inr, ◌∙◌, refl, String, Bool, true, not, ◌&&◌, List, [], ◌∷◌, ◌++◌, map, keep_if,
  arith,
}
use mathlib.Core.List.{append-nil, append_assoc}
use schedune.Schema.Execution.{LaunchExecutionRecord}
use schedune.Recovery.{
  EnumeratedProcess, is_hinted, is_weak, collect_matches, decide_match,
  match_enumerated_process_to_execution,
}

abbrev pub id_of : LaunchExecutionRecord → String
id_of ex = ex.execution_id

abbrev pub is_weak_only : EnumeratedProcess → LaunchExecutionRecord → Bool
is_weak_only p ex = not (is_hinted p ex) && is_weak p ex

collect_matches_lem :
    (p : EnumeratedProcess) (execs : List LaunchExecutionRecord) (exact weak : List String)
    → collect_matches p execs exact weak ≡ (
      exact ++ map id_of (keep_if (is_hinted p) execs),
      weak ++ map id_of (keep_if (is_weak_only p) execs),
    )
unfolding collect_matches
collect_matches_lem p [] exact weak = ground (arith, append-nil exact, append-nil weak)
collect_matches_lem p (ex ∷ execs) exact weak =
    collect_matches_lem p execs _ _
    ∙ ground (
      arith,
      append_assoc exact (ex.execution_id ∷ []) (map id_of (keep_if (is_hinted p) execs)),
      append_assoc weak (ex.execution_id ∷ []) (map id_of (keep_if (is_weak_only p) execs)),
    )

-- The one execution of the list that passes the test.
abbrev pub IsOnly :
    (LaunchExecutionRecord → Bool) → LaunchExecutionRecord → List LaunchExecutionRecord → Type 0
IsOnly test ex execs = keep_if test execs ≡ ex ∷ []

-- A match: the only execution that carries the hint; or, where none does, the only one with the
-- backend and the PID.
abbrev pub IsMatch : EnumeratedProcess → List LaunchExecutionRecord → LaunchExecutionRecord → Type 0
IsMatch p execs ex =
    IsOnly (is_hinted p) ex execs
    ⊎ (keep_if (is_hinted p) execs ≡ []) × IsOnly (is_weak_only p) ex execs

decide_lem :
    (exact weak : List LaunchExecutionRecord) (id : String)
    → (decide_match (map id_of exact, map id_of weak)).matched ≡ true
    → (decide_match (map id_of exact, map id_of weak)).execution_id ≡ id
    → (ex : LaunchExecutionRecord) × (ex.execution_id ≡ id)
      × ((exact ≡ ex ∷ []) ⊎ (exact ≡ []) × (weak ≡ ex ∷ []))
unfolding decide_match
decide_lem [] [] id h k = ground arith
decide_lem [] (ex ∷ []) id h k = (ex, k, inr (refl, refl))
decide_lem [] (a ∷ b ∷ weak) id h k = ground arith
decide_lem (ex ∷ []) weak id h k = (ex, k, inl refl)
decide_lem (a ∷ b ∷ exact) weak id h k = ground arith

-- A process that is called matched is matched to an execution of the list: the only one that carries
-- the process's hint or, where none carries it, the only one with its backend and its PID.
pub match_enumerated_process_to_execution-IsMatch :
    (p : EnumeratedProcess) (execs : List LaunchExecutionRecord)
    → (match_enumerated_process_to_execution p execs).matched ≡ true
    → (ex : LaunchExecutionRecord) × (ex.execution_id
        ≡ (match_enumerated_process_to_execution p execs).execution_id)
      × IsMatch p execs ex
unfolding match_enumerated_process_to_execution
match_enumerated_process_to_execution-IsMatch p execs h =
    let same = collect_matches_lem p execs [] [] in
    rw same (
      decide_lem (keep_if (is_hinted p) execs) (keep_if (is_weak_only p) execs) _ (rw same at h)
        refl)

decide_complete :
    (exact weak : List LaunchExecutionRecord) (ex : LaunchExecutionRecord)
    → (exact ≡ ex ∷ []) ⊎ (exact ≡ []) × (weak ≡ ex ∷ [])
    → ((decide_match (map id_of exact, map id_of weak)).matched ≡ true)
      × ((decide_match (map id_of exact, map id_of weak)).execution_id ≡ ex.execution_id)
unfolding decide_match
decide_complete exact weak ex (inl e) = rw e (refl, refl)
decide_complete exact weak ex (inr (e, w)) = rw (e, w) (refl, refl)

-- Where the list has such an execution, the process is matched to it.
pub match_enumerated_process_to_execution_of_IsMatch :
    (p : EnumeratedProcess) (execs : List LaunchExecutionRecord) (ex : LaunchExecutionRecord)
    → IsMatch p execs ex
    → ((match_enumerated_process_to_execution p execs).matched ≡ true)
      × ((match_enumerated_process_to_execution p execs).execution_id ≡ ex.execution_id)
unfolding match_enumerated_process_to_execution
match_enumerated_process_to_execution_of_IsMatch p execs ex h =
    rw (collect_matches_lem p execs [] [])
      (decide_complete (keep_if (is_hinted p) execs) (keep_if (is_weak_only p) execs) ex h)
