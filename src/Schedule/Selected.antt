-- ===== src/Schedule/Selected.antt =====
-- The node that ScheduleV0 selects (schedune-control-plane/internal/domain/scheduler.go).
use schedune.Base.{
  ◌≡◌, inl, inr, refl, ℕ, String, Bool, true, false, Option, none, some, List, [], ◌∷◌, keep_if,
  All, In, arith, if◌then◌else◌, Bool-cases,
}
use schedune.Base.Int64.{ℤ}
use schedune.Base.Dict.{Dict}
use schedune.Schema.Workload.{WorkloadIntent}
use schedune.Node.{NodeRecord, NodeConstraintRecord}
use schedune.Schedule.{ScoredCandidate, is_before, insert, sort_slice, head_id, schedule_v0}
use schedune.Schedule.Ranking.{
  IsNoBetter, All-IsNoBetter, IsSorted, insert-All, before_asym, sort_slice-IsSorted, is_chosen,
  assessed, rank_nodes_lem,
}

sort_slice-All :
    (P : ScoredCandidate → Type 0) (cs : List ScoredCandidate) → All P cs → All P (sort_slice cs)
unfolding sort_slice
sort_slice-All P [] all = tt
sort_slice-All P (c ∷ cs) (p, all) = insert-All P c (sort_slice cs) p (sort_slice-All P cs all)

All-of_test :
    (P : ScoredCandidate → Type 0) (a b : ScoredCandidate) (l bs : List ScoredCandidate) (t : Bool)
    → (All P l → P a × All P bs)
    → All P (if t then b ∷ l else a ∷ b ∷ bs)
    → P a × All P (b ∷ bs)
All-of_test P a b l bs true ih (q, all) = let (p, rest) = ih all in (p, (q, rest))
All-of_test P a b l bs false ih all = all

All-of_insert :
    (P : ScoredCandidate → Type 0) (a : ScoredCandidate) (bs : List ScoredCandidate)
    → All P (insert a bs)
    → P a × All P bs
unfolding insert
All-of_insert P a [] all = all
All-of_insert P a (b ∷ bs) all =
    All-of_test P a b (insert a bs) bs (is_before b a) (All-of_insert P a bs) all

All-of_sort :
    (P : ScoredCandidate → Type 0) (cs : List ScoredCandidate) → All P (sort_slice cs) → All P cs
unfolding sort_slice
All-of_sort P [] all = tt
All-of_sort P (c ∷ cs) all =
    let (p, rest) = All-of_insert P c (sort_slice cs) all in (p, All-of_sort P cs rest)

-- The candidate is an eligible one of the list, and no eligible one of the list is better.
pub record IsBest (c : ScoredCandidate) (cs : List ScoredCandidate) : Type 0 where
  pub chosen : is_chosen c ≡ true
  pub listed : In c cs
  pub first : All (λ d. is_chosen d ≡ true → IsNoBetter d c) cs

-- What the selected node is to a list of candidates.
abbrev pub IsSelected : Option String → List ScoredCandidate → Type 0
IsSelected none cs = All (λ c. is_chosen c ≡ false) cs
IsSelected (some id) cs = (c : ScoredCandidate) × (c.node_id ≡ id) × IsBest c cs

module _ (P : ScoredCandidate → Type 0) where
  keep_step :
      (c : ScoredCandidate) (t : Bool) (kept : List ScoredCandidate)
      → (t ≡ true → P c)
      → All P kept
      → All P (if t then c ∷ kept else kept)
  keep_step c true kept p all = (p refl, all)
  keep_step c false kept p all = all

  All-kept :
      (cs : List ScoredCandidate)
      → All (λ c. is_chosen c ≡ true → P c) cs
      → All P (keep_if is_chosen cs)
  All-kept [] all = tt
  All-kept (c ∷ cs) (p, all) = keep_step c (is_chosen c) _ p (All-kept cs all)

  undo_step :
      (c : ScoredCandidate) (t : Bool) (kept cs : List ScoredCandidate)
      → (All P kept → All (λ d. is_chosen d ≡ true → P d) cs)
      → is_chosen c ≡ t
      → All P (if t then c ∷ kept else kept)
      → All (λ d. is_chosen d ≡ true → P d) (c ∷ cs)
  undo_step c true kept cs ih e (p, all) = (λ _. p, ih all)
  undo_step c false kept cs ih e all =
      (λ h. let impossible : ⊥ = ground (arith, e, h) in absurd impossible, ih all)

  All-of_kept :
      (cs : List ScoredCandidate)
      → All P (keep_if is_chosen cs)
      → All (λ c. is_chosen c ≡ true → P c) cs
  All-of_kept [] all = tt
  All-of_kept (c ∷ cs) all =
      undo_step c (is_chosen c) (keep_if is_chosen cs) cs (All-of_kept cs) refl all

All-listed :
    (P : ScoredCandidate → Type 0) (cs : List ScoredCandidate)
    → ((c : ScoredCandidate) → In c cs → P c)
    → All P cs
All-listed P [] f = tt
All-listed P (c ∷ cs) f = (f c (inl refl), All-listed P cs (λ d h. f d (inr h)))

before_self : (c : ScoredCandidate) → is_before c c ≡ false
before_self c = elim (Bool-cases (is_before c c)) [
  | inl is_so ↦ before_asym c c is_so
  | inr isnt ↦ isnt
]

IsSelected-of_sorted :
    (cs l : List ScoredCandidate)
    → IsSorted l
    → All (λ c. (is_chosen c ≡ true) × In c cs) l
    → ((P : ScoredCandidate → Type 0) → All P l → All (λ c. is_chosen c ≡ true → P c) cs)
    → IsSelected (head_id l) cs
IsSelected-of_sorted cs [] sorted all back = all_listed_false cs (back (λ _. ⊥) tt)
  where
    all_listed_false :
        (ds : List ScoredCandidate)
        → All (λ c. is_chosen c ≡ true → ⊥) ds
        → All (λ c. is_chosen c ≡ false) ds
    all_listed_false [] h = tt
    all_listed_false (d ∷ ds) (isnt, h) = (ground (arith, isnt), all_listed_false ds h)
IsSelected-of_sorted cs (c ∷ ds) (after, _) ((is_so, here), _) back = (
  c,
  refl,
  record {
    chosen = is_so;
    listed = here;
    first = back (λ d. IsNoBetter d c) (All-IsNoBetter c (c ∷ ds) (before_self c, after));
  },
)

module _ (visit : Dict NodeConstraintRecord → Dict NodeConstraintRecord) (clock : ℕ → ℤ) where
  -- The node that is selected is an eligible candidate than which no eligible candidate is better, by
  -- score and then by id; where no node is selected, no candidate is eligible.
  pub schedule_v0-IsSelected :
      (now : ℤ) (intent : WorkloadIntent) (nodes : List NodeRecord)
      → IsSelected
          (schedule_v0 visit clock now intent nodes).selected_node
          (assessed visit clock now intent 0 nodes)
  unfolding schedule_v0
  schedule_v0-IsSelected now intent nodes =
      let cs = assessed visit clock now intent 0 nodes in
      rw (rank_nodes_lem visit clock now intent 0 nodes [] []) (
        IsSelected-of_sorted cs (sort_slice (keep_if is_chosen cs)) (sort_slice-IsSorted _)
          (sort_slice-All _ _ (
            All-kept (λ c. (is_chosen c ≡ true) × In c cs) cs
              (All-listed _ cs (λ c h is_so. (is_so, h)))))
          (λ P all. All-of_kept P cs (All-of_sort P _ all)))
