-- ===== src/Schedule/Ranking.antt =====
-- The ranking (schedune-control-plane/internal/domain/scheduler.go): the sort orders the eligible
-- candidates and loses none.
use schedune.Base.{
  ◌<◌, ◌⊎◌, ◌≡◌, ◌∙◌, refl, ℕ, suc, Bool, true, false, not, List, [], ◌∷◌, ◌++◌, keep_if, All,
  arith, if◌then◌else◌, if_ind, map,
}
use mathlib.Core.List.{Perm, append-nil, append_assoc}
use mathlib.Core.List.Perm
use schedune.Base.Order.{text_ltb, text_leb_trans, text_ltb_asym}
use schedune.Base.Int64.{ℤ}
use schedune.Base.Dict.{Dict}
use schedune.Schema.Workload.{WorkloadIntent}
use schedune.Node.{NodeRecord, NodeConstraintRecord}
use schedune.Evaluate.{EligibilityResult, evaluate}
use schedune.Schedule.{
  ScoredCandidate, scored, is_before, insert, sort_slice, rank_nodes, schedule_v0,
}

-- The rank of `d` is not above that of `c`: its score is lower, or the scores are the same and its
-- id does not come before.
abbrev pub IsNoBetter : ScoredCandidate → ScoredCandidate → Type 0
IsNoBetter d c = (d.score < c.score) ⊎ (d.score ≡ c.score) × (text_ltb d.node_id c.node_id ≡ false)

pub IsNoBetter-of_before : (c d : ScoredCandidate) → is_before d c ≡ false → IsNoBetter d c
unfolding is_before
IsNoBetter-of_before c d h = ground arith

-- No later entry of the list is better than an earlier one.
abbrev pub IsRanked : List ScoredCandidate → Type 0
IsRanked [] = Unit
IsRanked (c ∷ ds) = All (λ d. IsNoBetter d c) ds × IsRanked ds

-- Nothing of the list comes before its head, and so on along the list.
abbrev pub IsSorted : List ScoredCandidate → Type 0
IsSorted [] = Unit
IsSorted (a ∷ bs) = All (λ b. is_before b a ≡ false) bs × IsSorted bs

before_trans :
    (a b c : ScoredCandidate)
    → is_before b a ≡ false
    → is_before c b ≡ false
    → is_before c a ≡ false
unfolding is_before
before_trans a b c h k = ground (arith, text_leb_trans a.node_id b.node_id c.node_id)

pub before_asym : (a b : ScoredCandidate) → is_before a b ≡ true → is_before b a ≡ false
unfolding is_before
before_asym a b h = ground (arith, text_ltb_asym a.node_id b.node_id)

All-after :
    (a b : ScoredCandidate) (cs : List ScoredCandidate)
    → is_before b a ≡ false
    → All (λ c. is_before c b ≡ false) cs
    → All (λ c. is_before c a ≡ false) cs
All-after a b [] h all = tt
All-after a b (c ∷ cs) h (hc, all) = (before_trans a b c h hc, All-after a b cs h all)

pub All-IsNoBetter :
    (c : ScoredCandidate) (ds : List ScoredCandidate)
    → All (λ d. is_before d c ≡ false) ds
    → All (λ d. IsNoBetter d c) ds
All-IsNoBetter c [] all = tt
All-IsNoBetter c (d ∷ ds) (h, all) = (IsNoBetter-of_before c d h, All-IsNoBetter c ds all)

IsRanked-of_IsSorted : (cs : List ScoredCandidate) → IsSorted cs → IsRanked cs
IsRanked-of_IsSorted [] h = tt
IsRanked-of_IsSorted (c ∷ ds) (all, h) = (All-IsNoBetter c ds all, IsRanked-of_IsSorted ds h)

pub insert-All :
    (P : ScoredCandidate → Type 0) (a : ScoredCandidate) (bs : List ScoredCandidate)
    → P a
    → All P bs
    → All P (insert a bs)
unfolding insert
insert-All P a [] p all = (p, tt)
insert-All P a (b ∷ bs) p (q, all) =
    let ih = insert-All P a bs p all in if_ind (All P) (is_before b a) (q, ih) (p, (q, all))

insert_cons :
    (a b : ScoredCandidate) (bs : List ScoredCandidate)
    → All (λ c. is_before c b ≡ false) bs
    → IsSorted bs
    → IsSorted (insert a bs)
    → (t : Bool) → is_before b a ≡ t
    → IsSorted (if t then b ∷ insert a bs else a ∷ b ∷ bs)
insert_cons a b bs all h ih true e =
    (insert-All (λ c. is_before c b ≡ false) a bs (before_asym b a e) all, ih)
insert_cons a b bs all h ih false e = ((e, All-after a b bs e all), (all, h))

insert-IsSorted :
    (a : ScoredCandidate) (bs : List ScoredCandidate) → IsSorted bs → IsSorted (insert a bs)
unfolding insert
insert-IsSorted a [] h = (tt, tt)
insert-IsSorted a (b ∷ bs) (all, h) =
    insert_cons a b bs all h (insert-IsSorted a bs h) (is_before b a) refl

pub sort_slice-IsSorted : (cs : List ScoredCandidate) → IsSorted (sort_slice cs)
unfolding sort_slice
sort_slice-IsSorted [] = tt
sort_slice-IsSorted (a ∷ cs) = insert-IsSorted a (sort_slice cs) (sort_slice-IsSorted cs)

insert-Perm : (a : ScoredCandidate) (bs : List ScoredCandidate) → Perm (insert a bs) (a ∷ bs)
unfolding insert
insert-Perm a [] = Perm.refl _
insert-Perm a (b ∷ bs) =
    let ih = insert-Perm a bs in
    if_ind (λ l. Perm l (a ∷ b ∷ bs)) (is_before b a)
      (Perm.trans (Perm.cons b ih) (Perm.swap a b bs)) (Perm.refl _)

pub sort_slice-Perm : (cs : List ScoredCandidate) → Perm (sort_slice cs) cs
unfolding sort_slice
sort_slice-Perm [] = Perm.refl _
sort_slice-Perm (a ∷ cs) =
    Perm.trans (insert-Perm a (sort_slice cs)) (Perm.cons a (sort_slice-Perm cs))

abbrev pub is_chosen : ScoredCandidate → Bool
is_chosen c = c.eligibility.is_eligible

abbrev pub is_rejected : ScoredCandidate → Bool
is_rejected c = not c.eligibility.is_eligible

abbrev pub eligibility_of : ScoredCandidate → EligibilityResult
eligibility_of c = c.eligibility

module _ (visit : Dict NodeConstraintRecord → Dict NodeConstraintRecord) (clock : ℕ → ℤ) where
  -- Every candidate with its evaluation, from number `i` on.
  unfoldable pub assessed : ℤ → WorkloadIntent → ℕ → List NodeRecord → List ScoredCandidate
  assessed now intent i [] = []
  assessed now intent i (node ∷ nodes) =
      scored now node (evaluate visit (clock i) intent node) ∷ assessed now intent (suc i) nodes

  pub rank_nodes_lem :
      (now : ℤ) (intent : WorkloadIntent) (i : ℕ) (nodes : List NodeRecord)
      (ranked : List ScoredCandidate) (rejected : List EligibilityResult)
      → rank_nodes visit clock now intent i nodes ranked rejected ≡ (
        ranked ++ keep_if is_chosen (assessed now intent i nodes),
        rejected ++ map eligibility_of (keep_if is_rejected (assessed now intent i nodes)),
      )
  unfolding rank_nodes assessed
  rank_nodes_lem now intent i [] ranked rejected =
      ground (arith, append-nil ranked, append-nil rejected)
  rank_nodes_lem now intent i (node ∷ nodes) ranked rejected =
      let r = evaluate visit (clock i) intent node in
      let rest = assessed now intent (suc i) nodes in
      rank_nodes_lem now intent (suc i) nodes
        (if r.is_eligible then ranked ++ scored now node r ∷ [] else ranked)
        (if r.is_eligible then rejected else rejected ++ r ∷ [])
      ∙ ground (
        arith,
        append_assoc ranked (scored now node r ∷ []) (keep_if is_chosen rest),
        append_assoc rejected (r ∷ []) (map eligibility_of (keep_if is_rejected rest)),
      )

  -- The ranked nodes are the eligible candidates, each once, and the rejected ones are the others in
  -- the order in which they came.
  pub schedule_v0-Perm :
      (now : ℤ) (intent : WorkloadIntent) (nodes : List NodeRecord)
      → Perm
          (schedule_v0 visit clock now intent nodes).ranked_nodes
          (keep_if is_chosen (assessed now intent 0 nodes))
        × ((schedule_v0 visit clock now intent nodes).rejected_nodes
            ≡ map eligibility_of (keep_if is_rejected (assessed now intent 0 nodes)))
  unfolding schedule_v0
  schedule_v0-Perm now intent nodes =
      let same = rank_nodes_lem now intent 0 nodes [] [] in (rw same (sort_slice-Perm _), rw same)

  -- The ranked nodes stand by score, the highest first, and nodes of one score by their id.
  pub schedule_v0-IsRanked :
      (now : ℤ) (intent : WorkloadIntent) (nodes : List NodeRecord)
      → IsRanked (schedule_v0 visit clock now intent nodes).ranked_nodes
  unfolding schedule_v0
  schedule_v0-IsRanked now intent nodes = IsRanked-of_IsSorted _ (sort_slice-IsSorted _)
