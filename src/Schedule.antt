-- ===== src/Schedule.antt =====
-- schedune-control-plane/internal/domain/scheduler.go: the ranking of the nodes for a workload.
-- `visit` is the order of a loop over a map of constraints (see Evaluate); `clock i` is the reading
-- of the clock by the evaluation of candidate i.
pub mod Ranking
pub mod Selected
use schedune.Base.{
  ◌≡◌, String, Bool, true, false, Option, none, some, List, [], ◌∷◌, ◌++◌, if◌then◌else◌, is_empty,
  length, ltb, eqb, ℕ, suc, ◌+◌, ◌*◌,
}
use schedune.Base.Order.{text_ltb}
use schedune.Base.Int64.{ℤ, pos, sub64, ltb_ℤ}
use schedune.Base.Dict.{Dict}
use schedune.Schema.Workload.{WorkloadIntent}
use schedune.Node.{NodeRecord, NodeConstraintRecord}
use schedune.Evaluate.{EligibilityResult, evaluate}

-- Scores are sums of 30, 20 and ten for each matched feature: natural numbers, far below 2 ^ 63.
pub record ScoredCandidate : Type 0 where
  pub node_id : String
  pub score : ℕ
  pub eligibility : EligibilityResult

pub record ScheduleDecision : Type 0 where
  pub workload_id : String
  pub selected_node : Option String
  pub ranked_nodes : List ScoredCandidate
  pub rejected_nodes : List EligibilityResult

unfoldable pub score_of : ℤ → NodeRecord → EligibilityResult → ℕ
score_of now node result =
    (if ltb_ℤ (sub64 now node.freshness.last_collection_time) (pos 30) then 30 else 0)
    + (if is_empty node.health.active_alarms then 20 else 0)
    + length result.matched_features * 10

abbrev pub scored : ℤ → NodeRecord → EligibilityResult → ScoredCandidate
scored now node result = record {
  node_id = node.id;
  score = score_of now node result;
  eligibility = result;
}

-- The comparison that sort.Slice is given.
unfoldable pub is_before : ScoredCandidate → ScoredCandidate → Bool
is_before a b = if eqb a.score b.score then text_ltb a.node_id b.node_id else ltb b.score a.score

-- sort.Slice: the standard library's sort, here by insertion. Candidates that the comparison does
-- not tell apart have the same score and the same NodeID.
unfoldable pub insert : ScoredCandidate → List ScoredCandidate → List ScoredCandidate
insert a [] = a ∷ []
insert a (b ∷ bs) = let rest = insert a bs in if is_before b a then b ∷ rest else a ∷ b ∷ bs

unfoldable pub sort_slice : List ScoredCandidate → List ScoredCandidate
sort_slice [] = []
sort_slice (a ∷ rest) = insert a (sort_slice rest)

abbrev pub head_id : List ScoredCandidate → Option String
head_id [] = none
head_id (a ∷ rest) = some a.node_id

module _ (visit : Dict NodeConstraintRecord → Dict NodeConstraintRecord) (clock : ℕ → ℤ) where
  -- The loop over the candidates from number `i` on, with the lists of the decision so far.
  unfoldable pub rank_nodes :
      ℤ
      → WorkloadIntent
      → ℕ
      → List NodeRecord
      → List ScoredCandidate
      → List EligibilityResult
      → List ScoredCandidate × List EligibilityResult
  rank_nodes now intent i [] ranked rejected = (ranked, rejected)
  rank_nodes now intent i (node ∷ nodes) ranked rejected =
      let result = evaluate visit (clock i) intent node in
      rank_nodes now intent (suc i) nodes
        (if result.is_eligible then ranked ++ scored now node result ∷ [] else ranked)
        (if result.is_eligible then rejected else rejected ++ result ∷ [])

  -- ScheduleV0, with its own reading of the clock.
  unfoldable pub schedule_v0 : ℤ → WorkloadIntent → List NodeRecord → ScheduleDecision
  schedule_v0 now intent nodes =
      let (ranked, rejected) = rank_nodes now intent 0 nodes [] [] in
      record {
        workload_id = intent.workload_id;
        selected_node = head_id (sort_slice ranked);
        ranked_nodes = sort_slice ranked;
        rejected_nodes = rejected;
      }
