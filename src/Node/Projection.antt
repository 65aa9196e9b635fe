-- ===== src/Node/Projection.antt =====
-- When a node's record is stale (schedune-control-plane/internal/domain/projector.go).
use schedune.Base.{
  ◌≡◌, inl, inr, ap, refl, String, Bool, true, false, not, ◌||◌, some, List, [], ◌∷◌, ◌++◌, ◌<>◌,
  is_empty, arith, if◌then◌else◌, Option-cases,
}
use mathlib.Core.Path.{subst}
use mathlib.Core.Option.{some-injective, none-ne-some}
use schedune.Base.Int64.{ℤ, pos, sub64, ltb_ℤ}
use schedune.Base.Dict.{Dict}
use schedune.Schema.Envelope.{NodeCapability, CollectorStatus, SchedulerEnvelope}
use schedune.Node.{
  NodeCapabilityRecord, NodeFreshnessRecord, NodeRecord, mark_stale, project_collectors, is_past,
  provenance_text, project_capabilities, project_age, project_envelope,
}

not_empty : (xs : List String) (x : String) → is_empty (xs ++ x ∷ []) ≡ false
not_empty [] x = refl
not_empty (y ∷ xs) x = refl

-- A record is stale exactly where it names a stale collector.
abbrev IsConsistent : NodeFreshnessRecord → Type 0
IsConsistent f = f.is_stale ≡ not (is_empty f.stale_collectors)

abbrev any_failed : List CollectorStatus → Bool
any_failed [] = false
any_failed (s ∷ statuses) = not s.success || any_failed statuses

abbrev any_past : ℤ → List NodeCapability → Bool
any_past now [] = false
any_past now (cap ∷ caps) = is_past now cap.stale_after_sec || any_past now caps

-- One stage of the projection: what it finds stale, and what it keeps.
record Marks (found : Bool) (f g : NodeFreshnessRecord) : Type 0 where
  verdict : g.is_stale ≡ (f.is_stale || found)
  consistent : IsConsistent f → IsConsistent g

mark_if-Marks :
    (found : Bool) (collector : String) (f : NodeFreshnessRecord)
    → Marks found f (if found then mark_stale collector f else f)
mark_if-Marks found collector f = record {
  verdict = ground arith;
  consistent = λ h. ground (arith, not_empty f.stale_collectors collector);
}

chain : (p q : Bool) (f g h : NodeFreshnessRecord) → Marks p f g → Marks q g h → Marks (p || q) f h
chain p q f g h a b = record {
  verdict = ground (arith, a.verdict, b.verdict);
  consistent = λ k. b.consistent (a.consistent k);
}

unmark_if-Marks :
    (success : Bool) (collector : String) (f : NodeFreshnessRecord)
    → Marks (not success) f (if success then f else mark_stale collector f)
unmark_if-Marks true collector f = mark_if-Marks false collector f
unmark_if-Marks false collector f = mark_if-Marks true collector f

collectors_Marks :
    (statuses : List CollectorStatus) (f : NodeFreshnessRecord)
    → Marks (any_failed statuses) f (project_collectors statuses f)
unfolding project_collectors
collectors_Marks [] f = record { verdict = ground arith; consistent = λ h. h }
collectors_Marks (s ∷ statuses) f =
    chain _ _ f _ _ (unmark_if-Marks s.success s.collector_name f) (collectors_Marks statuses _)

abbrev Projected : Type 0
Projected = NodeFreshnessRecord × Dict NodeCapabilityRecord

capabilities_Marks :
    (now : ℤ) (caps : List NodeCapability) (f : NodeFreshnessRecord) (m : Dict NodeCapabilityRecord)
    (r : Projected)
    → project_capabilities now caps f m ≡ some r
    → Marks (any_past now caps) f r.0
unfolding project_capabilities
capabilities_Marks now [] f m r h =
    subst (λ g. Marks false f g) (ap (λ p. p.0) (some-injective _ _ h))
      (record { verdict = ground arith; consistent = λ k. k })
capabilities_Marks now (c ∷ caps) f m r h = elim (Option-cases (provenance_text c.provenance)) [
  | inl panics ↦ absurd (none-ne-some _ (rw (panics, project_capabilities) at h))
  | inr (prov, e) ↦
      chain _ _ f _ _ (mark_if-Marks (is_past now c.stale_after_sec) (c.feature <> "_probe") f)
        (capabilities_Marks now caps _ _ r (rw (e, project_capabilities) at h))
]

-- The agent's report is older than five minutes.
abbrev is_old : ℤ → SchedulerEnvelope → Bool
is_old now env = ltb_ℤ (pos 300) (sub64 now env.timestamp_sec)

-- What the projection of a report finds stale.
abbrev pub finds_stale : ℤ → SchedulerEnvelope → Bool
finds_stale now env =
    (any_failed env.collector_statuses || any_past now env.capabilities) || is_old now env

abbrev fresh_of : SchedulerEnvelope → NodeFreshnessRecord
fresh_of env = record {
  last_collection_id = env.collection_id;
  last_collection_time = env.timestamp_sec;
  is_stale = false;
  stale_collectors = [];
}

-- Where the projection returns a record, it is stale exactly where a collector failed, a capability is past its time or the
-- report is older than 300 seconds; and exactly where it names a stale collector.
pub project_envelope-is_stale :
    (now : ℤ) (env : SchedulerEnvelope) (node : NodeRecord)
    → project_envelope now env ≡ some node
    → (node.freshness.is_stale ≡ finds_stale now env)
      × (node.freshness.is_stale ≡ not (is_empty node.freshness.stale_collectors))
unfolding project_envelope project_age
project_envelope-is_stale now env node h =
    elim (Option-cases (
      project_capabilities now env.capabilities
        (project_collectors env.collector_statuses (fresh_of env)) [])) [
          | inl panics ↦ absurd (none-ne-some _ (rw (panics, project_envelope) at h))
          | inr ((f, m), e) ↦
              let marks =
                chain _ _ (fresh_of env) _ _
                  (chain _ _ (fresh_of env) _ _
                    (collectors_Marks env.collector_statuses (fresh_of env))
                    (capabilities_Marks now env.capabilities _ [] (f, m) e))
                  (mark_if-Marks (is_old now env) "GlobalEnvelopeStale" f) in
              subst
                (λ (g : NodeFreshnessRecord).
                  (g.is_stale ≡ finds_stale now env)
                  × (g.is_stale ≡ not (is_empty g.stale_collectors)))
                (ap (λ (n : NodeRecord). n.freshness)
                  (some-injective _ _ (rw (e, project_envelope) at h)))
                (marks.verdict, marks.consistent refl)
        ]
