-- ===== src/Node.antt =====
-- schedune-control-plane/internal/domain/projector.go: the record of a node, and its projection
-- from the report that the node's agent sends.
pub mod Projection
use schedune.Base.{
  ◌≡◌, String, Bool, true, false, not, ◌||◌, Option, none, some, List, [], ◌∷◌, ◌++◌, ◌<>◌,
  if◌then◌else◌,
}
use schedune.Base.Int64.{ℤ, pos, sub64, ltb_ℤ}
use schedune.Base.Dict.{Dict, put}
use schedune.Schema.Envelope.{
  ActiveAlarm, Provenance, prov_text, prov_map, prov_other, NodeCapability, NodeConstraint,
  CollectorStatus, SchedulerEnvelope,
}

pub record NodeIdentity : Type 0 where
  pub hostname : String
  pub architecture : String
  pub total_cores : ℤ
  pub total_memory_mb : ℤ

pub record NodeHealthSummary : Type 0 where
  pub state : String
  pub active_alarms : List ActiveAlarm

pub record NodeCompatibilityRecord : Type 0 where
  pub class : String
  pub reason_codes : List String

pub record NodeCapabilityRecord : Type 0 where
  pub state : String
  pub provenance : String
  pub reason_code : String
  pub version : String
  pub is_stale : Bool

pub record NodeConstraintRecord : Type 0 where
  pub constraint_type : String
  pub description : String
  pub observed_value : String
  pub expected_value : String

-- LastCollectionTime is a `time.Time` that is only read through `Unix()`: its seconds stand for it.
pub record NodeFreshnessRecord : Type 0 where
  pub last_collection_id : String
  pub last_collection_time : ℤ
  pub is_stale : Bool
  pub stale_collectors : List String

pub record NodeRecord : Type 0 where
  pub id : String
  pub identity : NodeIdentity
  pub health : NodeHealthSummary
  pub compatibility : NodeCompatibilityRecord
  pub capabilities : Dict NodeCapabilityRecord
  pub constraints : Dict NodeConstraintRecord
  pub freshness : NodeFreshnessRecord

abbrev pub text_or_empty : Option String → String
text_or_empty none = ""
text_or_empty (some s) = s

-- `record.Freshness.IsStale = true`, with one more stale collector.
abbrev pub mark_stale : String → NodeFreshnessRecord → NodeFreshnessRecord
mark_stale collector f = record f {
  is_stale = true;
  stale_collectors = f.stale_collectors ++ collector ∷ [];
}

-- 1. The collectors that failed.
unfoldable pub project_collectors : List CollectorStatus → NodeFreshnessRecord → NodeFreshnessRecord
project_collectors [] f = f
project_collectors (s ∷ statuses) f =
    project_collectors statuses (if s.success then f else mark_stale s.collector_name f)

-- `cap.StaleAfterSec != nil && *cap.StaleAfterSec < now`
abbrev pub is_past : ℤ → Option ℤ → Bool
is_past now none = false
is_past now (some t) = ltb_ℤ t now

-- The loop over the members of a provenance object; `none` is the panic of `v.(string)`.
unfoldable pub provenance_of_map : String → Dict (Option String) → Option String
provenance_of_map prov [] = some prov
provenance_of_map prov ((k, none) ∷ m) = none
provenance_of_map prov ((k, some v) ∷ m) = provenance_of_map (k <> ": " <> v) m

unfoldable pub provenance_text : Provenance → Option String
unfolding provenance_of_map
provenance_text (prov_text s) = some s
provenance_text (prov_map m) = provenance_of_map "Observed" m
provenance_text prov_other = some "Observed"

-- 2. The capabilities, each with its own staleness.
unfoldable pub project_capabilities :
    ℤ
    → List NodeCapability
    → NodeFreshnessRecord
    → Dict NodeCapabilityRecord
    → Option (NodeFreshnessRecord × Dict NodeCapabilityRecord)
project_capabilities now [] f m = some (f, m)
project_capabilities now (cap ∷ caps) f m = elim (provenance_text cap.provenance) [
  | none ↦ none
  | some prov ↦
      let stale = is_past now cap.stale_after_sec in
      project_capabilities now caps (if stale then mark_stale (cap.feature <> "_probe") f else f) (
        put cap.feature
          (record {
            state = cap.state;
            provenance = prov;
            reason_code = text_or_empty cap.reason_code;
            version = text_or_empty cap.version;
            is_stale = stale;
          })
          m)
]

-- 3. The constraints.
unfoldable pub project_constraints :
    List NodeConstraint → Dict NodeConstraintRecord → Dict NodeConstraintRecord
project_constraints [] m = m
project_constraints (c ∷ cs) m = project_constraints cs (
    put c.code
      (record {
        constraint_type = c.constraint_type;
        description = c.description;
        observed_value = text_or_empty c.observed_value;
        expected_value = text_or_empty c.expected_value;
      })
      m)

-- The check of the envelope's own age.
unfoldable pub project_age : ℤ → ℤ → NodeFreshnessRecord → NodeFreshnessRecord
project_age now sent f =
    if ltb_ℤ (pos 300) (sub64 now sent) then mark_stale "GlobalEnvelopeStale" f else f

-- ProjectEnvelope, with the clock's reading at its head; `none` is a panic.
unfoldable pub project_envelope : ℤ → SchedulerEnvelope → Option NodeRecord
project_envelope now env =
    let fresh : NodeFreshnessRecord = record {
      last_collection_id = env.collection_id;
      last_collection_time = env.timestamp_sec;
      is_stale = false;
      stale_collectors = [];
    } in
    elim (project_capabilities now env.capabilities
      (project_collectors env.collector_statuses fresh) []) [
        | none ↦ none
        | some (f, capabilities) ↦ some (record {
          id = env.node_id;
          identity = record {
            hostname = env.facts.os.hostname;
            architecture = env.facts.cpu.architecture;
            total_cores = env.facts.cpu.cores;
            total_memory_mb = env.facts.memory.total_mb;
          };
          health = record { state = env.health.state; active_alarms = env.health.active_alarms };
          compatibility = record {
            class = env.compatibility.class;
            reason_codes = env.compatibility.reason_codes;
          };
          capabilities = capabilities;
          constraints = project_constraints env.constraints [];
          freshness = project_age now env.timestamp_sec f;
        })
      ]
