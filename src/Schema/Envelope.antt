-- ===== src/Schema/Envelope.antt =====
-- schedune-control-plane/pkg/schema/v1alpha1.go: the report of a node's agent.
use schedune.Base.{String, Bool, List, Option}
use schedune.Base.Int64.{ℤ}
use schedune.Base.Dict.{Dict}

pub record CompatibilityClassification : Type 0 where
  pub class : String
  pub reason_codes : List String

pub record CpuFacts : Type 0 where
  pub architecture : String
  pub cores : ℤ
  pub vendor_id : String

pub record MemoryFacts : Type 0 where
  pub total_mb : ℤ

pub record OsFacts : Type 0 where
  pub hostname : String
  pub name : String
  pub kernel_version : String

pub record NodeFacts : Type 0 where
  pub cpu : CpuFacts
  pub memory : MemoryFacts
  pub os : OsFacts

-- What the JSON decoder puts behind `Provenance interface{}`: a text, an object with its members in
-- the order in which a `range` visits them (`none` is a member that is no text), or any other value.
pub data Provenance : Type 0 where
  prov_text : String → Provenance
  prov_map : Dict (Option String) → Provenance
  prov_other : Provenance

pub record NodeCapability : Type 0 where
  pub feature : String
  pub state : String
  pub provenance : Provenance
  pub reason_code : Option String
  pub version : Option String
  pub observed_at_sec : ℤ
  pub stale_after_sec : Option ℤ

pub record NodeConstraint : Type 0 where
  pub constraint_type : String
  pub code : String
  pub description : String
  pub observed_value : Option String
  pub expected_value : Option String

pub record ActiveAlarm : Type 0 where
  pub source : String
  pub severity : String
  pub code : String
  pub description : String
  pub remediation_hint : Option String
  pub timestamp_sec : ℤ

pub record NodeHealth : Type 0 where
  pub state : String
  pub active_alarms : List ActiveAlarm

pub record CollectorStatus : Type 0 where
  pub collector_name : String
  pub success : Bool
  pub duration_ms : ℤ
  pub error_message : Option String

pub record SchedulerEnvelope : Type 0 where
  pub schema_version : String
  pub agent_version : String
  pub collection_id : String
  pub timestamp_sec : ℤ
  pub node_id : String
  pub compatibility : CompatibilityClassification
  pub facts : NodeFacts
  pub capabilities : List NodeCapability
  pub constraints : List NodeConstraint
  pub health : NodeHealth
  pub collector_statuses : List CollectorStatus
