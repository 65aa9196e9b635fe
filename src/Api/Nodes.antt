-- ===== src/Api/Nodes.antt =====
-- schedune-control-plane/internal/api: handlers.go, the intake of a node's report and the explanation of
-- a node; system_handlers.go; orphan_handlers.go.
use schedune.Base.{String, Bool, Option, none, some, List, map, ◌==◌, Result, ok, err}
use schedune.Base.Int64.{ℤ}
use schedune.Base.Dict.{Dict}
use schedune.Schema.Envelope.{SchedulerEnvelope, ActiveAlarm}
use schedune.Schema.Orphan.{OrphanRecord, OrphanFilter}
use schedune.Node.{NodeRecord, NodeCapabilityRecord, NodeConstraintRecord, project_envelope}
use schedune.Store.{
  InMemoryStore, save_node_state, get_node, list_all_nodes, can_run_kvm_vms,
  can_run_firecracker_micro_vms, can_join_arm_production_pool, is_only_eligible_for_holding_pool,
  is_healthy_but_policy_ineligible,
}
use schedune.Sqlite.{Json, SqliteStore}
use schedune.Sqlite.Orphans.{get_orphan, list_orphans}
use schedune.Api.{
  Reply, replied, refused, invalid, status_ok, status_bad_request, status_not_found,
  status_internal_server_error,
}

-- Ingest, with the clock of the projection: the collection's id, and the store as it is left;
-- SaveNodeState returns no error. `none` is a panic of the projection.
unfoldable pub ingest :
    ℤ → Result SchedulerEnvelope → InMemoryStore → Option (Reply String × InMemoryStore)
ingest now (err e) s = some (invalid status_bad_request "Schema validation failed" e, s)
ingest now (ok env) s = elim (project_envelope now env) [
  | none ↦ none
  | some node ↦ some (replied status_ok env.collection_id, save_node_state env node s)
]

-- The body of ExplainNodeDecision.
pub record NodeExplanation : Type 0 where
  pub node_id : String
  pub hostname : String
  pub architecture : String
  pub overall_health : String
  pub is_stale : Bool
  pub reasons : List String
  pub can_run_kvm : Bool
  pub can_run_firecracker : Bool
  pub in_arm_production_pool : Bool
  pub only_eligible_for_holding : Bool
  pub healthy_but_policy_ineligible : Bool
  pub capabilities : Dict NodeCapabilityRecord
  pub blocking_constraints : Dict NodeConstraintRecord
  pub stale_collectors : List String
  pub remediation_relevant_alarms : List ActiveAlarm

unfoldable pub explain : NodeRecord → NodeExplanation
explain node = record {
  node_id = node.id;
  hostname = node.identity.hostname;
  architecture = node.identity.architecture;
  overall_health = node.health.state;
  is_stale = node.freshness.is_stale;
  reasons = node.compatibility.reason_codes;
  can_run_kvm = can_run_kvm_vms node;
  can_run_firecracker = can_run_firecracker_micro_vms node;
  in_arm_production_pool = can_join_arm_production_pool node;
  only_eligible_for_holding = is_only_eligible_for_holding_pool node;
  healthy_but_policy_ineligible = is_healthy_but_policy_ineligible node;
  capabilities = node.capabilities;
  blocking_constraints = node.constraints;
  stale_collectors = node.freshness.stale_collectors;
  remediation_relevant_alarms = node.health.active_alarms;
}

unfoldable pub explain_node_decision : String → InMemoryStore → Reply NodeExplanation
unfolding explain
explain_node_decision id s = elim (get_node id s) [
  | none ↦ refused status_not_found "Node not found"
  | some node ↦ replied status_ok (explain node)
]

pub record NodeSummary : Type 0 where
  pub id : String
  pub hostname : String
  pub architecture : String
  pub health : String
  pub class : String

abbrev node_summary : NodeRecord → NodeSummary
node_summary n = record {
  id = n.id;
  hostname = n.identity.hostname;
  architecture = n.identity.architecture;
  health = n.health.state;
  class = n.compatibility.class;
}

unfoldable pub list_nodes :
    (Dict NodeRecord → Dict NodeRecord) → InMemoryStore → Reply (List NodeSummary)
list_nodes order s = replied status_ok (map node_summary (list_all_nodes order s))

-- The handler GetNode.
unfoldable pub handle_get_node : String → InMemoryStore → Reply NodeRecord
handle_get_node id s = elim (get_node id s) [
  | none ↦ refused status_not_found "Node not found"
  | some node ↦ replied status_ok node
]

-- The body of Healthz, for the value of runtime.GOOS.
pub record Health : Type 0 where
  pub status : String
  pub api_version : String
  pub storage : String
  pub process_enumeration_enabled : Bool

unfoldable pub healthz : String → Reply Health
healthz goos = replied status_ok (record {
  status = "ok";
  api_version = "v1alpha1";
  storage = "sqlite";
  process_enumeration_enabled = goos == "linux";
})

module _ {J : Type 0} (json : Json J) where
  -- The handlers ListOrphans and GetOrphan.
  unfoldable pub handle_list_orphans :
      Option String → OrphanFilter → SqliteStore → Reply (List OrphanRecord)
  handle_list_orphans fault filter s = elim (list_orphans json fault filter s) [
    | err e ↦ refused status_internal_server_error e
    | ok orphans ↦ replied status_ok orphans
  ]

  unfoldable pub handle_get_orphan : Option String → String → SqliteStore → Reply OrphanRecord
  handle_get_orphan fault id s = elim (get_orphan json fault id s) [
    | err e ↦ refused status_internal_server_error e
    | ok none ↦ refused status_not_found "Orphan not found"
    | ok (some orphan) ↦ replied status_ok orphan
  ]
