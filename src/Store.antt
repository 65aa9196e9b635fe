-- ===== src/Store.antt =====
-- schedune-control-plane/internal/store/memory.go and internal/domain/eligibility.go: the in-memory
-- store, and the questions that its lists of nodes ask. The mutex lets one call run at a time, so each
-- call is one step. `visit` is the order in which a loop over the map of nodes visits it.
pub mod Contents
use schedune.Base.{
  ◌≡◌, String, Bool, true, false, not, ◌&&◌, Option, none, some, List, [], ◌∷◌, map, keep_if,
  if◌then◌else◌, ◌==◌,
}
use schedune.Base.Dict.{Dict, get, put}
use schedune.Schema.Envelope.{SchedulerEnvelope}
use schedune.Schema.Execution.{LaunchExecutionRecord}
use schedune.Node.{NodeRecord, NodeCapabilityRecord}

pub record InMemoryStore : Type 0 where
  pub nodes : Dict NodeRecord
  pub raw_envelopes : Dict SchedulerEnvelope
  pub executions : Dict LaunchExecutionRecord

abbrev pub new_in_memory_store : InMemoryStore
new_in_memory_store = record { nodes = []; raw_envelopes = []; executions = [] }

unfoldable pub save_execution : LaunchExecutionRecord → InMemoryStore → InMemoryStore
save_execution rec s = record s { executions = put rec.execution_id rec s.executions }

-- GetExecution; `none` where it returns false with the error "execution not found".
unfoldable pub get_execution : String → InMemoryStore → Option LaunchExecutionRecord
get_execution id s = get id s.executions

unfoldable pub save_node_state : SchedulerEnvelope → NodeRecord → InMemoryStore → InMemoryStore
save_node_state env node s = record s {
  raw_envelopes = put env.node_id env s.raw_envelopes;
  nodes = put node.id node s.nodes;
}

-- GetNode; `none` where it returns the error "node not found".
unfoldable pub get_node : String → InMemoryStore → Option NodeRecord
get_node id s = get id s.nodes

-- `exists && cap.State == "Supported" && !cap.IsStale`
abbrev pub is_trusted : Option NodeCapabilityRecord → Bool
is_trusted none = false
is_trusted (some cap) = cap.state == "Supported" && not cap.is_stale

unfoldable pub can_run_kvm_vms : NodeRecord → Bool
can_run_kvm_vms node = is_trusted (get "kvm_virtualization" node.capabilities)

unfoldable pub can_run_firecracker_micro_vms : NodeRecord → Bool
can_run_firecracker_micro_vms node = can_run_kvm_vms node

unfoldable pub can_join_arm_production_pool : NodeRecord → Bool
can_join_arm_production_pool node =
    node.compatibility.class == "ArmProduction"
    && node.health.state == "Healthy"
    && not node.freshness.is_stale

unfoldable pub is_only_eligible_for_holding_pool : NodeRecord → Bool
is_only_eligible_for_holding_pool node =
    node.compatibility.class == "X86HoldingPool" && node.health.state == "Healthy"

unfoldable pub is_fresh_enough_to_trust : NodeRecord → Bool
is_fresh_enough_to_trust node = not node.freshness.is_stale

unfoldable pub is_healthy_but_policy_ineligible : NodeRecord → Bool
is_healthy_but_policy_ineligible node =
    node.health.state == "Healthy" && node.compatibility.class == "Unsupported"

-- The switch on the runtime class.
unfoldable pub is_eligible_for : String → NodeRecord → Bool
is_eligible_for runtime_class node =
    if runtime_class == "kvm"
    then can_run_kvm_vms node
    else if runtime_class == "firecracker"
    then can_run_firecracker_micro_vms node
    else if runtime_class == "arm-prod"
    then can_join_arm_production_pool node
    else if runtime_class == "x86-holding"
    then is_only_eligible_for_holding_pool node
    else false

abbrev pub entry : String × NodeRecord → NodeRecord
entry (id, node) = node

module _ (visit : Dict NodeRecord → Dict NodeRecord) where
  unfoldable pub list_all_nodes : InMemoryStore → List NodeRecord
  list_all_nodes s = map entry (visit s.nodes)

  unfoldable pub list_nodes_by_compatibility : String → InMemoryStore → List NodeRecord
  list_nodes_by_compatibility class s =
      keep_if (λ node. node.compatibility.class == class) (map entry (visit s.nodes))

  unfoldable pub list_nodes_eligible_for : String → InMemoryStore → List NodeRecord
  list_nodes_eligible_for runtime_class s =
      keep_if (is_eligible_for runtime_class) (map entry (visit s.nodes))

  unfoldable pub list_stale_nodes : InMemoryStore → List NodeRecord
  list_stale_nodes s = keep_if (λ node. node.freshness.is_stale) (map entry (visit s.nodes))
