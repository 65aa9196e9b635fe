-- ===== src/Api/Planning.antt =====
-- schedune-control-plane/internal/api: plan_handlers.go, from a request to a validated plan, and
-- schedule_handlers.go. `visit` and `clock` are as in Schedule, `order` is the order of a loop over the
-- store's map of nodes (see Store), `trace_order` and `hints_order` are as in Validate.
use schedune.Base.{
  ℕ, String, Bool, true, false, not, Option, none, some, [], ◌∷◌, ◌++◌, if◌then◌else◌, ◌==◌, Result,
  ok, err,
}
use schedune.Base.Int64.{ℤ}
use schedune.Base.Dict.{Dict}
use schedune.Schema.Reasons.{err_preparation_requires_node_agent}
use schedune.Schema.Spec.{LaunchSpec}
use schedune.Schema.Workload.{WorkloadIntent}
use schedune.Schema.Plan.{
  LaunchPlanRequest, LaunchPlanStatus, ready, plan_rejected, validation_fail, conflict, retry_later,
  fix_validation, prepare_on_node, pending_node_agent, LaunchPreparationResult, LaunchPlanResult,
}
use schedune.Node.{NodeRecord, NodeConstraintRecord}
use schedune.Schedule.{ScheduleDecision, schedule_v0}
use schedune.Plan.{build_launch_plan}
use schedune.Validate.{validate_launch}
use schedune.Store.{InMemoryStore, get_node, list_all_nodes}
use schedune.Api.{Reply, replied, invalid, status_ok, status_bad_request, status_conflict}

abbrev pub is_ready : LaunchPlanStatus → Bool
is_ready ready = true
is_ready plan_rejected = false
is_ready validation_fail = false
is_ready conflict = false

-- The preparation that waits for the node's agent.
abbrev pub pending_preparation : String → String → LaunchPreparationResult
pending_preparation node_id backend = record {
  schema_version = "v1alpha1";
  status = pending_node_agent;
  node_id = node_id;
  backend = backend;
  is_preparable = false;
  blocking_reason_codes = err_preparation_requires_node_agent ∷ [];
  warnings = "Node-scoped preparation requires an active node agent path" ∷ [];
  prepared_launch = none;
}

abbrev pub with_preparation : String → String → LaunchPlanResult → LaunchPlanResult
with_preparation node_id backend r = record r {
  preparation_result = some (pending_preparation node_id backend);
  dry_run_prepared = false;
  next_actions = prepare_on_node ∷ [];
}

module _ (trace_order hints_order : Dict String → Dict String) where
  -- PlanLaunch after GetNode, for a plan with a spec.
  unfoldable pub validate_plan :
      String → String → LaunchSpec → Option NodeRecord → LaunchPlanResult → LaunchPlanResult
  validate_plan mode selected spec none r = record r {
    status = plan_rejected;
    warnings = r.warnings ++ "Selected node disappeared from store before validation" ∷ [];
    next_actions = retry_later ∷ [];
  }
  validate_plan mode selected spec (some node) r =
      let result = validate_launch trace_order hints_order spec node in
      let validated = record r { validation_result = some result } in
      if not result.is_valid
      then record validated { status = validation_fail; next_actions = fix_validation ∷ [] }
      else if mode == "dry_run"
      then with_preparation selected result.selected_backend validated
      else validated

  -- `*planResult.SelectedNode`; `none` is the panic where it is nil.
  unfoldable pub validate_selected :
      String
      → LaunchSpec
      → Option String
      → (String → Option NodeRecord)
      → LaunchPlanResult
      → Option LaunchPlanResult
  unfolding validate_plan
  validate_selected mode spec none find r = none
  validate_selected mode spec (some selected) find r =
      some (validate_plan mode selected spec (find selected) r)

  -- PlanLaunch after BuildLaunchPlan; `find` is GetNode.
  unfoldable pub finish_plan :
      String
      → (String → Option NodeRecord)
      → Option LaunchSpec
      → LaunchPlanResult
      → Option LaunchPlanResult
  unfolding validate_selected
  finish_plan mode find none r = some r
  finish_plan mode find (some spec) r =
      if is_ready r.status then validate_selected mode spec r.selected_node find r else some r

  module _ (visit : Dict NodeConstraintRecord → Dict NodeConstraintRecord) (clock : ℕ → ℤ)
      (order : Dict NodeRecord → Dict NodeRecord) where
    -- PlanLaunch; the store is read twice, and `then_nodes` is what it holds the second time.
    unfoldable pub plan_launch :
        ℤ
        → Result LaunchPlanRequest
        → InMemoryStore
        → InMemoryStore
        → Option (Reply LaunchPlanResult)
    unfolding finish_plan
    plan_launch now (err e) nodes then_nodes =
        some (invalid status_bad_request "Invalid LaunchPlanRequest" e)
    plan_launch now (ok req) nodes then_nodes =
        let planned =
          build_launch_plan visit clock now req.workload_intent req.launch_template req.mode
            req.target_node_id (list_all_nodes order nodes) in
        elim (finish_plan req.mode (λ id. get_node id then_nodes) planned.planned_launch_spec
          planned) [ none ↦ none | some r ↦ some (replied status_ok r) ]

-- The bodies of SelectNode: the node and the workload, or the error with the decision.
pub data Selection : Type 0 where
  scheduled : String → String → Selection
  no_eligible_node : ScheduleDecision → Selection

abbrev selection_of : String → ScheduleDecision → Option String → Reply Selection
selection_of workload_id decision none = replied status_conflict (no_eligible_node decision)
selection_of workload_id decision (some id) = replied status_ok (scheduled id workload_id)

module _ (visit : Dict NodeConstraintRecord → Dict NodeConstraintRecord) (clock : ℕ → ℤ)
    (order : Dict NodeRecord → Dict NodeRecord) where
  unfoldable pub explain_schedule :
      ℤ → Result WorkloadIntent → InMemoryStore → Reply ScheduleDecision
  explain_schedule now (err e) nodes = invalid status_bad_request "Invalid WorkloadIntent" e
  explain_schedule now (ok intent) nodes =
      replied status_ok (schedule_v0 visit clock now intent (list_all_nodes order nodes))

  unfoldable pub select_node : ℤ → Result WorkloadIntent → InMemoryStore → Reply Selection
  select_node now (err e) nodes = invalid status_bad_request "Invalid WorkloadIntent" e
  select_node now (ok intent) nodes =
      let decision = schedule_v0 visit clock now intent (list_all_nodes order nodes) in
      selection_of intent.workload_id decision decision.selected_node
