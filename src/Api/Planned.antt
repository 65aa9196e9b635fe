-- ===== src/Api/Planned.antt =====
-- What PlanLaunch answers (schedune-control-plane/internal/api/plan_handlers.go).
use schedune.Base.{
  ◌≡◌, ◌≢◌, refl, ap, ◌∙◌, ℕ, String, true, Option, none, some, if◌then◌else◌, ◌==◌, arith,
  Bool-cases, inl, inr, ok,
}
use schedune.Base.Int64.{ℤ}
use schedune.Base.Dict.{Dict}
use schedune.Schema.Spec.{LaunchSpec}
use schedune.Schema.Plan.{LaunchPlanRequest, ready, LaunchPlanResult}
use schedune.Node.{NodeRecord, NodeConstraintRecord}
use schedune.Validate.{validate_launch}
use schedune.Plan.{hydrate, build_launch_plan}
use schedune.Plan.Ready.{
  Agrees, Accepts, IsReadyOn, Outcome, is_ready, is_rejected, is_conflict,
  build_launch_plan-Outcome,
}
use schedune.Store.{InMemoryStore, get_node, list_all_nodes}
use schedune.Api.{replied, status_ok}
use schedune.Api.Planning as Planning
use schedune.Api.Planning.{validate_plan, validate_selected, finish_plan, plan_launch}

module _ (trace_order hints_order : Dict String → Dict String) where
  -- What the answer says: a plan that is ready names a node of the store, and its spec is for that node
  -- and was called valid on it.
  pub data Planned (req : LaunchPlanRequest) (find : String → Option NodeRecord)
      (r : LaunchPlanResult) : Type 0 where
    is_unready : r.status ≢ ready → Planned req find r
    is_checked :
        (selected : String) (node : NodeRecord) (spec : LaunchSpec)
        → Agrees req.workload_intent req.launch_template
        → Accepts req.target_node_id selected
        → r.selected_node ≡ some selected
        → find selected ≡ some node
        → spec ≡ hydrate req.workload_intent req.launch_template req.mode selected
        → r.planned_launch_spec ≡ some spec
        → r.validation_result ≡ some (validate_launch trace_order hints_order spec node)
        → (validate_launch trace_order hints_order spec node).is_valid ≡ true
        → Planned req find r

  module _ (req : LaunchPlanRequest) (find : String → Option NodeRecord) where
    finish_plan_lem :
        (spec : LaunchSpec) (selected : String) (r : LaunchPlanResult)
        → r.planned_launch_spec ≡ some spec
        → r.status ≡ ready
        → r.selected_node ≡ some selected
        → finish_plan trace_order hints_order req.mode find r.planned_launch_spec r
          ≡ some (validate_plan trace_order hints_order req.mode selected spec (find selected) r)
    unfolding finish_plan validate_selected
    finish_plan_lem spec selected r planned status on =
        ap (λ o. finish_plan trace_order hints_order req.mode find o r) planned
        ∙ ap
            (λ st.
              if Planning.is_ready st
              then validate_selected trace_order hints_order req.mode spec r.selected_node find r
              else some r)
            status
        ∙ ap (λ o. validate_selected trace_order hints_order req.mode spec o find r) on

    finish_plan_nothing :
        (r : LaunchPlanResult)
        → r.planned_launch_spec ≡ none
        → finish_plan trace_order hints_order req.mode find r.planned_launch_spec r ≡ some r
    unfolding finish_plan
    finish_plan_nothing r nothing =
        ap (λ o. finish_plan trace_order hints_order req.mode find o r) nothing

    validate_plan-Planned :
        (selected : String) (found : Option NodeRecord) (r : LaunchPlanResult)
        → Agrees req.workload_intent req.launch_template
        → Accepts req.target_node_id selected
        → IsReadyOn req.workload_intent req.launch_template req.mode selected r
        → find selected ≡ found
        → Planned req find (
            validate_plan trace_order hints_order req.mode selected
              (hydrate req.workload_intent req.launch_template req.mode selected)
              found
              r)
    unfolding validate_plan validate_launch
    validate_plan-Planned selected none r agrees accepts on same = is_unready (λ h. ground arith)
    validate_plan-Planned selected (some node) r agrees accepts on same =
        let spec = hydrate req.workload_intent req.launch_template req.mode selected in
        elim (Bool-cases (validate_launch trace_order hints_order spec node).is_valid) [
          | inr not_valid ↦ rw not_valid (is_unready (λ h. ground arith))
          | inl valid ↦ elim (Bool-cases (req.mode == "dry_run")) [
            | inl dry ↦
                rw (valid, dry)
                  (is_checked selected node spec agrees accepts on.on_selected same refl
                    on.spec_planned refl valid)
            | inr wet ↦
                rw (valid, wet)
                  (is_checked selected node spec agrees accepts on.on_selected same refl
                    on.spec_planned refl valid)
          ]
        ]

    finish_plan-Planned :
        (scheduled : Option String) (r : LaunchPlanResult)
        → Outcome req.workload_intent req.launch_template req.mode req.target_node_id scheduled r
        → (answer : LaunchPlanResult) × (finish_plan trace_order hints_order req.mode find
              r.planned_launch_spec r
            ≡ some answer)
          × Planned req find answer
    finish_plan-Planned scheduled r (is_ready selected agrees same accepts template on) = (
      _,
      finish_plan_lem _ selected r on.spec_planned on.status_ready on.on_selected,
      validate_plan-Planned selected (find selected) r agrees accepts on refl,
    )
    finish_plan-Planned scheduled r (is_rejected agrees same status nothing) =
        (r, finish_plan_nothing r nothing.no_spec, is_unready (λ h. ground arith))
    finish_plan-Planned scheduled r (is_conflict why status nothing) =
        (r, finish_plan_nothing r nothing.no_spec, is_unready (λ h. ground arith))

  -- A plan request that PlanLaunch reads is answered with 200 and without a panic, also where the node
  -- that the scheduler selected has left the store in the meantime. A plan that is answered as ready
  -- names a node that is in the store, its spec is the template filled in for that node, and
  -- ValidateLaunch calls the spec valid on the node.
  pub plan_launch-Planned :
      (visit : Dict NodeConstraintRecord → Dict NodeConstraintRecord) (clock : ℕ → ℤ)
      (order : Dict NodeRecord → Dict NodeRecord) (now : ℤ) (req : LaunchPlanRequest)
      (nodes then_nodes : InMemoryStore)
      → (r : LaunchPlanResult) × (plan_launch trace_order hints_order visit clock order now
            (ok req)
            nodes
            then_nodes
          ≡ some (replied status_ok r))
        × Planned req (λ id. get_node id then_nodes) r
  unfolding plan_launch
  plan_launch-Planned visit clock order now req nodes then_nodes =
      let planned =
        build_launch_plan visit clock now req.workload_intent req.launch_template req.mode
          req.target_node_id (list_all_nodes order nodes) in
      let (answer, same, checked) =
        finish_plan-Planned req (λ id. get_node id then_nodes) _ planned
          (build_launch_plan-Outcome visit clock now req.workload_intent req.launch_template
            req.mode req.target_node_id (list_all_nodes order nodes)) in
      (answer, rw (same, plan_launch) refl, checked)
