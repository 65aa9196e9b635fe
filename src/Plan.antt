-- ===== src/Plan.antt =====
-- schedune-control-plane/internal/domain/plan_launch.go: from a workload and a template to the
-- launch spec of the scheduled node.
pub mod Ready
use schedune.Base.{
  ◌≡◌, ℕ, String, Bool, true, false, not, ◌&&◌, Option, none, some, List, [], ◌∷◌, ◌++◌, map,
  if◌then◌else◌, ◌==◌,
}
use schedune.Base.Int64.{ℤ}
use schedune.Base.Dict.{Dict}
use schedune.Schema.Spec.{LaunchSpec}
use schedune.Schema.Workload.{WorkloadIntent}
use schedune.Schema.Plan.{
  LaunchTemplateSpec, EligibilityEvidence, LaunchPlanStatus, ready, plan_rejected, conflict,
  LaunchPlanNextAction, submit_launch, retry_later, no_action, LaunchPlanResult,
}
use schedune.Node.{NodeRecord, NodeConstraintRecord}
use schedune.Evaluate.{EligibilityResult}
use schedune.Schedule.{ScheduleDecision, schedule_v0}

abbrev pub fresh_plan : LaunchPlanResult
fresh_plan = record {
  schema_version = "v1alpha1";
  status = ready;
  selected_node = none;
  rejected_nodes = [];
  planned_launch_spec = none;
  validation_result = none;
  preparation_result = none;
  dry_run_prepared = false;
  warnings = [];
  next_actions = [];
}

-- One early return: a status, a warning and the next action.
abbrev pub stop_with :
    LaunchPlanStatus → String → LaunchPlanNextAction → LaunchPlanResult → LaunchPlanResult
stop_with status warning action r = record r {
  status = status;
  warnings = r.warnings ++ warning ∷ [];
  next_actions = r.next_actions ++ action ∷ [];
}

-- 0. The consistency check: the warning of the first test that fails.
unfoldable pub mismatch : WorkloadIntent → LaunchTemplateSpec → Option String
mismatch intent template =
    if not (intent.workload_id == template.workload_id)
    then some "Intent and Template WorkloadID mismatch"
    else if not (intent.tenant_id == template.tenant_id)
    then some "Intent and Template TenantID mismatch"
    else if not (intent.runtime_class == template.runtime_class)
    then some "Intent and Template RuntimeClass mismatch"
    else if not (intent.required_architecture == "any")
        && not (intent.required_architecture == template.architecture)
    then some "Intent RequiredArchitecture and Template Architecture mismatch"
    else none

-- The schema's form of a rejection. A nil list becomes an empty one, which is the same list here.
abbrev pub evidence_of : EligibilityResult → EligibilityEvidence
evidence_of rejected = record {
  node_id = rejected.node_id;
  is_eligible = rejected.is_eligible;
  hard_rejection_codes = rejected.hard_rejection_codes;
  freshness_ok = rejected.freshness_ok;
  compatibility_ok = rejected.compatibility_ok;
  health_ok = rejected.health_ok;
  matched_features = rejected.matched_features;
  warnings = rejected.warnings;
}

-- 3. The template filled in for the selected node.
unfoldable pub hydrate : WorkloadIntent → LaunchTemplateSpec → String → String → LaunchSpec
hydrate intent template mode selected = record {
  schema_version = template.schema_version;
  workload_id = intent.workload_id;
  tenant_id = intent.tenant_id;
  node_id = selected;
  runtime_class = template.runtime_class;
  architecture = template.architecture;
  image_reference = template.image_reference;
  kernel_image_path = template.kernel_image_path;
  rootfs_path = template.rootfs_path;
  network_attachments = template.network_attachments;
  storage = template.storage;
  networks = template.networks;
  security = template.security;
  vcpu = template.vcpu;
  memory_mb = template.memory_mb;
  launch_mode = if mode == "dry_run" then "DryRun" else "Validate";
  runtime_backend_preference = template.runtime_backend_preference;
  allow_backend_fallback = template.allow_backend_fallback;
  runtime_version = template.runtime_version;
}

-- The part after scheduling, with the result that lists the rejected nodes.
unfoldable pub plan_on :
    WorkloadIntent
    → LaunchTemplateSpec
    → String
    → String
    → Option String
    → LaunchPlanResult
    → LaunchPlanResult
plan_on intent template mode target none r =
    stop_with plan_rejected "No eligible nodes found for workload intent" retry_later r
plan_on intent template mode target (some selected) r =
    if not (target == "") && not (target == selected)
    then stop_with conflict "Target node ID conflicts with scheduler decision" no_action r
    else if not (template.node_id == "") && not (template.node_id == selected)
    then stop_with conflict "Launch template node ID conflicts with scheduler decision" no_action r
    else record r {
      selected_node = some selected;
      planned_launch_spec = some (hydrate intent template mode selected);
      next_actions = r.next_actions ++ submit_launch ∷ [];
    }

module _ (visit : Dict NodeConstraintRecord → Dict NodeConstraintRecord) (clock : ℕ → ℤ) where
  -- BuildLaunchPlan
  unfoldable pub build_launch_plan :
      ℤ → WorkloadIntent → LaunchTemplateSpec → String → String → List NodeRecord → LaunchPlanResult
  build_launch_plan now intent template mode target nodes = elim (mismatch intent template) [
    | some warning ↦ stop_with conflict warning no_action fresh_plan
    | none ↦
        let decision = schedule_v0 visit clock now intent nodes in
        plan_on intent template mode target decision.selected_node
          (record fresh_plan { rejected_nodes = map evidence_of decision.rejected_nodes })
  ]
