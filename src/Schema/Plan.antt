-- ===== src/Schema/Plan.antt =====
-- schedune-control-plane/pkg/schema/plan/v1alpha1.go: templates of launches and the plans for them.
use schedune.Base.{String, Bool, List, Option}
use schedune.Base.Int64.{ℤ}
use schedune.Schema.Spec.{
  StorageAttachmentSpec, NetworkAttachmentSpec, SecurityContextSpec, RuntimeVersionRequirement,
  LaunchSpec, LaunchValidationResult,
}
use schedune.Schema.Execution.{PreparedLaunch}
use schedune.Schema.Workload.{WorkloadIntent}

pub record LaunchTemplateSpec : Type 0 where
  pub schema_version : String
  pub workload_id : String
  pub tenant_id : String
  pub node_id : String
  pub runtime_class : String
  pub architecture : String
  pub image_reference : String
  pub kernel_image_path : String
  pub rootfs_path : String
  pub network_attachments : List String
  pub storage : List StorageAttachmentSpec
  pub networks : List NetworkAttachmentSpec
  pub security : Option SecurityContextSpec
  pub vcpu : ℤ
  pub memory_mb : ℤ
  pub launch_mode : String
  pub runtime_backend_preference : String
  pub allow_backend_fallback : Bool
  pub runtime_version : Option RuntimeVersionRequirement

pub record LaunchPlanRequest : Type 0 where
  pub schema_version : String
  pub workload_intent : WorkloadIntent
  pub launch_template : LaunchTemplateSpec
  pub mode : String
  pub target_node_id : String

pub record EligibilityEvidence : Type 0 where
  pub node_id : String
  pub is_eligible : Bool
  pub hard_rejection_codes : List String
  pub freshness_ok : Bool
  pub compatibility_ok : Bool
  pub health_ok : Bool
  pub matched_features : List String
  pub warnings : List String

-- The constants of the text type LaunchPlanStatus.
pub data LaunchPlanStatus : Type 0 where
  ready plan_rejected validation_fail conflict : LaunchPlanStatus

-- The constants of the text type LaunchPlanNextAction.
pub data LaunchPlanNextAction : Type 0 where
  submit_launch prepare_on_node retry_later fix_validation no_action : LaunchPlanNextAction

-- The constants of the text type LaunchPreparationStatus.
pub data LaunchPreparationStatus : Type 0 where
  pending_node_agent preparation_failed preparation_success : LaunchPreparationStatus

pub record LaunchPreparationResult : Type 0 where
  pub schema_version : String
  pub status : LaunchPreparationStatus
  pub node_id : String
  pub backend : String
  pub is_preparable : Bool
  pub blocking_reason_codes : List String
  pub warnings : List String
  pub prepared_launch : Option PreparedLaunch

pub record LaunchPlanResult : Type 0 where
  pub schema_version : String
  pub status : LaunchPlanStatus
  pub selected_node : Option String
  pub rejected_nodes : List EligibilityEvidence
  pub planned_launch_spec : Option LaunchSpec
  pub validation_result : Option LaunchValidationResult
  pub preparation_result : Option LaunchPreparationResult
  pub dry_run_prepared : Bool
  pub warnings : List String
  pub next_actions : List LaunchPlanNextAction
