-- ===== src/Schema/Spec.antt =====
-- schedune-control-plane/pkg/schema/launch/v1alpha1.go, lines 3 to 91: what is to be launched, and
-- what validation says of it.
use schedune.Base.{String, Bool, List, Option}
use schedune.Base.Int64.{ℤ}
use schedune.Base.Dict.{Dict}

pub record StorageAttachmentSpec : Type 0 where
  pub volume_id : String
  pub host_path : String
  pub read_only : Bool
  pub format : String
  pub mount_point : String

pub record NetworkAttachmentSpec : Type 0 where
  pub network_id : String
  pub type : String
  pub host_device : String
  pub mac_address : String

pub record SecurityContextSpec : Type 0 where
  pub privileged : Bool
  pub seccomp_profile : String
  pub app_armor_profile : String
  pub drop_capabilities : List String

pub record RuntimeVersionRequirement : Type 0 where
  pub minimum_version : String
  pub exact_version : String

pub record LaunchSpec : Type 0 where
  pub schema_version : String
  pub workload_id : String
  pub tenant_id : String
  pub node_id : String
  pub runtime_class : String
  pub architecture : String
  pub image_reference : String
  pub kernel_image_path : String
  pub rootfs_path : String
  pub network_attachments : List String
  pub storage : List StorageAttachmentSpec
  pub networks : List NetworkAttachmentSpec
  pub security : Option SecurityContextSpec
  pub vcpu : ℤ
  pub memory_mb : ℤ
  pub launch_mode : String
  pub runtime_backend_preference : String
  pub allow_backend_fallback : Bool
  pub runtime_version : Option RuntimeVersionRequirement

pub record BackendRejectionEvidence : Type 0 where
  pub backend : String
  pub reason_code : String
  pub capability_name : Option String
  pub capability_state : Option String
  pub capability_reason_code : Option String
  pub capability_stale : Option Bool
  pub message : Option String

pub record LaunchValidationResult : Type 0 where
  pub is_valid : Bool
  pub selected_backend : String
  pub rejected_backends : Dict String
  pub backend_rejection_evidence : List BackendRejectionEvidence
  pub blocking_reason_codes : List String
  pub warnings : List String
  pub required_host_features : List String
  pub missing_host_features : List String
  pub recommended_runtime : String
  pub explainability_text : String
  pub validation_trace : List String
  pub remediation_hints : Dict String
