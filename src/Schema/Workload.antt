-- ===== src/Schema/Workload.antt =====
-- schedune-control-plane/pkg/schema/workload/v1alpha1.go: a request for compute.
use schedune.Base.{String, Bool, List}
use schedune.Base.Int64.{ℤ}

pub record WorkloadIntent : Type 0 where
  pub schema_version : String
  pub workload_id : String
  pub tenant_id : String
  pub runtime_class : String
  pub required_architecture : String
  pub max_telemetry_age_sec : ℤ
  pub requires_kvm : Bool
  pub requires_tpm : Bool
  pub kernel_image_path : String
  pub rootfs_path : String
  pub runtime_backend_preference : String
  pub allow_backend_fallback : Bool
  pub forbidden_constraints : List String
  pub required_compatibility_classes : List String
  pub preferred_features : List String
