-- ===== src/Validate.antt =====
-- schedune-control-plane/internal/domain/validate_launch.go: whether a node can execute a spec.
-- `trace_order` and `hints_order` stand for the orders in which Go's two loops over the map of
-- rejected backends visit it.
pub mod Hints
pub mod Verdict
use schedune.Base.{
  ◌≡◌, String, Bool, true, false, not, ◌&&◌, ◌||◌, Option, none, some, List, [], ◌∷◌, ◌++◌, ◌<>◌,
  if◌then◌else◌, is_empty, ◌==◌, contains,
}
use schedune.Base.Int64.{decimal_ℤ}
use schedune.Base.Dict.{Dict, get, put}
use schedune.Schema.Spec.{
  LaunchSpec, SecurityContextSpec, RuntimeVersionRequirement, LaunchValidationResult,
}
use schedune.Schema.Reasons.{
  err_launch_arch_mismatch, err_launch_backend_not_supported,
  err_launch_backend_execution_unsupported, err_launch_missing_capability_seccomp,
  warn_deprecated_image_reference, warn_deprecated_network_attachments, cap_qemu_binary_missing,
  cap_kvm_missing, cap_kvm_not_openable_perms, cap_cloud_hypervisor_binary_missing,
  cap_firecracker_binary_missing, cap_firecracker_tun_missing, cap_firecracker_cgroups_missing,
  err_launch_runtime_version_unknown, err_launch_runtime_version_unparseable,
  err_launch_runtime_version_too_old, err_launch_runtime_version_mismatch,
  err_launch_missing_artifact, err_launch_invalid_firecracker_artifact_model,
}
use schedune.Node.{NodeRecord}
use schedune.Select.Refusals.{is_unusable}
use schedune.Select.{Rejections, select_backend}
use schedune.Validate.Hints.{generate_remediation_hints}

abbrev pub say : String → LaunchValidationResult → LaunchValidationResult
say line r = record r { validation_trace = r.validation_trace ++ line ∷ [] }

abbrev pub warn : String → LaunchValidationResult → LaunchValidationResult
warn code r = record r { warnings = r.warnings ++ code ∷ [] }

-- `IsValid = false`, with a blocking code and a line of the trace.
abbrev pub block : String → String → LaunchValidationResult → LaunchValidationResult
block code line r =
    say line
      (record r { is_valid = false; blocking_reason_codes = r.blocking_reason_codes ++ code ∷ [] })

abbrev pub fresh_result : String → LaunchValidationResult
fresh_result id = record {
  is_valid = true;
  selected_backend = "";
  rejected_backends = [];
  backend_rejection_evidence = [];
  blocking_reason_codes = [];
  warnings = [];
  required_host_features = [];
  missing_host_features = [];
  recommended_runtime = "";
  explainability_text = "";
  validation_trace = ("Started validation against node " <> id) ∷ [];
  remediation_hints = [];
}

unfoldable pub check_architecture :
    LaunchSpec → NodeRecord → LaunchValidationResult → LaunchValidationResult
check_architecture spec node r =
    if spec.architecture == node.identity.architecture
    then r
    else block err_launch_arch_mismatch
        ("Failed: Architecture mismatch. Node is " <> node.identity.architecture) r

unfoldable pub check_deprecated : LaunchSpec → LaunchValidationResult → LaunchValidationResult
check_deprecated spec r =
    let images =
      if not (spec.image_reference == "") || not (spec.kernel_image_path == "")
      then say
          (if is_empty spec.storage
            then "Warning: Using deprecated legacy artifact fields. Please migrate to typed Storage array."
            else "Warning: Both typed Storage and legacy ImageReference provided. Typed Storage takes precedence.")
          (warn warn_deprecated_image_reference r)
      else r in
    if is_empty spec.network_attachments
    then images
    else say
        "Warning: Using deprecated NetworkAttachments field. Please migrate to typed Networks array."
        (warn warn_deprecated_network_attachments images)

unfoldable pub check_security :
    Option SecurityContextSpec → NodeRecord → LaunchValidationResult → LaunchValidationResult
check_security none node r = r
check_security (some security) node r =
    if security.seccomp_profile == ""
    then r
    else if is_unusable (get "kernel_seccomp_supported" node.capabilities)
    then block err_launch_missing_capability_seccomp
        "Failed: Security Context requires seccomp profile, but kernel seccomp is not supported or missing."
        r
    else say "Passed: Node supports kernel seccomp for requested profile." r

-- Layer 1: the checks that do not depend on a backend.
unfoldable pub preflight : LaunchSpec → NodeRecord → LaunchValidationResult
preflight spec node =
    check_security spec.security node
      (check_deprecated spec (check_architecture spec node (fresh_result node.id)))

-- The loop that explains the rejected backends.
unfoldable pub explain_rejected : Dict String → LaunchValidationResult → LaunchValidationResult
explain_rejected [] r = r
explain_rejected ((backend, reason) ∷ m) r =
    explain_rejected m (say ("Backend " <> backend <> " rejected: " <> reason) r)

abbrev pub asks_version : Option RuntimeVersionRequirement → Bool
asks_version none = false
asks_version (some v) = not (v.minimum_version == "") || not (v.exact_version == "")

unfoldable pub recommended : LaunchSpec → String → String
recommended spec backend =
    if backend == "kvm_qemu"
    then "qemu-system-" <> spec.architecture
    else if backend == "cloud_hypervisor"
    then "cloud-hypervisor"
    else if backend == "firecracker"
    then "firecracker"
    else ""

-- Layer 4, for a spec that nothing blocks.
unfoldable pub accept : LaunchSpec → String → LaunchValidationResult → LaunchValidationResult
accept spec backend r =
    let passed = say ("Passed: Selected backend " <> backend) r in
    let versioned =
      if asks_version spec.runtime_version
      then say ("Passed: Runtime version requirement satisfied by " <> backend) passed
      else passed in
    let named = record versioned {
      explainability_text = "Node is fully capable of executing this launch spec.";
      recommended_runtime = recommended spec backend;
    } in
    if spec.launch_mode == "DryRun" && named.is_valid
    then say ("DryRun: Successfully simulated allocation of " <> decimal_ℤ spec.vcpu <> " vcpus.")
        named
    else named

abbrev pub explain : String → LaunchValidationResult → LaunchValidationResult
explain text r = record r { explainability_text = text }

module _ (trace_order hints_order : Dict String → Dict String) where
  abbrev pub with_hints : LaunchValidationResult → LaunchValidationResult
  with_hints r = record r { remediation_hints = generate_remediation_hints hints_order r }

  -- Layers 2 to 4, with the result of SelectBackend.
  unfoldable pub backend_layers :
      LaunchSpec → String × Rejections → LaunchValidationResult → LaunchValidationResult
  backend_layers spec (backend, rejections) r =
      let seen = record r {
        rejected_backends = rejections.rejected;
        backend_rejection_evidence = rejections.evidence;
        selected_backend = backend;
      } in
      if backend == ""
      then with_hints (
          explain "Node cannot launch workload due to missing backend prerequisites or constraints."
            (explain_rejected (trace_order rejections.rejected) (
              block err_launch_backend_not_supported
                "Failed: No supported runtime backend found for spec." seen)))
      else if backend == "firecracker" && spec.launch_mode == "Execute"
      then with_hints (
          explain "Node cannot launch workload due to Data Plane limitations." (
            block err_launch_backend_execution_unsupported
              "Failed: Firecracker execution is not implemented in Data Plane V0. Only Validate and DryRun are supported."
              seen))
      else with_hints (accept spec backend seen)

  -- ValidateLaunch
  unfoldable pub validate_launch : LaunchSpec → NodeRecord → LaunchValidationResult
  validate_launch spec node =
      let r = preflight spec node in
      if r.is_valid
      then backend_layers spec (select_backend spec node) r
      else with_hints (explain "Node cannot launch workload due to generic preflight blockers." r)
