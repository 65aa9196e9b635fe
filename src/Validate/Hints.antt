-- ===== src/Validate/Hints.antt =====
-- The remediation hints (schedune-control-plane/internal/domain/validate_launch.go,
-- generateRemediationHints). `hints_order` is the order in which the loop over the map of rejected
-- backends visits it.
use schedune.Base.{
  String, Bool, true, ◌&&◌, Option, none, some, List, [], ◌∷◌, if◌then◌else◌, ◌==◌, contains,
}
use schedune.Base.Dict.{Dict, put}
use schedune.Schema.Spec.{LaunchValidationResult}
use schedune.Schema.Reasons.{
  err_launch_arch_mismatch, err_launch_backend_not_supported,
  err_launch_backend_execution_unsupported, err_launch_missing_capability_seccomp,
  cap_qemu_binary_missing, cap_kvm_missing, cap_kvm_not_openable_perms,
  cap_cloud_hypervisor_binary_missing, cap_firecracker_binary_missing, cap_firecracker_tun_missing,
  cap_firecracker_cgroups_missing, err_launch_runtime_version_unknown,
  err_launch_runtime_version_unparseable, err_launch_runtime_version_too_old,
  err_launch_runtime_version_mismatch, err_launch_missing_artifact,
  err_launch_invalid_firecracker_artifact_model,
}

-- One `if test { hints[key] = hint }`.
abbrev pub hint_if : Bool → String → String → Dict String → Dict String
hint_if test key hint hints = if test then put key hint hints else hints

-- The first loop of generateRemediationHints.
unfoldable pub code_hints : List String → Dict String → Dict String
code_hints [] hints = hints
code_hints (code ∷ codes) hints = code_hints codes (
    hint_if (code == err_launch_missing_capability_seccomp) "kernel_seccomp"
      "Ensure the host kernel is compiled with CONFIG_SECCOMP and actions_avail is readable."
      (hint_if (code == err_launch_backend_execution_unsupported) "launch_mode"
        "Firecracker execution is not supported in Data Plane V0. Use Validate or DryRun, or select a different backend."
        (hint_if (code == err_launch_backend_not_supported) "backend"
          "Check the RejectedBackends map for specific missing capabilities."
          (hint_if (code == err_launch_arch_mismatch) "architecture"
            "Ensure the requested architecture matches the node architecture." hints))))

-- The tests of the second loop: the backend they ask for (`none` for any), the code they look for in
-- the reason, and the hint with its key.
pub record HintRule : Type 0 where
  pub backend : Option String
  pub code : String
  pub key : String
  pub hint : String

abbrev rule : Option String → String → String → String → HintRule
rule backend code key hint = record { backend = backend; code = code; key = key; hint = hint }

unfoldable pub hint_rules : List HintRule
hint_rules =
    rule (some "kvm_qemu") cap_qemu_binary_missing "kvm_qemu_binary"
      "Install qemu-system-x86_64 or qemu-system-aarch64 on the host."
    ∷ rule (some "kvm_qemu") cap_kvm_missing "kvm_qemu_kvm"
        "Enable KVM in BIOS or load kvm kernel modules."
    ∷ rule (some "kvm_qemu") cap_kvm_not_openable_perms "kvm_qemu_perms"
        "Ensure the Schedune agent has rw permissions to /dev/kvm."
    ∷ rule (some "cloud_hypervisor") cap_cloud_hypervisor_binary_missing "cloud_hypervisor_binary"
        "Install cloud-hypervisor binary on the host."
    ∷ rule (some "cloud_hypervisor") cap_kvm_missing "cloud_hypervisor_kvm"
        "Enable KVM in BIOS or load kvm kernel modules."
    ∷ rule (some "firecracker") cap_firecracker_binary_missing "firecracker_binary"
        "Install firecracker binary on the host."
    ∷ rule (some "firecracker") cap_firecracker_tun_missing "firecracker_tun"
        "Ensure the tun kernel module is loaded (/dev/net/tun)."
    ∷ rule (some "firecracker") cap_firecracker_cgroups_missing "firecracker_cgroups"
        "Ensure cgroups v2 are mounted on the host."
    ∷ rule (some "firecracker") cap_kvm_missing "firecracker_kvm"
        "Enable KVM in BIOS or load kvm kernel modules."
    ∷ rule none err_launch_runtime_version_unknown "runtime_version_unknown"
        "Wait for the agent to observe the runtime version, or ensure the binary is correctly installed."
    ∷ rule none err_launch_runtime_version_unparseable "runtime_version_unparseable"
        "Ensure the requested version is a valid semver-like format, or check host agent logs."
    ∷ rule none err_launch_runtime_version_too_old "runtime_version_too_old"
        "Upgrade the runtime binary on the host to meet the minimum version requirement."
    ∷ rule none err_launch_runtime_version_mismatch "runtime_version_mismatch"
        "Install the exact runtime binary version requested on the host."
    ∷ rule none err_launch_missing_artifact "artifact_missing"
        "Ensure ImageReference is provided for the workload."
    ∷ rule none err_launch_invalid_firecracker_artifact_model "firecracker_artifact"
        "Ensure KernelImagePath and RootfsPath are provided for MicroVMs."
    ∷ []

abbrev pub backend_fits : Option String → String → Bool
backend_fits none backend = true
backend_fits (some b) backend = backend == b

unfoldable pub rule_fires : HintRule → String → String → Bool
rule_fires r backend reason = backend_fits r.backend backend && contains reason r.code

unfoldable pub backend_hints : List HintRule → String → String → Dict String → Dict String
backend_hints [] backend reason hints = hints
backend_hints (r ∷ rules) backend reason hints =
    backend_hints rules backend reason (hint_if (rule_fires r backend reason) r.key r.hint hints)

-- The second loop of generateRemediationHints, over the entries in the order of their visit.
unfoldable pub rejected_hints : Dict String → Dict String → Dict String
rejected_hints [] hints = hints
rejected_hints ((backend, reason) ∷ m) hints =
    rejected_hints m (backend_hints hint_rules backend reason hints)

unfoldable pub generate_remediation_hints :
    (Dict String → Dict String) → LaunchValidationResult → Dict String
generate_remediation_hints hints_order result =
    rejected_hints (hints_order result.rejected_backends)
      (code_hints result.blocking_reason_codes [])
