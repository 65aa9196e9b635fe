-- ===== src/Select/Runnable.antt =====
-- When a node can run a launch spec on a backend, and that the checks of
-- schedune-control-plane/internal/domain/runtime_select.go decide it.
use schedune.Base.{
  ◌≡◌, ◌≢◌, inl, inr, ◌↔◌, refl, String, false, Option, none, some, Option-cases, List, [], ◌∷◌,
  All, eq_iff, arith,
}
use schedune.Base.Dict.{get}
use schedune.Schema.Spec.{LaunchSpec, StorageAttachmentSpec}
use schedune.Node.{NodeRecord, NodeCapabilityRecord}
use schedune.Version.{check_version_requirement}
use schedune.Schema.Reasons.{
  err_launch_missing_capability_kvm_qemu, err_launch_missing_artifact,
  err_launch_missing_capability_ch_binary, err_launch_missing_capability_qemu_binary,
  err_launch_missing_capability_fc_binary, err_launch_missing_capability_fc_tun,
  err_launch_missing_capability_fc_cgroups, err_launch_invalid_firecracker_artifact_model,
}
use schedune.Select.Refusals.{
  normalize_storage, version_of, cap_refusal, version_refusal, storage_refusal, format_refusal,
  firecracker_refusal, cloud_hypervisor_refusal, kvm_qemu_refusal, Refusal, ◌or_else◌,
}

-- The node reports the capability as supported, and the report is not stale.
abbrev pub IsUsable : NodeRecord → String → Type 0
IsUsable node name =
    (cap : NodeCapabilityRecord) × (get name node.capabilities ≡ some cap)
    × (cap.state ≡ "Supported")
    × (cap.is_stale ≡ false)

-- The version that the node reports of a binary meets the requirement of the spec.
abbrev pub MeetsVersion : LaunchSpec → NodeRecord → String → Type 0
MeetsVersion spec node name =
    check_version_requirement (version_of (get name node.capabilities)) spec.runtime_version ≡ none

-- What a virtual machine needs on a backend with the given binary.
abbrev pub CanRunVm : String → LaunchSpec → NodeRecord → Type 0
CanRunVm binary spec node =
    IsUsable node "kvm_vm_launch"
    × IsUsable node binary
    × MeetsVersion spec node binary
    × (normalize_storage spec ≢ [])

-- What a microVM needs.
abbrev pub CanRunMicroVm : LaunchSpec → NodeRecord → Type 0
CanRunMicroVm spec node =
    IsUsable node "kvm_vm_launch"
    × IsUsable node "firecracker_binary_present"
    × MeetsVersion spec node "firecracker_binary_present"
    × IsUsable node "firecracker_tun_ready"
    × IsUsable node "firecracker_cgroups_ready"
    × (normalize_storage spec ≢ [])
    × All (λ (s : StorageAttachmentSpec). s.format ≢ "qcow2") (normalize_storage spec)

IsUsable-of_refusal :
    (node : NodeRecord) (name reason : String)
    → cap_refusal node name reason ≡ none
    → IsUsable node name
unfolding cap_refusal
IsUsable-of_refusal node name reason h = elim (Option-cases (get name node.capabilities)) [
  | inl missing ↦ absurd (ground arith)
  | inr (cap, found) ↦ (
    cap,
    found,
    ground (arith, eq_iff cap.state "Supported"),
    ground (arith, eq_iff cap.state "Supported"),
  )
]

refusal_of_usable :
    (node : NodeRecord) (name reason : String)
    → IsUsable node name
    → cap_refusal node name reason ≡ none
unfolding cap_refusal
refusal_of_usable node name reason (cap, found, state, fresh) =
    ground (arith, eq_iff cap.state "Supported")

cap_iff :
    (node : NodeRecord) (name reason : String)
    → (cap_refusal node name reason ≡ none) ↔ IsUsable node name
cap_iff node name reason =
    (IsUsable-of_refusal node name reason, refusal_of_usable node name reason)

version_iff :
    (spec : LaunchSpec) (node : NodeRecord) (name : String)
    → (version_refusal spec node name ≡ none) ↔ MeetsVersion spec node name
unfolding version_refusal
version_iff spec node name = (λ h. ground arith, λ h. ground arith)

storage_iff :
    (reason : String) (storage : List StorageAttachmentSpec)
    → (storage_refusal reason storage ≡ none) ↔ (storage ≢ [])
unfolding storage_refusal
storage_iff reason [] = (λ h. cc, λ h. absurd (h refl))
storage_iff reason (s ∷ storage) = (λ h. λ e. cc, λ h. refl)

format_iff :
    (storage : List StorageAttachmentSpec)
    → (format_refusal storage ≡ none)
      ↔ All (λ (s : StorageAttachmentSpec). s.format ≢ "qcow2") storage
unfolding format_refusal
format_iff [] = (λ h. tt, λ h. refl)
format_iff (s ∷ storage) =
    let rest = format_iff storage in
    (
      λ h. (
        ground (arith, eq_iff s.format "qcow2"),
        rest.0 (ground (arith, eq_iff s.format "qcow2")),
      ),
      λ h. ground (arith, eq_iff s.format "qcow2", rest.1 h.1),
    )

-- Checks in a row pass exactly when each passes.
all_pass :
    (a b c d : Option Refusal)
    → ((a or_else b or_else c or_else d) ≡ none)
      ↔ ((a ≡ none) × (b ≡ none) × (c ≡ none) × (d ≡ none))
all_pass a b c d = (λ h. ground arith, λ h. ground arith)

seven_pass :
    (a b c d e f g : Option Refusal)
    → ((a or_else b or_else c or_else d or_else e or_else f or_else g) ≡ none)
      ↔ ((a ≡ none) × (b ≡ none) × (c ≡ none) × (d ≡ none) × (e ≡ none) × (f ≡ none) × (g ≡ none))
seven_pass a b c d e f g = (λ h. ground arith, λ h. ground arith)

vm_iff :
    (spec : LaunchSpec) (node : NodeRecord) (binary reason : String)
    → ((cap_refusal node "kvm_vm_launch" err_launch_missing_capability_kvm_qemu
          or_else cap_refusal node binary reason
          or_else version_refusal spec node binary
          or_else storage_refusal err_launch_missing_artifact (normalize_storage spec))
        ≡ none)
      ↔ CanRunVm binary spec node
vm_iff spec node binary reason =
    let kvm = cap_iff node "kvm_vm_launch" err_launch_missing_capability_kvm_qemu in
    let bin = cap_iff node binary reason in
    let version = version_iff spec node binary in
    let storage = storage_iff err_launch_missing_artifact (normalize_storage spec) in
    let pass = all_pass _ _ _ _ in
    (
      λ h. let (k, b, v, s) = pass.0 h in (kvm.0 k, bin.0 b, version.0 v, storage.0 s),
      λ (k, b, v, s). pass.1 (kvm.1 k, bin.1 b, version.1 v, storage.1 s),
    )

-- The checks of Cloud Hypervisor pass exactly when the node can run the virtual machine on it.
pub cloud_hypervisor_refusal_iff :
    (spec : LaunchSpec) (node : NodeRecord)
    → (cloud_hypervisor_refusal spec node ≡ none)
      ↔ CanRunVm "cloud_hypervisor_binary_present" spec node
unfolding cloud_hypervisor_refusal
cloud_hypervisor_refusal_iff spec node =
    vm_iff spec node "cloud_hypervisor_binary_present" err_launch_missing_capability_ch_binary

-- The checks of QEMU pass exactly when the node can run the virtual machine on it.
pub kvm_qemu_refusal_iff :
    (spec : LaunchSpec) (node : NodeRecord)
    → (kvm_qemu_refusal spec node ≡ none) ↔ CanRunVm "qemu_binary_present" spec node
unfolding kvm_qemu_refusal
kvm_qemu_refusal_iff spec node =
    vm_iff spec node "qemu_binary_present" err_launch_missing_capability_qemu_binary

micro_vm_iff :
    (spec : LaunchSpec) (node : NodeRecord)
    → ((cap_refusal node "kvm_vm_launch" err_launch_missing_capability_kvm_qemu
          or_else cap_refusal node "firecracker_binary_present"
              err_launch_missing_capability_fc_binary
          or_else version_refusal spec node "firecracker_binary_present"
          or_else cap_refusal node "firecracker_tun_ready" err_launch_missing_capability_fc_tun
          or_else cap_refusal node "firecracker_cgroups_ready"
              err_launch_missing_capability_fc_cgroups
          or_else storage_refusal err_launch_invalid_firecracker_artifact_model
              (normalize_storage spec)
          or_else format_refusal (normalize_storage spec))
        ≡ none)
      ↔ CanRunMicroVm spec node
micro_vm_iff spec node =
    let kvm = cap_iff node "kvm_vm_launch" err_launch_missing_capability_kvm_qemu in
    let bin = cap_iff node "firecracker_binary_present" err_launch_missing_capability_fc_binary in
    let version = version_iff spec node "firecracker_binary_present" in
    let tun = cap_iff node "firecracker_tun_ready" err_launch_missing_capability_fc_tun in
    let groups =
      cap_iff node "firecracker_cgroups_ready" err_launch_missing_capability_fc_cgroups in
    let storage =
      storage_iff err_launch_invalid_firecracker_artifact_model (normalize_storage spec) in
    let formats = format_iff (normalize_storage spec) in
    let pass = seven_pass _ _ _ _ _ _ _ in
    (
      λ h.
          let (k, b, v, t, g, s, f) = pass.0 h in
          (kvm.0 k, bin.0 b, version.0 v, tun.0 t, groups.0 g, storage.0 s, formats.0 f),
      λ (k, b, v, t, g, s, f).
          pass.1 (kvm.1 k, bin.1 b, version.1 v, tun.1 t, groups.1 g, storage.1 s, formats.1 f),
    )

-- The checks of a microVM pass exactly when the node can run it.
pub firecracker_refusal_iff :
    (spec : LaunchSpec) (node : NodeRecord)
    → (firecracker_refusal spec node ≡ none) ↔ CanRunMicroVm spec node
unfolding firecracker_refusal
firecracker_refusal_iff spec node = micro_vm_iff spec node
