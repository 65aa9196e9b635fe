-- ===== src/Select.antt =====
-- schedune-control-plane/internal/domain/runtime_select.go: the choice of a runtime backend.
-- A check that rejects and returns (or goes on to the next backend) yields a `Refusal`; the first
-- one of a backend's checks is the one that is recorded.
pub mod Refusals
pub mod Runnable
pub mod Choice
pub mod Evidence
use schedune.Base.{
  ◌≡◌, String, Bool, true, false, not, ◌&&◌, ◌||◌, Option, none, some, List, [], ◌∷◌, ◌++◌, map,
  ◌<>◌, if◌then◌else◌, is_empty, ◌==◌,
}
use schedune.Base.Dict.{Dict, get, put}
use schedune.Schema.Spec.{
  LaunchSpec, StorageAttachmentSpec, NetworkAttachmentSpec, BackendRejectionEvidence,
}
use schedune.Schema.Reasons.{
  err_launch_missing_capability_kvm_qemu, err_launch_missing_capability_fc_binary,
  err_launch_missing_capability_fc_tun, err_launch_missing_capability_fc_cgroups,
  err_launch_invalid_firecracker_artifact_model, err_launch_invalid_storage_format,
  err_launch_missing_capability_ch_binary, err_launch_missing_artifact,
  err_launch_missing_capability_qemu_binary, err_launch_backend_not_supported,
}
use schedune.Node.{NodeRecord, NodeCapabilityRecord}
use schedune.Version.{check_version_requirement}
use schedune.Select.Refusals.{
  normalize_storage, normalize_networks, Refusal, is_unusable, version_of, cap_refusal,
  version_refusal, plain_refusal, storage_refusal, format_refusal, ◌or_else◌, firecracker_refusal,
  cloud_hypervisor_refusal, kvm_qemu_refusal,
}

-- The two variables that the closure `reject` writes to.
pub record Rejections : Type 0 where
  pub evidence : List BackendRejectionEvidence
  pub rejected : Dict String

abbrev pub no_rejections : Rejections
no_rejections = record { evidence = []; rejected = [] }

-- `if capReasonCode != "" { … }`
abbrev pub cap_reason : NodeCapabilityRecord → Option String
cap_reason cap = if cap.reason_code == "" then none else some cap.reason_code

abbrev pub reason_text : String → Option NodeCapabilityRecord → String
reason_text reason none = reason
reason_text reason (some cap) =
    if cap.reason_code == "" then reason else reason <> " (" <> cap.reason_code <> ")"

abbrev pub cap_evidence :
    Option NodeCapabilityRecord → BackendRejectionEvidence → BackendRejectionEvidence
cap_evidence none ev = ev
cap_evidence (some cap) ev = record ev {
  capability_state = some cap.state;
  capability_reason_code = cap_reason cap;
  capability_stale = some cap.is_stale;
}

unfoldable pub reject : String → Refusal → Rejections → Rejections
reject backend r st = record {
  evidence =
      st.evidence
      ++ cap_evidence r.cap (record {
        backend = backend;
        reason_code = r.reason_code;
        capability_name = r.cap_name;
        capability_state = none;
        capability_reason_code = none;
        capability_stale = none;
        message = none;
      })
        ∷ [];
  rejected = put backend (reason_text r.reason_code r.cap) st.rejected;
}

-- The list `backends`, or `none` where the preference is not supported.
unfoldable pub candidates : LaunchSpec → Option (List String)
candidates spec =
    if spec.runtime_backend_preference == ""
    then some ("cloud_hypervisor" ∷ "kvm_qemu" ∷ [])
    else if spec.runtime_backend_preference == "cloud_hypervisor"
    then if spec.allow_backend_fallback
      then some ("cloud_hypervisor" ∷ "kvm_qemu" ∷ [])
      else some (spec.runtime_backend_preference ∷ [])
    else if spec.runtime_backend_preference == "kvm_qemu"
    then if spec.allow_backend_fallback
      then some ("kvm_qemu" ∷ "cloud_hypervisor" ∷ [])
      else some (spec.runtime_backend_preference ∷ [])
    else none

-- How a round of the loop over the backends ends.
pub data Round : Type 0 where
  chosen : Round
  refused : Refusal → Round
  skipped : Round

abbrev pub of_refusal : Option Refusal → Round
of_refusal none = chosen
of_refusal (some r) = refused r

unfoldable pub backend_round : LaunchSpec → NodeRecord → String → Round
backend_round spec node backend =
    if backend == "cloud_hypervisor"
    then of_refusal (cloud_hypervisor_refusal spec node)
    else if backend == "kvm_qemu"
    then of_refusal (kvm_qemu_refusal spec node)
    else skipped

-- The loop over the backends.
unfoldable pub select_from :
    LaunchSpec → NodeRecord → List String → Rejections → String × Rejections
select_from spec node [] st = ("", st)
select_from spec node (backend ∷ backends) st = elim (backend_round spec node backend) [
  | refused r ↦ select_from spec node backends (reject backend r st)
  | skipped ↦ select_from spec node backends st
  | chosen ↦ (backend, st)
]

unfoldable pub select_micro_vm : LaunchSpec → NodeRecord → String × Rejections
select_micro_vm spec node = elim (firecracker_refusal spec node) [
  | some r ↦ ("", reject "firecracker" r no_rejections)
  | none ↦ ("firecracker", no_rejections)
]

unfoldable pub select_virtual_machine : LaunchSpec → NodeRecord → String × Rejections
select_virtual_machine spec node = elim (candidates spec) [
  | none ↦ (
    "",
    reject spec.runtime_backend_preference (plain_refusal err_launch_backend_not_supported)
        no_rejections,
  )
  | some backends ↦ select_from spec node backends no_rejections
]

-- SelectBackend
unfoldable pub select_backend : LaunchSpec → NodeRecord → String × Rejections
select_backend spec node =
    if spec.runtime_class == "MicroVM"
    then select_micro_vm spec node
    else if spec.runtime_class == "VirtualMachine"
    then select_virtual_machine spec node
    else ("", no_rejections)
