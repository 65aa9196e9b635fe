-- ===== src/Select/Refusals.antt =====
-- schedune-control-plane/internal/domain/runtime_select.go: the checks of a backend, each with the
-- refusal that SelectBackend records where it fails.
use schedune.Base.{
  String, Bool, true, false, not, ◌&&◌, ◌||◌, Option, none, some, List, [], ◌∷◌, map, if◌then◌else◌,
  is_empty, ◌==◌,
}
use schedune.Base.Dict.{get}
use schedune.Schema.Spec.{LaunchSpec, StorageAttachmentSpec, NetworkAttachmentSpec}
use schedune.Schema.Reasons.{
  err_launch_missing_capability_kvm_qemu, err_launch_missing_capability_fc_binary,
  err_launch_missing_capability_fc_tun, err_launch_missing_capability_fc_cgroups,
  err_launch_invalid_firecracker_artifact_model, err_launch_invalid_storage_format,
  err_launch_missing_capability_ch_binary, err_launch_missing_artifact,
  err_launch_missing_capability_qemu_binary,
}
use schedune.Node.{NodeRecord, NodeCapabilityRecord}
use schedune.Version.{check_version_requirement}

unfoldable pub normalize_storage : LaunchSpec → List StorageAttachmentSpec
normalize_storage spec =
    if not (is_empty spec.storage)
    then spec.storage
    else if spec.runtime_class == "MicroVM"
    then if not (spec.kernel_image_path == "") && not (spec.rootfs_path == "")
      then record {
        volume_id = "";
        host_path = spec.rootfs_path;
        read_only = false;
        format = "ext4";
        mount_point = "/";
      }
        ∷ record {
          volume_id = "";
          host_path = spec.kernel_image_path;
          read_only = true;
          format = "raw";
          mount_point = "/boot/vmlinux";
        }
        ∷ []
      else []
    else if not (spec.image_reference == "")
    then record {
      volume_id = "";
      host_path = spec.image_reference;
      read_only = false;
      format = "qcow2";
      mount_point = "";
    }
      ∷ []
    else []

unfoldable pub normalize_networks : LaunchSpec → List NetworkAttachmentSpec
normalize_networks spec =
    if not (is_empty spec.networks)
    then spec.networks
    else map (λ net. record { network_id = ""; type = "tap"; host_device = net; mac_address = "" })
        spec.network_attachments

-- The arguments of a call of `reject`, but for the backend.
pub record Refusal : Type 0 where
  pub reason_code : String
  pub cap_name : Option String
  pub cap : Option NodeCapabilityRecord

-- `!exists || cap.State != "Supported" || cap.IsStale`
abbrev pub is_unusable : Option NodeCapabilityRecord → Bool
is_unusable none = true
is_unusable (some cap) = not (cap.state == "Supported") || cap.is_stale

abbrev pub version_of : Option NodeCapabilityRecord → String
version_of none = ""
version_of (some cap) = cap.version

-- The check of one capability, which hands the capability on if there is one.
unfoldable pub cap_refusal : NodeRecord → String → String → Option Refusal
cap_refusal node name reason =
    let cap = get name node.capabilities in
    if is_unusable cap
    then some (record { reason_code = reason; cap_name = some name; cap = cap })
    else none

-- The check of the version of a binary.
unfoldable pub version_refusal : LaunchSpec → NodeRecord → String → Option Refusal
version_refusal spec node name =
    let cap = get name node.capabilities in
    elim (check_version_requirement (version_of cap) spec.runtime_version) [
      | none ↦ none
      | some reason ↦ some (record { reason_code = reason; cap_name = some name; cap = cap })
    ]

abbrev pub plain_refusal : String → Refusal
plain_refusal reason = record { reason_code = reason; cap_name = none; cap = none }

unfoldable pub storage_refusal : String → List StorageAttachmentSpec → Option Refusal
storage_refusal reason storage = if is_empty storage then some (plain_refusal reason) else none

-- The loop over the storage of a microVM.
unfoldable pub format_refusal : List StorageAttachmentSpec → Option Refusal
format_refusal [] = none
format_refusal (s ∷ storage) =
    if s.format == "qcow2"
    then some (plain_refusal err_launch_invalid_storage_format)
    else format_refusal storage

-- The first of two checks that refuses.
infixr 40 ◌or_else◌
abbrev pub ◌or_else◌ : Option Refusal → Option Refusal → Option Refusal
none or_else r = r
some x or_else r = some x

unfoldable pub firecracker_refusal : LaunchSpec → NodeRecord → Option Refusal
firecracker_refusal spec node =
    cap_refusal node "kvm_vm_launch" err_launch_missing_capability_kvm_qemu
    or_else cap_refusal node "firecracker_binary_present" err_launch_missing_capability_fc_binary
    or_else version_refusal spec node "firecracker_binary_present"
    or_else cap_refusal node "firecracker_tun_ready" err_launch_missing_capability_fc_tun
    or_else cap_refusal node "firecracker_cgroups_ready" err_launch_missing_capability_fc_cgroups
    or_else storage_refusal err_launch_invalid_firecracker_artifact_model (normalize_storage spec)
    or_else format_refusal (normalize_storage spec)

unfoldable pub cloud_hypervisor_refusal : LaunchSpec → NodeRecord → Option Refusal
cloud_hypervisor_refusal spec node =
    cap_refusal node "kvm_vm_launch" err_launch_missing_capability_kvm_qemu
    or_else cap_refusal node "cloud_hypervisor_binary_present"
        err_launch_missing_capability_ch_binary
    or_else version_refusal spec node "cloud_hypervisor_binary_present"
    or_else storage_refusal err_launch_missing_artifact (normalize_storage spec)

unfoldable pub kvm_qemu_refusal : LaunchSpec → NodeRecord → Option Refusal
kvm_qemu_refusal spec node =
    cap_refusal node "kvm_vm_launch" err_launch_missing_capability_kvm_qemu
    or_else cap_refusal node "qemu_binary_present" err_launch_missing_capability_qemu_binary
    or_else version_refusal spec node "qemu_binary_present"
    or_else storage_refusal err_launch_missing_artifact (normalize_storage spec)
