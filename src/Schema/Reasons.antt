-- ===== src/Schema/Reasons.antt =====
-- schedune-control-plane/pkg/schema/constants.go, lines 55 to 142: the reason codes; and
-- registry.go: the codes that are registered.
use schedune.Base.{String, Bool, List, [], ◌∷◌, has_text}

abbrev pub cap_kvm_openable : String
cap_kvm_openable = "CAP_KVM_OPENABLE"

abbrev pub cap_kvm_missing : String
cap_kvm_missing = "CAP_KVM_MISSING"

abbrev pub cap_kvm_not_openable_perms : String
cap_kvm_not_openable_perms = "CAP_KVM_NOT_OPENABLE_PERMS"

abbrev pub cap_qemu_binary_present : String
cap_qemu_binary_present = "CAP_QEMU_BINARY_PRESENT"

abbrev pub cap_qemu_binary_missing : String
cap_qemu_binary_missing = "CAP_QEMU_BINARY_MISSING"

abbrev pub cap_qemu_unsupported_arch : String
cap_qemu_unsupported_arch = "CAP_QEMU_UNSUPPORTED_ARCH"

abbrev pub cap_cloud_hypervisor_binary_present : String
cap_cloud_hypervisor_binary_present = "CAP_CLOUDHYPERVISOR_BINARY_PRESENT"

abbrev pub cap_cloud_hypervisor_binary_missing : String
cap_cloud_hypervisor_binary_missing = "CAP_CLOUDHYPERVISOR_BINARY_MISSING"

abbrev pub cap_cloud_hypervisor_ready : String
cap_cloud_hypervisor_ready = "CAP_CLOUDHYPERVISOR_READY"

abbrev pub cap_cloud_hypervisor_prereqs_missing : String
cap_cloud_hypervisor_prereqs_missing = "CAP_CLOUDHYPERVISOR_PREREQS_MISSING"

abbrev pub cap_firecracker_binary_present : String
cap_firecracker_binary_present = "CAP_FIRECRACKER_BINARY_PRESENT"

abbrev pub cap_firecracker_binary_missing : String
cap_firecracker_binary_missing = "CAP_FIRECRACKER_BINARY_MISSING"

abbrev pub cap_firecracker_tun_ready : String
cap_firecracker_tun_ready = "CAP_FIRECRACKER_TUN_READY"

abbrev pub cap_firecracker_tun_missing : String
cap_firecracker_tun_missing = "CAP_FIRECRACKER_TUN_MISSING"

abbrev pub cap_firecracker_cgroups_ready : String
cap_firecracker_cgroups_ready = "CAP_FIRECRACKER_CGROUPS_READY"

abbrev pub cap_firecracker_cgroups_missing : String
cap_firecracker_cgroups_missing = "CAP_FIRECRACKER_CGROUPS_MISSING"

abbrev pub cap_firecracker_ready : String
cap_firecracker_ready = "CAP_FIRECRACKER_READY"

abbrev pub cap_firecracker_prereqs_missing : String
cap_firecracker_prereqs_missing = "CAP_FIRECRACKER_PREREQS_MISSING"

abbrev pub reject_architecture_mismatch : String
reject_architecture_mismatch = "REJECT_ARCHITECTURE_MISMATCH"

abbrev pub reject_compatibility_class_mismatch : String
reject_compatibility_class_mismatch = "REJECT_COMPATIBILITY_CLASS_MISMATCH"

abbrev pub reject_missing_kvm : String
reject_missing_kvm = "REJECT_MISSING_KVM"

abbrev pub reject_missing_tpm : String
reject_missing_tpm = "REJECT_MISSING_TPM"

abbrev pub reject_node_unhealthy : String
reject_node_unhealthy = "REJECT_NODE_UNHEALTHY"

abbrev pub reject_telemetry_stale : String
reject_telemetry_stale = "REJECT_TELEMETRY_STALE"

abbrev pub reject_forbidden_constraint_prefix : String
reject_forbidden_constraint_prefix = "REJECT_FORBIDDEN_CONSTRAINT_"

abbrev pub err_launch_arch_mismatch : String
err_launch_arch_mismatch = "ERR_LAUNCH_ARCH_MISMATCH"

abbrev pub err_launch_backend_not_supported : String
err_launch_backend_not_supported = "ERR_LAUNCH_BACKEND_NOT_SUPPORTED"

abbrev pub err_launch_backend_execution_unsupported : String
err_launch_backend_execution_unsupported = "ERR_LAUNCH_BACKEND_EXECUTION_UNSUPPORTED"

abbrev pub err_launch_missing_artifact : String
err_launch_missing_artifact = "ERR_LAUNCH_MISSING_ARTIFACT"

abbrev pub err_launch_invalid_storage_format : String
err_launch_invalid_storage_format = "ERR_LAUNCH_INVALID_STORAGE_FORMAT"

abbrev pub err_launch_invalid_firecracker_artifact_model : String
err_launch_invalid_firecracker_artifact_model = "ERR_LAUNCH_INVALID_FIRECRACKER_ARTIFACT_MODEL"

abbrev pub err_launch_missing_capability_cloud_hypervisor : String
err_launch_missing_capability_cloud_hypervisor = "ERR_LAUNCH_MISSING_CAPABILITY_CLOUDHYPERVISOR"

abbrev pub err_launch_missing_capability_ch_binary : String
err_launch_missing_capability_ch_binary = "ERR_LAUNCH_MISSING_CAPABILITY_CH_BINARY"

abbrev pub err_launch_missing_capability_fc_binary : String
err_launch_missing_capability_fc_binary = "ERR_LAUNCH_MISSING_CAPABILITY_FC_BINARY"

abbrev pub err_launch_missing_capability_fc_tun : String
err_launch_missing_capability_fc_tun = "ERR_LAUNCH_MISSING_CAPABILITY_FC_TUN"

abbrev pub err_launch_missing_capability_fc_cgroups : String
err_launch_missing_capability_fc_cgroups = "ERR_LAUNCH_MISSING_CAPABILITY_FC_CGROUPS"

abbrev pub err_launch_missing_capability_kvm_qemu : String
err_launch_missing_capability_kvm_qemu = "ERR_LAUNCH_MISSING_CAPABILITY_KVM_QEMU"

abbrev pub err_launch_missing_capability_qemu_binary : String
err_launch_missing_capability_qemu_binary = "ERR_LAUNCH_MISSING_CAPABILITY_QEMU_BINARY"

abbrev pub err_launch_missing_capability_seccomp : String
err_launch_missing_capability_seccomp = "ERR_LAUNCH_MISSING_CAPABILITY_SECCOMP"

abbrev pub err_launch_missing_capability_namespaces : String
err_launch_missing_capability_namespaces = "ERR_LAUNCH_MISSING_CAPABILITY_NAMESPACES"

abbrev pub err_launch_unsafe_workload_id : String
err_launch_unsafe_workload_id = "ERR_LAUNCH_UNSAFE_WORKLOAD_ID"

abbrev pub err_launch_runtime_version_unknown : String
err_launch_runtime_version_unknown = "ERR_LAUNCH_RUNTIME_VERSION_UNKNOWN"

abbrev pub err_launch_runtime_version_unparseable : String
err_launch_runtime_version_unparseable = "ERR_LAUNCH_RUNTIME_VERSION_UNPARSEABLE"

abbrev pub err_launch_runtime_version_too_old : String
err_launch_runtime_version_too_old = "ERR_LAUNCH_RUNTIME_VERSION_TOO_OLD"

abbrev pub err_launch_runtime_version_mismatch : String
err_launch_runtime_version_mismatch = "ERR_LAUNCH_RUNTIME_VERSION_MISMATCH"

abbrev pub warn_deprecated_image_reference : String
warn_deprecated_image_reference = "WARN_DEPRECATED_IMAGE_REFERENCE"

abbrev pub warn_deprecated_network_attachments : String
warn_deprecated_network_attachments = "WARN_DEPRECATED_NETWORK_ATTACHMENTS"

abbrev pub err_preparation_failed : String
err_preparation_failed = "ERR_PREPARATION_FAILED"

abbrev pub err_preparation_requires_node_agent : String
err_preparation_requires_node_agent = "ERR_PREPARATION_REQUIRES_NODE_AGENT"

abbrev pub err_node_not_found : String
err_node_not_found = "ERR_NODE_NOT_FOUND"

abbrev pub err_validation_failed : String
err_validation_failed = "ERR_VALIDATION_FAILED"

abbrev pub err_exec_runtime_spawn_failed : String
err_exec_runtime_spawn_failed = "ERR_EXEC_RUNTIME_SPAWN_FAILED"

abbrev pub err_exec_runtime_crashed : String
err_exec_runtime_crashed = "ERR_EXEC_RUNTIME_CRASHED"

abbrev pub err_exec_runtime_exited_early : String
err_exec_runtime_exited_early = "ERR_EXEC_RUNTIME_EXITED_EARLY"

abbrev pub err_term_signal_failed : String
err_term_signal_failed = "ERR_TERM_SIGNAL_FAILED"

abbrev pub err_ready_probe_failed : String
err_ready_probe_failed = "ERR_READY_PROBE_FAILED"

abbrev pub err_ready_timeout : String
err_ready_timeout = "ERR_READY_TIMEOUT"

abbrev pub err_ready_qemu_socket_timeout : String
err_ready_qemu_socket_timeout = "ERR_READY_QEMU_SOCKET_TIMEOUT"

abbrev pub err_ready_cloud_hypervisor_socket_timeout : String
err_ready_cloud_hypervisor_socket_timeout = "ERR_READY_CLOUDHYPERVISOR_SOCKET_TIMEOUT"

abbrev pub err_ready_backend_unsupported : String
err_ready_backend_unsupported = "ERR_READY_BACKEND_UNSUPPORTED"

abbrev pub err_reconcile_process_missing : String
err_reconcile_process_missing = "ERR_RECONCILE_PROCESS_MISSING"

abbrev pub err_reconcile_status_unreadable : String
err_reconcile_status_unreadable = "ERR_RECONCILE_STATUS_UNREADABLE"

abbrev pub err_recovery_execution_missing : String
err_recovery_execution_missing = "ERR_RECOVERY_EXECUTION_MISSING"

abbrev pub err_recovery_reassociation_ambiguous : String
err_recovery_reassociation_ambiguous = "ERR_RECOVERY_REASSOCIATION_AMBIGUOUS"

abbrev pub err_recovery_rehydrate_failed : String
err_recovery_rehydrate_failed = "ERR_RECOVERY_REHYDRATE_FAILED"

abbrev pub err_recovery_stale_handle : String
err_recovery_stale_handle = "ERR_RECOVERY_STALE_HANDLE"

abbrev pub recovery_confirmed : String
recovery_confirmed = "RECOVERY_CONFIRMED"

abbrev pub recovery_terminated_missing : String
recovery_terminated_missing = "RECOVERY_TERMINATED_MISSING"

abbrev pub err_orphan_possible_schedune_process : String
err_orphan_possible_schedune_process = "ERR_ORPHAN_POSSIBLE_SCHEDUNE_PROCESS"

abbrev pub err_orphan_stale_artifact_state : String
err_orphan_stale_artifact_state = "ERR_ORPHAN_STALE_ARTIFACT_STATE"

abbrev pub err_orphan_unmanaged_backend_process : String
err_orphan_unmanaged_backend_process = "ERR_ORPHAN_UNMANAGED_BACKEND_PROCESS"

-- The keys of knownReasonCodes.
unfoldable pub known_reason_codes : List String
known_reason_codes =
    cap_kvm_openable ∷ cap_kvm_missing ∷ cap_kvm_not_openable_perms ∷ cap_qemu_binary_present
    ∷ cap_qemu_binary_missing ∷ cap_qemu_unsupported_arch ∷ cap_cloud_hypervisor_binary_present
    ∷ cap_cloud_hypervisor_binary_missing ∷ cap_cloud_hypervisor_ready
    ∷ cap_cloud_hypervisor_prereqs_missing ∷ cap_firecracker_binary_present
    ∷ cap_firecracker_binary_missing ∷ cap_firecracker_tun_ready ∷ cap_firecracker_tun_missing
    ∷ cap_firecracker_cgroups_ready ∷ cap_firecracker_cgroups_missing ∷ cap_firecracker_ready
    ∷ cap_firecracker_prereqs_missing ∷ reject_architecture_mismatch
    ∷ reject_compatibility_class_mismatch ∷ reject_missing_kvm ∷ reject_missing_tpm
    ∷ reject_node_unhealthy ∷ reject_telemetry_stale ∷ reject_forbidden_constraint_prefix
    ∷ err_launch_arch_mismatch ∷ err_launch_backend_not_supported ∷ err_launch_missing_artifact
    ∷ err_launch_invalid_storage_format ∷ err_launch_invalid_firecracker_artifact_model
    ∷ err_launch_missing_capability_cloud_hypervisor ∷ err_launch_missing_capability_ch_binary
    ∷ err_launch_missing_capability_fc_binary ∷ err_launch_missing_capability_fc_tun
    ∷ err_launch_missing_capability_fc_cgroups ∷ err_launch_missing_capability_kvm_qemu
    ∷ err_launch_missing_capability_qemu_binary ∷ err_launch_missing_capability_seccomp
    ∷ err_launch_missing_capability_namespaces ∷ err_launch_unsafe_workload_id
    ∷ err_launch_runtime_version_unknown ∷ err_launch_runtime_version_unparseable
    ∷ err_launch_runtime_version_too_old ∷ err_launch_runtime_version_mismatch
    ∷ warn_deprecated_image_reference ∷ warn_deprecated_network_attachments ∷ err_preparation_failed
    ∷ err_node_not_found ∷ err_validation_failed ∷ err_exec_runtime_spawn_failed
    ∷ err_exec_runtime_crashed ∷ err_exec_runtime_exited_early ∷ err_term_signal_failed
    ∷ err_ready_probe_failed ∷ err_ready_timeout ∷ err_ready_qemu_socket_timeout
    ∷ err_ready_cloud_hypervisor_socket_timeout ∷ err_ready_backend_unsupported
    ∷ err_reconcile_process_missing ∷ err_reconcile_status_unreadable
    ∷ err_recovery_execution_missing ∷ err_recovery_reassociation_ambiguous
    ∷ err_recovery_rehydrate_failed ∷ err_recovery_stale_handle ∷ recovery_confirmed
    ∷ recovery_terminated_missing ∷ err_orphan_possible_schedune_process
    ∷ err_orphan_stale_artifact_state ∷ err_orphan_unmanaged_backend_process ∷ []

unfoldable pub is_known_reason_code : String → Bool
unfolding known_reason_codes
is_known_reason_code code = has_text code known_reason_codes
