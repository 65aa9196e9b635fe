-- ===== src/Readiness.antt =====
-- schedune-control-plane/internal/domain/readiness.go: what an observation says of the readiness of a
-- launch.
pub mod Verdict
use schedune.Base.{
  ◌≡◌, String, Bool, true, false, not, ◌&&◌, Option, none, some, ◌<>◌, if◌then◌else◌, is_some, ◌==◌,
}
use schedune.Base.Int64.{ℤ, pos, ltb_ℤ}
use schedune.Schema.Execution.{RuntimeObservation}

pub record ReadinessDecision : Type 0 where
  pub liveness : String
  pub readiness : String
  pub reason_code : String
  pub message : String

abbrev pub decision : String → String → String → String → ReadinessDecision
decision liveness readiness code msg = record {
  liveness = liveness;
  readiness = readiness;
  reason_code = code;
  message = msg;
}

-- EvaluateQemuReadiness; its first parameter, the state, is not read.
unfoldable pub evaluate_qemu_readiness : RuntimeObservation → ℤ → ReadinessDecision
evaluate_qemu_readiness obs deadline =
    if not obs.process_exists
    then if is_some obs.exit_code
      then decision "Dead" "Failed" "ERR_EXEC_RUNTIME_EXITED_EARLY"
          "qemu process exited before readiness"
      else decision "Unknown" "Unknown" "ERR_RECONCILE_PROCESS_MISSING"
          "qemu process missing during readiness evaluation"
    else if obs.backend_ready_signal
    then decision "Alive" "Ready" ""
        ("qemu readiness signal observed via " <> obs.backend_signal_source)
    else if not obs.startup_grace_elapsed
    then decision "Alive" "InProgress" "" "qemu startup grace window still active"
    else if ltb_ℤ (pos 0) deadline && ltb_ℤ deadline obs.observed_at_sec
    then decision "Alive" "Failed" "ERR_READY_QEMU_SOCKET_TIMEOUT"
        "qemu readiness socket did not appear before timeout"
    else decision "Alive" "InProgress" "" "qemu process alive but readiness signal not yet observed"

-- EvaluateCloudHypervisorReadiness
unfoldable pub evaluate_cloud_hypervisor_readiness : RuntimeObservation → ℤ → ReadinessDecision
evaluate_cloud_hypervisor_readiness obs deadline =
    if not obs.process_exists
    then if is_some obs.exit_code
      then decision "Dead" "Failed" "ERR_EXEC_RUNTIME_EXITED_EARLY"
          "cloud hypervisor process exited before readiness"
      else decision "Unknown" "Unknown" "ERR_RECONCILE_PROCESS_MISSING"
          "cloud hypervisor process missing during readiness evaluation"
    else if obs.backend_ready_signal
    then decision "Alive" "Ready" ""
        ("cloud hypervisor readiness signal observed via " <> obs.backend_signal_source)
    else if not obs.startup_grace_elapsed
    then decision "Alive" "InProgress" "" "cloud hypervisor startup grace window still active"
    else if ltb_ℤ (pos 0) deadline && ltb_ℤ deadline obs.observed_at_sec
    then decision "Alive" "Failed" "ERR_READY_CLOUDHYPERVISOR_SOCKET_TIMEOUT"
        "cloud hypervisor API socket did not appear before timeout"
    else decision "Alive" "InProgress" ""
        "cloud hypervisor process alive but readiness signal not yet observed"

-- EvaluateBackendReadiness
unfoldable pub evaluate_backend_readiness : String → RuntimeObservation → ℤ → ReadinessDecision
evaluate_backend_readiness backend obs deadline =
    if backend == "kvm_qemu"
    then evaluate_qemu_readiness obs deadline
    else if backend == "cloud_hypervisor"
    then evaluate_cloud_hypervisor_readiness obs deadline
    else decision "Unknown" "Unknown" "ERR_READY_BACKEND_UNSUPPORTED"
        ("no readiness evaluator available for backend " <> backend)
