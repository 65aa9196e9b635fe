-- ===== src/Readiness/Verdict.antt =====
-- When a launch is called ready (schedune-control-plane/internal/domain/readiness.go).
use schedune.Base.{
  ◌≡◌, ◌⊎◌, ◌↔◌, String, true, false, is_some, arith, ◌==◌, eq_iff, if◌then◌else◌, not, ◌&&◌,
}
use schedune.Base.Int64.{ℤ, pos, ltb_ℤ, ◌<ℤ◌}
use schedune.Schema.Execution.{RuntimeObservation}
use schedune.Readiness.{
  evaluate_qemu_readiness, evaluate_cloud_hypervisor_readiness, evaluate_backend_readiness,
}

-- A backend that has a readiness evaluator.
abbrev pub HasEvaluator : String → Type 0
HasEvaluator backend = (backend ≡ "kvm_qemu") ⊎ (backend ≡ "cloud_hypervisor")

-- The launch is past its deadline at the observation.
abbrev pub IsOverdue : RuntimeObservation → ℤ → Type 0
IsOverdue obs deadline = (pos 0 <ℤ deadline) × (deadline <ℤ obs.observed_at_sec)

-- What the readiness `Ready` needs, and what `Failed` needs.
abbrev pub IsReady : String → RuntimeObservation → Type 0
IsReady backend obs =
    HasEvaluator backend × (obs.process_exists ≡ true) × (obs.backend_ready_signal ≡ true)

abbrev pub HasFailed : String → RuntimeObservation → ℤ → Type 0
HasFailed backend obs deadline =
    HasEvaluator backend
    × ((obs.process_exists ≡ false) × (is_some obs.exit_code ≡ true)
        ⊎ (obs.process_exists ≡ true)
          × (obs.backend_ready_signal ≡ false)
          × (obs.startup_grace_elapsed ≡ true)
          × IsOverdue obs deadline)

-- The readiness that both evaluators find.
abbrev readiness_of : RuntimeObservation → ℤ → String
readiness_of obs deadline =
    if not obs.process_exists
    then if is_some obs.exit_code then "Failed" else "Unknown"
    else if obs.backend_ready_signal
    then "Ready"
    else if not obs.startup_grace_elapsed
    then "InProgress"
    else if ltb_ℤ (pos 0) deadline && ltb_ℤ deadline obs.observed_at_sec
    then "Failed"
    else "InProgress"

qemu_lem :
    (obs : RuntimeObservation) (deadline : ℤ)
    → (evaluate_qemu_readiness obs deadline).readiness ≡ readiness_of obs deadline
unfolding evaluate_qemu_readiness
qemu_lem obs deadline = ground arith

cloud_hypervisor_lem :
    (obs : RuntimeObservation) (deadline : ℤ)
    → (evaluate_cloud_hypervisor_readiness obs deadline).readiness ≡ readiness_of obs deadline
unfolding evaluate_cloud_hypervisor_readiness
cloud_hypervisor_lem obs deadline = ground arith

backend_lem :
    (backend : String) (obs : RuntimeObservation) (deadline : ℤ)
    → (evaluate_backend_readiness backend obs deadline).readiness ≡ (
        if backend == "kvm_qemu"
        then readiness_of obs deadline
        else if backend == "cloud_hypervisor"
        then readiness_of obs deadline
        else "Unknown")
unfolding evaluate_backend_readiness
backend_lem backend obs deadline =
    ground (arith, qemu_lem obs deadline, cloud_hypervisor_lem obs deadline)

-- A launch is ready exactly where its backend has an evaluator and its process is there and signals
-- readiness, however late; it has failed exactly where the process has exited with a code, or is there
-- without the signal after the grace time and the deadline.
pub evaluate_backend_readiness_iff :
    (backend : String) (obs : RuntimeObservation) (deadline : ℤ)
    → (((evaluate_backend_readiness backend obs deadline).readiness ≡ "Ready")
        ↔ IsReady backend obs)
      × (((evaluate_backend_readiness backend obs deadline).readiness ≡ "Failed")
          ↔ HasFailed backend obs deadline)
evaluate_backend_readiness_iff backend obs deadline = rw (backend_lem backend obs deadline) (
    ground (
      arith,
      eq_iff backend "kvm_qemu",
      eq_iff backend "cloud_hypervisor",
      eq_iff "Unknown" "Ready",
      eq_iff "InProgress" "Ready",
      eq_iff "Failed" "Ready",
      eq_iff "Unknown" "Failed",
      eq_iff "InProgress" "Failed",
      eq_iff "Ready" "Failed",
    ))
