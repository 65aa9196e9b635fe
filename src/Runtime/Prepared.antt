-- ===== src/Runtime/Prepared.antt =====
-- What the executors make of a launch (schedune-control-plane/internal/runtime: kvm.go,
-- cloudhypervisor.go, firecracker_validate.go).
use schedune.Base.{
  ◌≡◌, refl, String, ◌⊎◌, inl, inr, Option, none, some, ◌==◌, eq_iff, arith, Result, ok, err,
  if◌then◌else◌, ok_injective,
}
use schedune.Schema.Spec.{LaunchSpec}
use schedune.Schema.Execution.{
  PreparedLaunch, PreparedQemuLaunch, PreparedCloudHypervisorLaunch, PreparedFirecrackerLaunch,
}
use schedune.Orchestrate.Calls.{Executor}
use schedune.Runtime.{get_control_socket_path, resolve_primary_disk, resolve_firecracker_disks}
use schedune.Runtime.Executors.{
  Host, prepared_kvm, prepared_cloud_hypervisor, prepared_firecracker, with_socket, check_artifact,
  prepare_kvm, prepare_cloud_hypervisor, prepare_firecracker, kvm_executor,
  cloud_hypervisor_executor, firecracker_executor, resolve_executor,
}
use schedune.Runtime.Confined.{IsSocketOf, get_control_socket_path-IsSocketOf}

abbrev first_socket :
    Option PreparedQemuLaunch
    → Option PreparedCloudHypervisorLaunch
    → Option PreparedFirecrackerLaunch
    → String
first_socket (some p) c f = p.control_socket_path
first_socket none (some p) f = p.control_socket_path
first_socket none none (some p) = p.control_socket_path
first_socket none none none = ""

-- The control socket of a prepared launch.
abbrev pub socket_of : PreparedLaunch → String
socket_of prep = first_socket prep.kvm_qemu prep.cloud_hypervisor prep.firecracker

-- The name of a backend in the name of its control socket.
abbrev pub token_of : String → String
token_of backend =
    if backend == "kvm_qemu"
    then "qemu"
    else if backend == "cloud_hypervisor"
    then "cloudhypervisor"
    else backend

-- A launch that is prepared for a spec on a backend.
pub record IsPrepared (spec : LaunchSpec) (backend : String) (prep : PreparedLaunch) : Type 0 where
  pub same_backend : prep.runtime_backend ≡ backend
  pub same_memory : prep.memory_mb ≡ spec.memory_mb
  pub same_vcpu : prep.vcpu ≡ spec.vcpu
  pub in_runtime_dir : IsSocketOf spec.workload_id (token_of backend) (socket_of prep)

pub with_socket_lem :
    (prep : PreparedLaunch) (r : Result String) (prepared : String → PreparedLaunch)
    → with_socket r prepared ≡ ok prep
    → (socket : String) × (r ≡ ok socket) × (prepared socket ≡ prep)
with_socket_lem prep (ok socket) prepared e = (socket, refl, ok_injective e)
with_socket_lem prep (err _) prepared e = ground arith

module _ (spec : LaunchSpec) (prep : PreparedLaunch) where
  kvm-IsPrepared :
      (disk : String × String)
      → with_socket (get_control_socket_path spec.workload_id "qemu") (prepared_kvm spec disk)
        ≡ ok prep
      → IsPrepared spec "kvm_qemu" prep
  unfolding prepared_kvm
  kvm-IsPrepared disk e =
      let (socket, found, same) = with_socket_lem prep _ _ e in
      rw (← same) (record {
        same_backend = refl;
        same_memory = refl;
        same_vcpu = refl;
        in_runtime_dir = (get_control_socket_path-IsSocketOf _ "qemu" socket found).0;
      })

  cloud_hypervisor-IsPrepared :
      (artifact : String)
      → with_socket
          (get_control_socket_path spec.workload_id "cloudhypervisor")
          (prepared_cloud_hypervisor spec artifact)
        ≡ ok prep
      → IsPrepared spec "cloud_hypervisor" prep
  unfolding prepared_cloud_hypervisor
  cloud_hypervisor-IsPrepared artifact e =
      let (socket, found, same) = with_socket_lem prep _ _ e in
      rw (← same) (record {
        same_backend = refl;
        same_memory = refl;
        same_vcpu = refl;
        in_runtime_dir = (get_control_socket_path-IsSocketOf _ "cloudhypervisor" socket found).0;
      })

  firecracker-IsPrepared :
      (kernel rootfs : String)
      → with_socket
          (get_control_socket_path spec.workload_id "firecracker")
          (prepared_firecracker spec kernel rootfs)
        ≡ ok prep
      → IsPrepared spec "firecracker" prep
  unfolding prepared_firecracker
  firecracker-IsPrepared kernel rootfs e =
      let (socket, found, same) = with_socket_lem prep _ _ e in
      rw (← same) (record {
        same_backend = refl;
        same_memory = refl;
        same_vcpu = refl;
        in_runtime_dir = (get_control_socket_path-IsSocketOf _ "firecracker" socket found).0;
      })

module _ (h : Host) (spec : LaunchSpec) (prep : PreparedLaunch) where
  pub check_artifact_lem :
      (artifact : String) (next : Result PreparedLaunch)
      → check_artifact h artifact next ≡ ok prep
      → next ≡ ok prep
  unfolding check_artifact
  check_artifact_lem artifact next e = ground arith

  prepare_kvm-IsPrepared : prepare_kvm h spec ≡ ok prep → IsPrepared spec "kvm_qemu" prep
  unfolding prepare_kvm
  prepare_kvm-IsPrepared e =
      kvm-IsPrepared spec prep (resolve_primary_disk spec) (check_artifact_lem _ _ e)

  prepare_cloud_hypervisor-IsPrepared :
      prepare_cloud_hypervisor h spec ≡ ok prep → IsPrepared spec "cloud_hypervisor" prep
  unfolding prepare_cloud_hypervisor
  prepare_cloud_hypervisor-IsPrepared e =
      cloud_hypervisor-IsPrepared spec prep (resolve_primary_disk spec).0 (check_artifact_lem _ _ e)

  prepare_firecracker-IsPrepared :
      prepare_firecracker h spec ≡ ok prep → IsPrepared spec "firecracker" prep
  unfolding prepare_firecracker
  prepare_firecracker-IsPrepared e =
      let disks = resolve_firecracker_disks spec in
      firecracker-IsPrepared spec prep disks.0 disks.1 (ground arith)

resolve_executor_cases :
    (h : Host) (backend : String) (exec : Executor)
    → resolve_executor h backend ≡ ok exec
    → (backend ≡ "kvm_qemu") × (exec ≡ kvm_executor h)
      ⊎ (backend ≡ "cloud_hypervisor") × (exec ≡ cloud_hypervisor_executor h)
      ⊎ (backend ≡ "firecracker") × (exec ≡ firecracker_executor h)
unfolding resolve_executor
resolve_executor_cases h backend exec r = ground (
  arith,
  eq_iff backend "kvm_qemu",
  eq_iff backend "cloud_hypervisor",
  eq_iff backend "firecracker",
)

-- What the executor of a backend prepares is for that backend, with the memory and the processors of
-- the spec, and its control socket lies in the directory var/run/schedune/<workload id>.
pub resolve_executor-IsPrepared :
    (h : Host) (backend : String) (exec : Executor) (spec : LaunchSpec) (prep : PreparedLaunch)
    → resolve_executor h backend ≡ ok exec
    → exec.prepare spec ≡ ok prep
    → IsPrepared spec backend prep
resolve_executor-IsPrepared h backend exec spec prep r e =
    elim (resolve_executor_cases h backend exec r) [
      | inl (same, is_exec) ↦ rw same (prepare_kvm-IsPrepared h spec prep (rw is_exec at e))
      | inr (inl (same, is_exec)) ↦
          rw same (prepare_cloud_hypervisor-IsPrepared h spec prep (rw is_exec at e))
      | inr (inr (same, is_exec)) ↦
          rw same (prepare_firecracker-IsPrepared h spec prep (rw is_exec at e))
    ]
