-- ===== src/Examples/Launches.antt =====
-- Theorems on backends, validation, launches and recovered processes, at concrete inputs.
use schedune.Base.{
  ◌≡◌, ◌≢◌, ◌⊎◌, inl, ◌↔◌, refl, String, true, false, none, some, List, [], ◌∷◌, arith, ◌==◌,
  eq_iff,
}
use schedune.Base.Int64.{pos}
use schedune.Schema.Execution.{LaunchExecutionRecord, running}
use schedune.Base.Dict.{get}
use schedune.Version.{check_version_requirement}
use schedune.Select.Refusals.{
  kvm_qemu_refusal, cap_refusal, version_refusal, storage_refusal, normalize_storage,
}
use schedune.Select.{candidates, select_backend, select_virtual_machine, select_from, backend_round}
use schedune.Select.Choice.{IsFirstRunnable, CanRun, select_backend-first, select_backend-CanRun}
use schedune.Select.Evidence.{backends_of, SplitsAt, select_backend-evidence}
use schedune.Validate.{validate_launch}
use schedune.Validate.Verdict.{seccomp_ok, validate_launch_iff, validate_launch-CanRun}
use schedune.Orchestrate.{start_launch, terminate_found}
use schedune.Orchestrate.Spawned.{Ends}
use schedune.Orchestrate.Started.{start_launch-Ends}
use schedune.Orchestrate.Ended.{Ended, terminate_found-Ended}
use schedune.Recovery.{decide_match, collect_matches, match_enumerated_process_to_execution}
use schedune.Recovery.Matching.{
  IsMatch, match_enumerated_process_to_execution-IsMatch,
  match_enumerated_process_to_execution_of_IsMatch,
}
use schedune.Store.{new_in_memory_store, get_execution, get_node}
use schedune.Store.Contents.{Write, of_execution, write_all, write_all_lem}
use schedune.Examples.Data.{node_a, vm_spec, started_execution, in_state, services, process}

select_backend-first_example :
    IsFirstRunnable vm_spec node_a ("kvm_qemu" ∷ []) (select_backend vm_spec node_a).0
unfolding candidates
select_backend-first_example = select_backend-first vm_spec node_a ("kvm_qemu" ∷ []) refl refl

selects_qemu : (select_backend vm_spec node_a).0 ≡ "kvm_qemu"
unfolding select_backend select_virtual_machine candidates select_from backend_round
    kvm_qemu_refusal cap_refusal get version_refusal check_version_requirement storage_refusal
    normalize_storage
selects_qemu = refl

is_not : (s t : String) → (s == t) ≡ false → s ≢ t
is_not s t h = λ e. ground (arith, eq_iff s t, h, e)

selects_some : (select_backend vm_spec node_a).0 ≢ ""
selects_some = rw selects_qemu (is_not "kvm_qemu" "" refl)

is_valid_on_a : (validate_launch (λ m. m) (λ m. m) vm_spec node_a).is_valid ≡ true
is_valid_on_a =
    (validate_launch_iff (λ m. m) (λ m. m) vm_spec node_a).1
      (refl, refl, selects_some, inl (rw selects_qemu (is_not "kvm_qemu" "firecracker" refl)))

select_backend-CanRun_example : CanRun vm_spec node_a (select_backend vm_spec node_a).0
select_backend-CanRun_example = select_backend-CanRun vm_spec node_a selects_some

select_backend-evidence_example :
    SplitsAt
      (backends_of (select_backend vm_spec node_a).1.evidence)
      ("kvm_qemu" ∷ [])
      (select_backend vm_spec node_a).0
unfolding candidates
select_backend-evidence_example = select_backend-evidence vm_spec node_a ("kvm_qemu" ∷ []) refl refl

validate_launch_iff_example :
    ((validate_launch (λ m. m) (λ m. m) vm_spec node_a).is_valid ≡ true) ↔ (
      (vm_spec.architecture ≡ node_a.identity.architecture)
      × (seccomp_ok none node_a ≡ true)
      × ((select_backend vm_spec node_a).0 ≢ "")
      × ((select_backend vm_spec node_a).0 ≢ "firecracker" ⊎ vm_spec.launch_mode ≢ "Execute"))
validate_launch_iff_example = validate_launch_iff (λ m. m) (λ m. m) vm_spec node_a

validate_launch-CanRun_example :
    CanRun vm_spec node_a (validate_launch (λ m. m) (λ m. m) vm_spec node_a).selected_backend
validate_launch-CanRun_example =
    validate_launch-CanRun (λ m. m) (λ m. m) vm_spec node_a is_valid_on_a

start_launch-Ends_example : Ends services vm_spec (start_launch services vm_spec)
start_launch-Ends_example = start_launch-Ends services vm_spec

terminate_found-Ended_example :
    Ended services
      (in_state running)
      (terminate_found services (in_state running)).0
      (terminate_found services (in_state running)).1
terminate_found-Ended_example =
    terminate_found-Ended services (in_state running) (λ x h. ground arith)

abbrev other_execution : LaunchExecutionRecord
other_execution = record started_execution { execution_id = "e2"; pid = some (pos 43) }

match_enumerated_process_to_execution-IsMatch_example :
    (ex : LaunchExecutionRecord) × (ex.execution_id
      ≡ (match_enumerated_process_to_execution process
          (other_execution ∷ started_execution ∷ [])).execution_id)
    × IsMatch process (other_execution ∷ started_execution ∷ []) ex
unfolding match_enumerated_process_to_execution decide_match collect_matches
match_enumerated_process_to_execution-IsMatch_example =
    match_enumerated_process_to_execution-IsMatch process (other_execution ∷ started_execution ∷ [])
      refl

match_enumerated_process_to_execution_of_IsMatch_example :
    ((match_enumerated_process_to_execution process
        (other_execution ∷ started_execution ∷ [])).matched
      ≡ true)
    × ((match_enumerated_process_to_execution process
          (other_execution ∷ started_execution ∷ [])).execution_id
        ≡ "e1")
match_enumerated_process_to_execution_of_IsMatch_example =
    match_enumerated_process_to_execution_of_IsMatch process
      (other_execution ∷ started_execution ∷ []) started_execution (inl refl)

abbrev writes : List Write
writes = of_execution started_execution ∷ of_execution other_execution ∷ []

write_all_lem_example :
    (get_execution "e1" (write_all writes new_in_memory_store) ≡ some started_execution)
    × (get_node "e1" (write_all writes new_in_memory_store) ≡ none)
write_all_lem_example = write_all_lem "e1" writes
