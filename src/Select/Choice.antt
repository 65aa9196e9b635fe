-- ===== src/Select/Choice.antt =====
-- Which backend SelectBackend chooses, and what it records of the others
-- (schedune-control-plane/internal/domain/runtime_select.go).
use schedune.Base.{
  ◌≡◌, ◌≢◌, ◌⊎◌, inl, inr, ap, refl, String, true, false, Bool-cases, some, Option-cases, List, [],
  ◌∷◌, ◌==◌, eq_iff, arith,
}
use schedune.Schema.Spec.{LaunchSpec}
use schedune.Node.{NodeRecord}
use schedune.Select.Refusals.{firecracker_refusal}
use schedune.Select.{
  Rejections, no_rejections, reject, Round, chosen, refused, skipped, backend_round, candidates,
  select_from, select_micro_vm, select_virtual_machine, select_backend,
}
use schedune.Select.Runnable.{
  CanRunVm, CanRunMicroVm, firecracker_refusal_iff, cloud_hypervisor_refusal_iff,
  kvm_qemu_refusal_iff,
}

-- The node can run the virtual machine on the named backend.
abbrev pub CanRunOn : LaunchSpec → NodeRecord → String → Type 0
CanRunOn spec node b =
    (b ≡ "cloud_hypervisor") × CanRunVm "cloud_hypervisor_binary_present" spec node
    ⊎ (b ≡ "kvm_qemu") × CanRunVm "qemu_binary_present" spec node

-- The result is the first backend of the list on which the node can run the virtual machine, and
-- empty if there is none.
abbrev pub IsFirstRunnable : LaunchSpec → NodeRecord → List String → String → Type 0
IsFirstRunnable spec node [] b = b ≡ ""
IsFirstRunnable spec node (c ∷ cs) b =
    CanRunOn spec node c × (b ≡ c) ⊎ (¬ CanRunOn spec node c) × IsFirstRunnable spec node cs b

round_chosen :
    (spec : LaunchSpec) (node : NodeRecord) (b : String)
    → backend_round spec node b ≡ chosen
    → CanRunOn spec node b
unfolding backend_round
round_chosen spec node b h = elim (Bool-cases (b == "cloud_hypervisor")) [
  | inl y ↦
      inl (
        (eq_iff b "cloud_hypervisor").0 y,
        (cloud_hypervisor_refusal_iff spec node).0 (ground arith),
      )
  | inr n ↦ elim (Bool-cases (b == "kvm_qemu")) [
    | inl y ↦ inr ((eq_iff b "kvm_qemu").0 y, (kvm_qemu_refusal_iff spec node).0 (ground arith))
    | inr n' ↦ absurd (ground arith)
  ]
]

chosen_of :
    (spec : LaunchSpec) (node : NodeRecord) (b : String)
    → CanRunOn spec node b
    → backend_round spec node b ≡ chosen
unfolding backend_round
chosen_of spec node b (inl (e, can)) =
    let pass = (cloud_hypervisor_refusal_iff spec node).1 can in
    ground (arith, eq_iff b "cloud_hypervisor")
chosen_of spec node b (inr (e, can)) =
    let pass = (kvm_qemu_refusal_iff spec node).1 can in rw (e, pass)

first_cons :
    (spec : LaunchSpec) (node : NodeRecord) (b : String) (bs : List String) (st : Rejections)
    → ((st' : Rejections) → IsFirstRunnable spec node bs (select_from spec node bs st').0)
    → (r : Round) → backend_round spec node b ≡ r
    → IsFirstRunnable spec node (b ∷ bs) (select_from spec node (b ∷ bs) st).0
unfolding select_from
first_cons spec node b bs st ih chosen e = inl (round_chosen spec node b e, rw (e, select_from))
first_cons spec node b bs st ih (refused r) e =
    inr (λ can. let c = chosen_of spec node b can in cc, rw (e, select_from) (ih (reject b r st)))
first_cons spec node b bs st ih skipped e =
    inr (λ can. let c = chosen_of spec node b can in cc, rw (e, select_from) (ih st))

select_from-first :
    (spec : LaunchSpec) (node : NodeRecord) (bs : List String) (st : Rejections)
    → IsFirstRunnable spec node bs (select_from spec node bs st).0
unfolding select_from
select_from-first spec node [] st = refl
select_from-first spec node (b ∷ bs) st =
    first_cons spec node b bs st (select_from-first spec node bs) (backend_round spec node b) refl

pub of_virtual_machine :
    (spec : LaunchSpec) (node : NodeRecord)
    → spec.runtime_class ≡ "VirtualMachine"
    → select_backend spec node ≡ select_virtual_machine spec node
unfolding select_backend
of_virtual_machine spec node h =
    let not_micro : (spec.runtime_class == "MicroVM") ≡ false = ap (λ s. s == "MicroVM") h in
    let vm : (spec.runtime_class == "VirtualMachine") ≡ true = ap (λ s. s == "VirtualMachine") h in
    rw (not_micro, vm)

pub of_candidates :
    (spec : LaunchSpec) (node : NodeRecord) (bs : List String)
    → candidates spec ≡ some bs
    → select_virtual_machine spec node ≡ select_from spec node bs no_rejections
unfolding select_virtual_machine
of_candidates spec node bs h = rw (h, select_virtual_machine)

-- For a virtual machine the chosen backend is the first of the candidates on which the node can run
-- it, and empty exactly where there is none.
pub select_backend-first :
    (spec : LaunchSpec) (node : NodeRecord) (bs : List String)
    → spec.runtime_class ≡ "VirtualMachine"
    → candidates spec ≡ some bs
    → IsFirstRunnable spec node bs (select_backend spec node).0
select_backend-first spec node bs hc hb =
    rw (of_virtual_machine spec node hc, of_candidates spec node bs hb)
      (select_from-first spec node bs no_rejections)

runs_of_first :
    (spec : LaunchSpec) (node : NodeRecord) (bs : List String) (b : String)
    → IsFirstRunnable spec node bs b
    → b ≢ ""
    → CanRunOn spec node b
runs_of_first spec node [] b h ne = absurd (ne h)
runs_of_first spec node (c ∷ cs) b (inl (can, e)) ne = rw e can
runs_of_first spec node (c ∷ cs) b (inr (_, h)) ne = runs_of_first spec node cs b h ne

-- The node can run the spec on the backend.
abbrev pub CanRun : LaunchSpec → NodeRecord → String → Type 0
CanRun spec node b =
    (spec.runtime_class ≡ "MicroVM") × (b ≡ "firecracker") × CanRunMicroVm spec node
    ⊎ (spec.runtime_class ≡ "VirtualMachine") × CanRunOn spec node b

micro_vm_runs :
    (spec : LaunchSpec) (node : NodeRecord)
    → (select_micro_vm spec node).0 ≢ ""
    → ((select_micro_vm spec node).0 ≡ "firecracker") × CanRunMicroVm spec node
unfolding select_micro_vm
micro_vm_runs spec node ne = elim (Option-cases (firecracker_refusal spec node)) [
  | inl pass ↦ (rw (pass, select_micro_vm), (firecracker_refusal_iff spec node).0 pass)
  | inr (r, fails) ↦ absurd (ne (rw (fails, select_micro_vm)))
]

virtual_machine_runs :
    (spec : LaunchSpec) (node : NodeRecord)
    → (select_virtual_machine spec node).0 ≢ ""
    → CanRunOn spec node (select_virtual_machine spec node).0
unfolding select_virtual_machine
virtual_machine_runs spec node ne = elim (Option-cases (candidates spec)) [
  | inl none_known ↦ absurd (ne (rw (none_known, select_virtual_machine)))
  | inr (bs, known) ↦
      let same = of_candidates spec node bs known in
      rw same (
        runs_of_first spec node bs _ (select_from-first spec node bs no_rejections) (rw same at ne))
]

-- A backend that is chosen is one on which the node can run the spec.
pub select_backend-CanRun :
    (spec : LaunchSpec) (node : NodeRecord)
    → (select_backend spec node).0 ≢ ""
    → CanRun spec node (select_backend spec node).0
unfolding select_backend
select_backend-CanRun spec node ne = elim (Bool-cases (spec.runtime_class == "MicroVM")) [
  | inl micro ↦
      let (same, can) = micro_vm_runs spec node (rw micro at ne) in
      rw micro (inl ((eq_iff _ _).0 micro, same, can))
  | inr not_micro ↦ elim (Bool-cases (spec.runtime_class == "VirtualMachine")) [
    | inl vm ↦
        rw (not_micro, vm)
          (inr ((eq_iff _ _).0 vm, virtual_machine_runs spec node (rw (not_micro, vm) at ne)))
    | inr other ↦ absurd (ne (rw (not_micro, other)))
  ]
]
