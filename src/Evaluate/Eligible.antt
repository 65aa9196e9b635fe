-- ===== src/Evaluate/Eligible.antt =====
-- What makes a node eligible (schedune-control-plane/internal/domain/evaluate.go).
use schedune.Base.{
  ◌≡◌, ◌⊎◌, ◌↔◌, refl, String, true, false, none, List, [], ◌∷◌, has_text, All, In, eq_iff, arith,
  Option-cases,
}
use schedune.Base.Int64.{ℤ, sub64, ◌≤ℤ◌}
use schedune.Base.Dict.{Dict, get}
use schedune.Schema.Workload.{WorkloadIntent}
use schedune.Node.{NodeRecord, NodeConstraintRecord}
use schedune.Evaluate.Checks.{evaluate-Checks, none_present}
use schedune.Evaluate.{is_supported, evaluate}

-- An order of visit leaves the map what it is.
abbrev pub KeepsMap : (Dict NodeConstraintRecord → Dict NodeConstraintRecord) → Type 0
KeepsMap visit = (m : Dict NodeConstraintRecord) (k : String) → get k (visit m) ≡ get k m

-- The node has the feature in the state Supported.
abbrev pub Supports : String → NodeRecord → Type 0
Supports feature node = is_supported (get feature node.capabilities) ≡ true

-- What the workload asks of the node.
pub record IsEligible (now : ℤ) (intent : WorkloadIntent) (node : NodeRecord) : Type 0 where
  pub healthy : (node.health.state ≡ "Healthy") ⊎ (node.health.state ≡ "Warning")
  pub fresh : sub64 now node.freshness.last_collection_time ≤ℤ intent.max_telemetry_age_sec
  pub not_stale : node.freshness.is_stale ≡ false
  pub architecture :
      (intent.required_architecture ≡ "any")
      ⊎ (intent.required_architecture ≡ node.identity.architecture)
  pub compatible : In node.compatibility.class intent.required_compatibility_classes
  pub kvm : intent.requires_kvm ≡ true → Supports "kvm_vm_launch" node
  pub tpm : intent.requires_tpm ≡ true → Supports "hardware_tpm" node
  pub unconstrained : All (λ code. get code node.constraints ≡ none) intent.forbidden_constraints

none_present_iff :
    (visit : Dict NodeConstraintRecord → Dict NodeConstraintRecord)
    → KeepsMap visit
    → (codes : List String) (m : Dict NodeConstraintRecord)
    → (none_present codes (visit m) ≡ true) ↔ All (λ code. get code m ≡ none) codes
none_present_iff visit keeps [] m = (λ h. tt, λ h. refl)
none_present_iff visit keeps (code ∷ codes) m =
    let ih = none_present_iff visit keeps codes m in
    ground (arith, keeps m code, ih, Option-cases (get code m))

has_text_iff : (s : String) (xs : List String) → (has_text s xs ≡ true) ↔ In s xs
has_text_iff s [] = ground arith
has_text_iff s (x ∷ xs) = let ih = has_text_iff s xs in ground (arith, eq_iff x s, ih)

-- For an order of visit that keeps what the map of constraints answers, Evaluate calls a node eligible
-- exactly where the node is what the workload asks for.
pub evaluate_iff :
    (visit : Dict NodeConstraintRecord → Dict NodeConstraintRecord) (now : ℤ)
    (intent : WorkloadIntent) (node : NodeRecord)
    → KeepsMap visit
    → ((evaluate visit now intent node).is_eligible ≡ true) ↔ IsEligible now intent node
evaluate_iff visit now intent node keeps =
    let verdict = (evaluate-Checks visit now intent node).verdict in
    let free = none_present_iff visit keeps intent.forbidden_constraints node.constraints in
    let class_ok = has_text_iff node.compatibility.class intent.required_compatibility_classes in
    let e1 = eq_iff node.health.state "Healthy" in
    let e2 = eq_iff node.health.state "Warning" in
    let e3 = eq_iff intent.required_architecture "any" in
    let e4 = eq_iff intent.required_architecture node.identity.architecture in
    (
      λ h. record {
        healthy = ground arith;
        fresh = ground arith;
        not_stale = ground arith;
        architecture = ground arith;
        compatible = ground arith;
        kvm = ground arith;
        tpm = ground arith;
        unconstrained = ground arith;
      },
      λ h. ground (
        arith, h.healthy, h.fresh, h.not_stale, h.architecture, h.compatible, h.kvm, h.tpm,
        h.unconstrained,
      ),
    )
