-- ===== src/Evaluate/Checks.antt =====
-- What each check of a node does to the verdict, and all of them together (schedune-control-plane/internal/domain/evaluate.go).
use schedune.Base.{
  ◌≡◌, ◌∙◌, ap, sym, refl, String, Bool, true, false, not, ◌&&◌, ◌||◌, is_some, List, [], ◌∷◌, ◌++◌,
  ◌<>◌, is_empty, has_text, ◌==◌, eq_iff, arith, if◌then◌else◌,
}
use schedune.Base.Int64.{ℤ}
use schedune.Base.Dict.{Dict, get}
use schedune.Schema.Workload.{WorkloadIntent}
use schedune.Node.{NodeRecord, NodeConstraintRecord}
use schedune.Evaluate.{
  EligibilityResult, reject, fresh_eligibility, is_healthy, is_fresh, is_supported, check_health,
  check_freshness, check_architecture, check_compatibility, check_feature, check_forbidden,
  check_constraints, match_features, warn_alarms, evaluate,
}

-- A node is refused exactly where a code says why.
abbrev pub IsConsistent : EligibilityResult → Type 0
IsConsistent r = r.is_eligible ≡ is_empty r.hard_rejection_codes

-- None of the codes is a key of the constraints.
abbrev pub none_present : List String → Dict NodeConstraintRecord → Bool
none_present [] m = true
none_present (code ∷ codes) m = not (is_some (get code m)) && none_present codes m

not_empty : (xs : List String) (x : String) → is_empty (xs ++ x ∷ []) ≡ false
not_empty [] x = refl
not_empty (y ∷ xs) x = refl

-- What one check does with the verdict: it keeps it where the test passes, and makes it negative
-- where not.
pub record Checks (test : Bool) (r s : EligibilityResult) : Type 0 where
  pub verdict : s.is_eligible ≡ (r.is_eligible && test)
  pub consistent : IsConsistent r → IsConsistent s

health_Checks :
    (node : NodeRecord) (r : EligibilityResult) → Checks (is_healthy node) r (check_health node r)
unfolding check_health
health_Checks node r = record {
  verdict = ground arith;
  consistent = λ h. ground (arith, not_empty r.hard_rejection_codes _);
}

freshness_Checks :
    (now : ℤ) (intent : WorkloadIntent) (node : NodeRecord) (r : EligibilityResult)
    → Checks (is_fresh now intent node) r (check_freshness now intent node r)
unfolding check_freshness
freshness_Checks now intent node r = record {
  verdict = ground arith;
  consistent = λ h. ground (arith, not_empty r.hard_rejection_codes _);
}

abbrev pub architecture_ok : WorkloadIntent → NodeRecord → Bool
architecture_ok intent node =
    (intent.required_architecture == "any")
    || (intent.required_architecture == node.identity.architecture)

abbrev pub compatibility_ok : WorkloadIntent → NodeRecord → Bool
compatibility_ok intent node =
    has_text node.compatibility.class intent.required_compatibility_classes

abbrev pub feature_ok : Bool → String → NodeRecord → Bool
feature_ok required feature node =
    if required then is_supported (get feature node.capabilities) else true

architecture_Checks :
    (intent : WorkloadIntent) (node : NodeRecord) (r : EligibilityResult)
    → Checks (architecture_ok intent node) r (check_architecture intent node r)
unfolding check_architecture
architecture_Checks intent node r = record {
  verdict = ground arith;
  consistent = λ h. ground (arith, not_empty r.hard_rejection_codes _);
}

compatibility_Checks :
    (intent : WorkloadIntent) (node : NodeRecord) (r : EligibilityResult)
    → Checks (compatibility_ok intent node) r (check_compatibility intent node r)
unfolding check_compatibility
compatibility_Checks intent node r = record {
  verdict = ground arith;
  consistent = λ h. ground (arith, not_empty r.hard_rejection_codes _);
}

feature_Checks :
    (required : Bool) (feature code : String) (node : NodeRecord) (r : EligibilityResult)
    → Checks (feature_ok required feature node) r (check_feature required feature code node r)
unfolding check_feature
feature_Checks required feature code node r = record {
  verdict = ground arith;
  consistent = λ h. ground (arith, not_empty r.hard_rejection_codes _);
}

chain : (p q : Bool) (r s t : EligibilityResult) → Checks p r s → Checks q s t → Checks (p && q) r t
chain p q r s t f g = record {
  verdict = ground (arith, f.verdict, g.verdict);
  consistent = λ h. g.consistent (f.consistent h);
}

forbidden_cons :
    (code k : String) (c : NodeConstraintRecord) (m : Dict NodeConstraintRecord)
    (r : EligibilityResult)
    → ((s : EligibilityResult) → Checks (not (is_some (get code m))) s (check_forbidden code m s))
    → Checks (not (is_some (get code ((k, c) ∷ m)))) r (check_forbidden code ((k, c) ∷ m) r)
unfolding check_forbidden get
forbidden_cons code k c m r ih =
    let refused = reject ("REJECT_FORBIDDEN_CONSTRAINT_" <> k) r in
    let e = eq_iff k code in
    let e' = eq_iff code k in
    record {
      verdict = ground (arith, e, e', (ih r).verdict, (ih refused).verdict);
      consistent = λ h. ground (
        arith,
        e,
        e',
        (ih r).consistent h,
        (ih refused).consistent (sym (not_empty r.hard_rejection_codes _)),
      );
    }

forbidden_Checks :
    (code : String) (m : Dict NodeConstraintRecord) (r : EligibilityResult)
    → Checks (not (is_some (get code m))) r (check_forbidden code m r)
unfolding check_forbidden get
forbidden_Checks code [] r = record { verdict = ground arith; consistent = λ h. h }
forbidden_Checks code ((k, c) ∷ m) r = forbidden_cons code k c m r (forbidden_Checks code m)

constraints_Checks :
    (visit : Dict NodeConstraintRecord → Dict NodeConstraintRecord) (codes : List String)
    (node : NodeRecord) (r : EligibilityResult)
    → Checks (none_present codes (visit node.constraints)) r (check_constraints visit codes node r)
unfolding check_constraints
constraints_Checks visit [] node r = record { verdict = ground arith; consistent = λ h. h }
constraints_Checks visit (code ∷ codes) node r =
    chain _ _ r _ _ (forbidden_Checks code (visit node.constraints) r)
      (constraints_Checks visit codes node _)

-- What the soft part does: it adds to what was found, and keeps verdict and codes.
record Keeps (r s : EligibilityResult) : Type 0 where
  same_verdict : s.is_eligible ≡ r.is_eligible
  same_codes : s.hard_rejection_codes ≡ r.hard_rejection_codes

match_Keeps :
    (prefs : List String) (node : NodeRecord) (r : EligibilityResult)
    → Keeps r (match_features prefs node r)
unfolding match_features
match_Keeps [] node r = record { same_verdict = refl; same_codes = refl }
match_Keeps (pref ∷ prefs) node r =
    let ih = match_Keeps prefs node r in
    let ih' =
      match_Keeps prefs node (record r { matched_features = r.matched_features ++ pref ∷ [] }) in
    record {
      same_verdict = ground (arith, ih.same_verdict, ih'.same_verdict);
      same_codes = ground (arith, ih.same_codes, ih'.same_codes);
    }

alarms_Keeps : (node : NodeRecord) (r : EligibilityResult) → Keeps r (warn_alarms node r)
unfolding warn_alarms
alarms_Keeps node r = record { same_verdict = ground arith; same_codes = ground arith }

then_Keeps : (p : Bool) (r s t : EligibilityResult) → Checks p r s → Keeps s t → Checks p r t
then_Keeps p r s t f g = record {
  verdict = cc (f.verdict, g.same_verdict);
  consistent = λ h. g.same_verdict ∙ f.consistent h ∙ sym (ap is_empty g.same_codes);
}

-- The tests of all the checks.
abbrev pub passes_all :
    (Dict NodeConstraintRecord → Dict NodeConstraintRecord) → ℤ → WorkloadIntent → NodeRecord → Bool
passes_all visit now intent node =
    is_healthy node
    && (is_fresh now intent node
        && (architecture_ok intent node
            && (compatibility_ok intent node
                && (feature_ok intent.requires_kvm "kvm_vm_launch" node
                    && (feature_ok intent.requires_tpm "hardware_tpm" node
                        && none_present intent.forbidden_constraints (visit node.constraints))))))

hard_Checks :
    (visit : Dict NodeConstraintRecord → Dict NodeConstraintRecord) (now : ℤ)
    (intent : WorkloadIntent) (node : NodeRecord)
    → Checks (passes_all visit now intent node) (fresh_eligibility node.id) (
        check_constraints visit intent.forbidden_constraints node (
          check_feature intent.requires_tpm "hardware_tpm" "REJECT_MISSING_TPM" node (
            check_feature intent.requires_kvm "kvm_vm_launch" "REJECT_MISSING_KVM" node (
              check_compatibility intent node (
                check_architecture intent node (
                  check_freshness now intent node
                    (check_health node (fresh_eligibility node.id))))))))
hard_Checks visit now intent node = chain _ _ _ _ _ (health_Checks node _) (
    chain _ _ _ _ _ (freshness_Checks now intent node _) (
      chain _ _ _ _ _ (architecture_Checks intent node _) (
        chain _ _ _ _ _ (compatibility_Checks intent node _) (
          chain _ _ _ _ _ (feature_Checks intent.requires_kvm "kvm_vm_launch" _ node _) (
            chain _ _ _ _ _ (feature_Checks intent.requires_tpm "hardware_tpm" _ node _)
              (constraints_Checks visit intent.forbidden_constraints node _))))))

-- A node is eligible exactly where it passes every check.
pub evaluate-Checks :
    (visit : Dict NodeConstraintRecord → Dict NodeConstraintRecord) (now : ℤ)
    (intent : WorkloadIntent) (node : NodeRecord)
    → Checks
        (passes_all visit now intent node)
        (fresh_eligibility node.id)
        (evaluate visit now intent node)
unfolding evaluate
evaluate-Checks visit now intent node =
    then_Keeps _ _ _ _
      (then_Keeps _ _ _ _ (hard_Checks visit now intent node)
        (match_Keeps intent.preferred_features node _))
      (alarms_Keeps node _)

-- A node is eligible exactly where no code of rejection is listed.
pub evaluate-IsConsistent :
    (visit : Dict NodeConstraintRecord → Dict NodeConstraintRecord) (now : ℤ)
    (intent : WorkloadIntent) (node : NodeRecord)
    → (evaluate visit now intent node).is_eligible
      ≡ is_empty (evaluate visit now intent node).hard_rejection_codes
evaluate-IsConsistent visit now intent node =
    (evaluate-Checks visit now intent node).consistent refl
