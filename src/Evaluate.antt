-- ===== src/Evaluate.antt =====
-- schedune-control-plane/internal/domain/evaluate.go: whether a node may serve a workload.
-- `visit` stands for the order in which Go's loop over the map of constraints visits it.
pub mod Checks
pub mod Eligible
use schedune.Base.{
  ◌≡◌, String, Bool, true, false, not, ◌&&◌, ◌||◌, Option, none, some, List, [], ◌∷◌, ◌++◌, ◌<>◌,
  if◌then◌else◌, is_empty, has_text, ◌==◌,
}
use schedune.Base.Int64.{ℤ, sub64, leb_ℤ}
use schedune.Base.Dict.{Dict, get}
use schedune.Schema.Workload.{WorkloadIntent}
use schedune.Node.{NodeRecord, NodeCapabilityRecord, NodeConstraintRecord}

pub record EligibilityResult : Type 0 where
  pub node_id : String
  pub is_eligible : Bool
  pub hard_rejection_codes : List String
  pub freshness_ok : Bool
  pub compatibility_ok : Bool
  pub health_ok : Bool
  pub matched_features : List String
  pub warnings : List String

abbrev pub fresh_eligibility : String → EligibilityResult
fresh_eligibility id = record {
  node_id = id;
  is_eligible = true;
  hard_rejection_codes = [];
  freshness_ok = false;
  compatibility_ok = false;
  health_ok = false;
  matched_features = [];
  warnings = [];
}

-- `IsEligible = false`, with one more code.
abbrev pub reject : String → EligibilityResult → EligibilityResult
reject code r = record r {
  is_eligible = false;
  hard_rejection_codes = r.hard_rejection_codes ++ code ∷ [];
}

abbrev pub is_healthy : NodeRecord → Bool
is_healthy node = node.health.state == "Healthy" || node.health.state == "Warning"

unfoldable pub check_health : NodeRecord → EligibilityResult → EligibilityResult
check_health node r =
    let seen = record r { health_ok = is_healthy node } in
    if is_healthy node then seen else reject "REJECT_NODE_UNHEALTHY" seen

abbrev pub is_fresh : ℤ → WorkloadIntent → NodeRecord → Bool
is_fresh now intent node =
    leb_ℤ (sub64 now node.freshness.last_collection_time) intent.max_telemetry_age_sec
    && not node.freshness.is_stale

unfoldable pub check_freshness :
    ℤ → WorkloadIntent → NodeRecord → EligibilityResult → EligibilityResult
check_freshness now intent node r =
    let seen = record r { freshness_ok = is_fresh now intent node } in
    if is_fresh now intent node then seen else reject "REJECT_TELEMETRY_STALE" seen

unfoldable pub check_architecture :
    WorkloadIntent → NodeRecord → EligibilityResult → EligibilityResult
check_architecture intent node r =
    if not (intent.required_architecture == "any")
      && not (intent.required_architecture == node.identity.architecture)
    then reject "REJECT_ARCHITECTURE_MISMATCH" r
    else r

-- The loop over the classes stops at the first that is the node's.
unfoldable pub check_compatibility :
    WorkloadIntent → NodeRecord → EligibilityResult → EligibilityResult
check_compatibility intent node r =
    let ok = has_text node.compatibility.class intent.required_compatibility_classes in
    let seen = record r { compatibility_ok = ok } in
    if ok then seen else reject "REJECT_COMPATIBILITY_CLASS_MISMATCH" seen

-- `exists && cap.State == "Supported"`
abbrev pub is_supported : Option NodeCapabilityRecord → Bool
is_supported none = false
is_supported (some cap) = cap.state == "Supported"

-- One hard feature: the intent asks for it, and the node lacks it.
unfoldable pub check_feature :
    Bool → String → String → NodeRecord → EligibilityResult → EligibilityResult
check_feature required feature code node r =
    if required && not (is_supported (get feature node.capabilities)) then reject code r else r

unfoldable pub check_forbidden :
    String → Dict NodeConstraintRecord → EligibilityResult → EligibilityResult
check_forbidden forbidden [] r = r
check_forbidden forbidden ((code, c) ∷ m) r =
    check_forbidden forbidden m
      (if forbidden == code then reject ("REJECT_FORBIDDEN_CONSTRAINT_" <> code) r else r)

unfoldable pub check_constraints :
    (Dict NodeConstraintRecord → Dict NodeConstraintRecord)
    → List String
    → NodeRecord
    → EligibilityResult
    → EligibilityResult
check_constraints visit [] node r = r
check_constraints visit (forbidden ∷ codes) node r =
    check_constraints visit codes node (check_forbidden forbidden (visit node.constraints) r)

-- The loop over the soft preferences.
unfoldable pub match_features : List String → NodeRecord → EligibilityResult → EligibilityResult
match_features [] node r = r
match_features (pref ∷ prefs) node r = match_features prefs node (
    if is_supported (get pref node.capabilities)
    then record r { matched_features = r.matched_features ++ pref ∷ [] }
    else r)

unfoldable pub warn_alarms : NodeRecord → EligibilityResult → EligibilityResult
warn_alarms node r =
    if is_empty node.health.active_alarms
    then r
    else record r { warnings = r.warnings ++ "Node has active operational alarms" ∷ [] }

-- Evaluate, with the reading of the clock at its head.
unfoldable pub evaluate :
    (Dict NodeConstraintRecord → Dict NodeConstraintRecord)
    → ℤ
    → WorkloadIntent
    → NodeRecord
    → EligibilityResult
evaluate visit now intent node = warn_alarms node (
    match_features intent.preferred_features node (
      check_constraints visit intent.forbidden_constraints node (
        check_feature intent.requires_tpm "hardware_tpm" "REJECT_MISSING_TPM" node (
          check_feature intent.requires_kvm "kvm_vm_launch" "REJECT_MISSING_KVM" node (
            check_compatibility intent node (
              check_architecture intent node (
                check_freshness now intent node
                  (check_health node (fresh_eligibility node.id)))))))))
