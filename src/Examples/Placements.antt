-- ===== src/Examples/Placements.antt =====
-- Theorems on versions, nodes, schedules and plans, at concrete inputs.
use mathlib.Core.List.{Perm}
use schedune.Base.{
  ◌≡◌, ◌≢◌, ◌⊎◌, ◌↔◌, refl, ℕ, String, true, false, not, none, some, List, [], ◌∷◌, is_empty,
  keep_if, map, codes, arith,
}
use schedune.Base.Int64.{pos, negsuc, sub64, wrap, ◌-ℤ◌}
use schedune.Schema.Spec.{RuntimeVersionRequirement}
use schedune.Schema.Envelope.{SchedulerEnvelope}
use schedune.Node.{
  NodeRecord, project_envelope, project_capabilities, project_constraints, project_age,
  project_collectors,
}
use schedune.Node.Projection.{finds_stale, project_envelope-is_stale}
use schedune.Version.{
  digits_value, ParsedVersion, parse_version, compare_versions, check_version_requirement,
}
use schedune.Version.Order.{IsEarlier, compare_versions_iff}
use schedune.Version.Requirement.{Meets, check_version_requirement_iff}
use schedune.Version.Parsing.{parse_version_lem}
use schedune.Evaluate.{evaluate}
use schedune.Evaluate.Eligible.{IsEligible, evaluate_iff}
use schedune.Schedule.{schedule_v0}
use schedune.Schedule.Ranking.{
  assessed, is_chosen, is_rejected, eligibility_of, IsRanked, schedule_v0-Perm,
  schedule_v0-IsRanked,
}
use schedune.Schedule.Selected.{IsSelected, schedule_v0-IsSelected}
use schedune.Examples.Data.{node_a, node_b, intent}

abbrev version : ℕ → ℕ → ℕ → ParsedVersion
version a b c = record { major = a; minor = b; patch = c }

compare_versions_iff_example :
    ((compare_versions (version 8 2 1) (version 8 10 0) ≡ negsuc 0)
      ↔ IsEarlier (version 8 2 1) (version 8 10 0))
    × ((compare_versions (version 8 2 1) (version 8 10 0) ≡ pos 1)
        ↔ IsEarlier (version 8 10 0) (version 8 2 1))
    × ((compare_versions (version 8 2 1) (version 8 10 0) ≡ pos 0)
        ↔ (version 8 2 1 ≡ version 8 10 0))
compare_versions_iff_example = compare_versions_iff (version 8 2 1) (version 8 10 0)

abbrev observed : String
observed = "QEMU emulator version 8.2.1"

abbrev at_least_8 : RuntimeVersionRequirement
at_least_8 = record { minimum_version = "8.0.0"; exact_version = "" }

check_version_requirement_iff_example :
    (check_version_requirement observed (some at_least_8) ≡ none) ↔ (
      (at_least_8.minimum_version ≡ "") × (at_least_8.exact_version ≡ "")
      ⊎ (observed ≢ "") × Meets observed at_least_8)
check_version_requirement_iff_example = check_version_requirement_iff observed at_least_8

parse_version_lem_example : parse_version "v8.2.10 (Debian)" ≡ some (version 8 2 10)
unfolding digits_value
parse_version_lem_example =
    parse_version_lem "v8.2.10 (Debian)" (codes "v") (codes "8") (codes "2") (codes "10")
      (codes " (Debian)") refl (ground arith) (ground arith) (ground arith) (ground arith) refl refl
      refl (ground arith) (omega arith) (omega arith) (omega arith)

abbrev report : SchedulerEnvelope
report = record {
  schema_version = "v1alpha1";
  agent_version = "1";
  collection_id = "c1";
  timestamp_sec = pos 1000;
  node_id = "node-a";
  compatibility = record { class = "ArmProduction"; reason_codes = [] };
  facts = record {
    cpu = record { architecture = "x86_64"; cores = pos 8; vendor_id = "v" };
    memory = record { total_mb = pos 16384 };
    os = record { hostname = "a"; name = "linux"; kernel_version = "6" };
  };
  capabilities = [];
  constraints = [];
  health = record { state = "Healthy"; active_alarms = [] };
  collector_statuses =
      record { collector_name = "cpu"; success = false; duration_ms = pos 3; error_message = none }
      ∷ [];
}

abbrev reported : NodeRecord
reported = record node_a {
  identity = record {
    hostname = "a";
    architecture = "x86_64";
    total_cores = pos 8;
    total_memory_mb = pos 16384;
  };
  capabilities = [];
  freshness = record {
    last_collection_id = "c1";
    last_collection_time = pos 1000;
    is_stale = true;
    stale_collectors = "cpu" ∷ [];
  };
}

project_envelope-is_stale_example :
    (reported.freshness.is_stale ≡ finds_stale (pos 1010) report)
    × (reported.freshness.is_stale ≡ not (is_empty reported.freshness.stale_collectors))
unfolding project_envelope project_capabilities project_constraints project_age sub64 wrap ◌-ℤ◌
    project_collectors
project_envelope-is_stale_example = project_envelope-is_stale (pos 1010) report reported refl

abbrev both_nodes : List NodeRecord
both_nodes = node_b ∷ node_a ∷ []

evaluate_iff_example :
    ((evaluate (λ m. m) (pos 1010) intent node_a).is_eligible ≡ true)
    ↔ IsEligible (pos 1010) intent node_a
evaluate_iff_example = evaluate_iff (λ m. m) (pos 1010) intent node_a (λ m k. refl)

schedule_v0-Perm_example :
    Perm
      (schedule_v0 (λ m. m) (λ i. pos 1010) (pos 1010) intent both_nodes).ranked_nodes
      (keep_if is_chosen (assessed (λ m. m) (λ i. pos 1010) (pos 1010) intent 0 both_nodes))
    × ((schedule_v0 (λ m. m) (λ i. pos 1010) (pos 1010) intent both_nodes).rejected_nodes
        ≡ map eligibility_of (
            keep_if is_rejected (assessed (λ m. m) (λ i. pos 1010) (pos 1010) intent 0 both_nodes)))
schedule_v0-Perm_example = schedule_v0-Perm (λ m. m) (λ i. pos 1010) (pos 1010) intent both_nodes

schedule_v0-IsRanked_example :
    IsRanked (schedule_v0 (λ m. m) (λ i. pos 1010) (pos 1010) intent both_nodes).ranked_nodes
schedule_v0-IsRanked_example =
    schedule_v0-IsRanked (λ m. m) (λ i. pos 1010) (pos 1010) intent both_nodes

schedule_v0-IsSelected_example :
    IsSelected
      (schedule_v0 (λ m. m) (λ i. pos 1010) (pos 1010) intent both_nodes).selected_node
      (assessed (λ m. m) (λ i. pos 1010) (pos 1010) intent 0 both_nodes)
schedule_v0-IsSelected_example =
    schedule_v0-IsSelected (λ m. m) (λ i. pos 1010) (pos 1010) intent both_nodes
