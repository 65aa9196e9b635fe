-- ===== src/Plan/Ready.antt =====
-- When a launch plan is ready, and what it then holds
-- (schedune-control-plane/internal/domain/plan_launch.go).
use schedune.Base.{
  ◌≡◌, ◌⊎◌, not, ◌&&◌, inl, inr, ◌↔◌, refl, ℕ, String, true, false, Option, none, some, List, [],
  ◌∷◌, ◌==◌, eq_iff, arith, Bool-cases, Option-cases,
}
use schedune.Base.Int64.{ℤ}
use schedune.Base.Dict.{Dict}
use schedune.Schema.Workload.{WorkloadIntent}
use schedune.Schema.Plan.{
  LaunchTemplateSpec, EligibilityEvidence, ready, plan_rejected, conflict, submit_launch,
  LaunchPlanResult,
}
use schedune.Node.{NodeRecord, NodeConstraintRecord}
use schedune.Schedule.{schedule_v0}
use schedune.Plan.{fresh_plan, mismatch, hydrate, plan_on, build_launch_plan}

-- The intent and the template speak of the same workload.
pub record Agrees (intent : WorkloadIntent) (template : LaunchTemplateSpec) : Type 0 where
  pub workload : intent.workload_id ≡ template.workload_id
  pub tenant : intent.tenant_id ≡ template.tenant_id
  pub runtime : intent.runtime_class ≡ template.runtime_class
  pub architecture :
      (intent.required_architecture ≡ "any")
      ⊎ (intent.required_architecture ≡ template.architecture)

mismatch_iff :
    (intent : WorkloadIntent) (template : LaunchTemplateSpec)
    → (mismatch intent template ≡ none) ↔ Agrees intent template
unfolding mismatch
mismatch_iff intent template =
    let e1 = eq_iff intent.workload_id template.workload_id in
    let e2 = eq_iff intent.tenant_id template.tenant_id in
    let e3 = eq_iff intent.runtime_class template.runtime_class in
    let e4 = eq_iff intent.required_architecture "any" in
    let e5 = eq_iff intent.required_architecture template.architecture in
    (
      λ h. record {
        workload = ground arith;
        tenant = ground arith;
        runtime = ground arith;
        architecture = ground arith;
      },
      λ h. ground (arith, h.workload, h.tenant, h.runtime, h.architecture),
    )

-- A node asked for is the selected one, or none is asked for.
abbrev pub Accepts : String → String → Type 0
Accepts asked selected = (asked ≡ "") ⊎ (asked ≡ selected)

-- The plan of a launch on the node, as it is ready.
pub record IsReadyOn (intent : WorkloadIntent) (template : LaunchTemplateSpec) (mode : String)
    (selected : String) (r : LaunchPlanResult) : Type 0 where
  pub status_ready : r.status ≡ ready
  pub on_selected : r.selected_node ≡ some selected
  pub spec_planned : r.planned_launch_spec ≡ some (hydrate intent template mode selected)
  pub submit : r.next_actions ≡ submit_launch ∷ []

-- The plan holds no node and no spec.
pub record HasNothing (r : LaunchPlanResult) : Type 0 where
  pub no_node : r.selected_node ≡ none
  pub no_spec : r.planned_launch_spec ≡ none

-- What a plan is, by its status.
pub data Outcome (intent : WorkloadIntent) (template : LaunchTemplateSpec) (mode target : String)
    (scheduled : Option String) (r : LaunchPlanResult) : Type 0 where
  is_ready :
      (selected : String)
      → Agrees intent template
      → scheduled ≡ some selected
      → Accepts target selected
      → Accepts template.node_id selected
      → IsReadyOn intent template mode selected r
      → Outcome intent template mode target scheduled r
  is_rejected :
      Agrees intent template
      → scheduled ≡ none
      → r.status ≡ plan_rejected
      → HasNothing r
      → Outcome intent template mode target scheduled r
  is_conflict :
      (¬ (Agrees intent template)
        ⊎ ((selected : String) × (scheduled ≡ some selected)
            × (¬ Accepts target selected ⊎ ¬ Accepts template.node_id selected)))
      → r.status ≡ conflict
      → HasNothing r
      → Outcome intent template mode target scheduled r

Accepts-iff :
    (asked selected : String)
    → ((not (asked == "") && not (asked == selected)) ≡ false) ↔ Accepts asked selected
Accepts-iff asked selected = ground (arith, eq_iff asked "", eq_iff asked selected)

refused_target :
    (asked selected : String)
    → (not (asked == "") && not (asked == selected)) ≡ true
    → ¬ Accepts asked selected
refused_target asked selected h = λ k. ground (arith, Accepts-iff asked selected, k)

module _ (intent : WorkloadIntent) (template : LaunchTemplateSpec) (mode target : String)
    (agrees : Agrees intent template) (rejected : List EligibilityEvidence) where
  plan_on-Outcome :
      (scheduled : Option String)
      → Outcome intent template mode target scheduled (
          plan_on intent template mode target scheduled
            (record fresh_plan { rejected_nodes = rejected }))
  unfolding plan_on
  plan_on-Outcome none = is_rejected agrees refl refl (record { no_node = refl; no_spec = refl })
  plan_on-Outcome (some selected) =
      elim (Bool-cases (not (target == "") && not (target == selected))) [
        | inl bad ↦ rw bad (
            is_conflict (inr (selected, refl, inl (refused_target target selected bad))) refl
              (record { no_node = refl; no_spec = refl }))
        | inr fine ↦
            elim (Bool-cases (not (template.node_id == "") && not (template.node_id == selected))) [
              | inl bad ↦
                  rw (fine, bad)
                    (is_conflict
                      (inr (selected, refl, inr (refused_target template.node_id selected bad)))
                      refl (record { no_node = refl; no_spec = refl }))
              | inr good ↦
                  rw (fine, good)
                    (is_ready selected agrees refl ((Accepts-iff target selected).0 fine)
                      ((Accepts-iff template.node_id selected).0 good)
                      (record {
                        status_ready = refl;
                        on_selected = refl;
                        spec_planned = refl;
                        submit = refl;
                      }))
            ]
      ]

module _ (visit : Dict NodeConstraintRecord → Dict NodeConstraintRecord) (clock : ℕ → ℤ) where
  pub build_launch_plan-Outcome :
      (now : ℤ) (intent : WorkloadIntent) (template : LaunchTemplateSpec) (mode target : String)
      (nodes : List NodeRecord)
      → Outcome intent template mode target
          (schedule_v0 visit clock now intent nodes).selected_node
          (build_launch_plan visit clock now intent template mode target nodes)
  unfolding build_launch_plan
  build_launch_plan-Outcome now intent template mode target nodes =
      elim (Option-cases (mismatch intent template)) [
        | inl none_found ↦
            rw (none_found, build_launch_plan)
              (plan_on-Outcome intent template mode target
                ((mismatch_iff intent template).0 none_found) _ _)
        | inr (warning, found) ↦
            rw (found, build_launch_plan)
              (is_conflict
                (inl (λ agrees. let off = (mismatch_iff intent template).1 agrees in ground arith))
                refl (record { no_node = refl; no_spec = refl }))
      ]
