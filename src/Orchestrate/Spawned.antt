-- ===== src/Orchestrate/Spawned.antt =====
-- How a run of StartLaunch may end, and how it ends once the launch is prepared (schedune-control-plane/internal/domain/orchestrator.go).
use schedune.Base.{
  ◌≡◌, ◌↔◌, ◌⊎◌, inl, inr, ap, ◌∙◌, refl, String, true, ◌||◌, Option, none, some, Result, ok, err,
  arith, Bool-cases, ◌==◌, eq_iff,
}
use schedune.Base.Int64.{ℤ}
use schedune.Schema.Spec.{LaunchSpec}
use schedune.Schema.Execution.{
  LaunchState, validated, launching, starting, failed, terminating, terminated, PreparedLaunch,
  LaunchExecutionRecord,
}
use schedune.Lifecycle.{is_transition_allowed}
use schedune.Select.{select_backend}
use schedune.Validate.{validate_launch}
use schedune.Orchestrate.Calls.{Executor, Services, Machine, save, go_to}
use schedune.Orchestrate.{record_spawned, spawn_and_record}
use schedune.Orchestrate.Steps.{
  last_saved, Settles, go_to-Moves, fail_with-Settles, pass_with-Settles,
}

module _ (o : Services) (spec : LaunchSpec) where
  -- The launch is called valid on the node that GetNode returns.
  pub record IsValidated : Type 0 where
    pub node_found : (o.get_node spec.node_id).1 ≡ none
    pub valid :
        (validate_launch o.trace_order o.hints_order spec (o.get_node spec.node_id).0).is_valid
        ≡ true

  -- The executor is the one of the backend that SelectBackend chooses, and has prepared the launch.
  pub record IsPrepared (exec : Executor) (prep : PreparedLaunch) : Type 0 where
    pub resolved : o.resolve (select_backend spec (o.get_node_again spec.node_id).0).0 ≡ ok exec
    pub prepared : exec.prepare spec ≡ ok prep

  abbrev pub IsRehearsal : Type 0
  IsRehearsal = (spec.launch_mode ≡ "DryRun") ⊎ (spec.launch_mode ≡ "Validate")

  pub data Launched (rec : LaunchExecutionRecord) : Type 0 where
    has_failed : rec.state ≡ failed → rec.pid ≡ none → Launched rec
    has_rehearsed :
        (exec : Executor) (prep : PreparedLaunch)
        → IsValidated
        → IsPrepared exec prep
        → IsRehearsal
        → rec.state ≡ terminated
        → rec.pid ≡ none
        → Launched rec
    has_started :
        (exec : Executor) (prep : PreparedLaunch) (pid : ℤ)
        → IsValidated
        → IsPrepared exec prep
        → ¬ IsRehearsal
        → exec.execute prep ≡ ok pid
        → rec.state ≡ starting
        → rec.pid ≡ some pid
        → rec.prepared_state ≡ some prep
        → Launched rec

  -- How a run ends: it does not panic, and the record it returns is the one it saved last.
  pub record Ends (result : Option Machine) : Type 0 where
    pub machine : Machine
    pub returns : result ≡ some machine
    pub saved : last_saved machine.effects ≡ some machine.rec
    pub launched : Launched machine.rec

  pub Ends-failed : (l m : Machine) → l.rec.pid ≡ none → Settles failed l m → Ends (some m)
  Ends-failed l m h k = record {
    machine = m;
    returns = refl;
    saved = k.saved;
    launched = has_failed k.in_state (k.same_pid ∙ h);
  }

  pub allowed_of :
      (s t : LaunchState) (m : Machine)
      → is_transition_allowed s t ≡ true
      → m.rec.state ≡ s
      → is_transition_allowed m.rec.state t ≡ true
  allowed_of s t m h e = ap (λ x. is_transition_allowed x t) e ∙ h

  module _ (exec : Executor) (prep : PreparedLaunch) (v : IsValidated)
      (p : IsPrepared exec prep) where
    spawned-Ends :
        (r : Result ℤ) (m : Machine)
        → exec.execute prep ≡ r
        → ¬ IsRehearsal
        → m.rec.state ≡ launching
        → m.rec.pid ≡ none
        → m.rec.prepared_state ≡ some prep
        → Ends (some (record_spawned o r m))
    unfolding record_spawned is_transition_allowed
    spawned-Ends (err e) m same real at_launching no_pid has_prep = Ends-failed m _ no_pid (
        fail_with-Settles o "RuntimeSpawnFailed" _ e m
          (allowed_of launching failed m refl at_launching))
    spawned-Ends (ok pid) m same real at_launching no_pid has_prep =
        let settled =
          pass_with-Settles o starting "RuntimeSpawned" _ _
            (allowed_of launching starting m refl at_launching) in
        record {
          machine = record_spawned o (ok pid) m;
          returns = refl;
          saved = settled.saved;
          launched =
              has_started exec prep pid v p real same settled.in_state settled.same_pid
                (settled.same_prepared ∙ has_prep);
        }

    pub spawn_and_record-Ends :
        (m : Machine)
        → m.rec.state ≡ validated
        → m.rec.pid ≡ none
        → m.rec.prepared_state ≡ some prep
        → Ends (spawn_and_record o spec exec m)
    unfolding spawn_and_record is_transition_allowed
    spawn_and_record-Ends m at_validated no_pid has_prep =
        let moved =
          go_to-Moves o launching "" "Spawning runtime process via executor" m
            (allowed_of validated launching m refl at_validated) in
        let launched = save (go_to o launching "" "Spawning runtime process via executor" m) in
        elim (Bool-cases (spec.launch_mode == "DryRun" || spec.launch_mode == "Validate")) [
          | inl rehearsal ↦
              let msg : String = "DryRun/Validate successful. Aborting actual spawn." in
              let ending =
                go_to-Moves o terminating "" msg launched
                  (allowed_of launching terminating launched refl moved.in_state) in
              let settled =
                pass_with-Settles o terminated "DryRunCompleted" msg
                  (go_to o terminating "" msg launched)
                  (allowed_of terminating terminated (go_to o terminating "" msg launched) refl
                    ending.in_state) in
              rw rehearsal (record {
                machine = _;
                returns = refl;
                saved = settled.saved;
                launched =
                    has_rehearsed exec prep v p (rehearses.0 rehearsal) settled.in_state
                      (settled.same_pid ∙ ending.same_pid ∙ moved.same_pid ∙ no_pid);
              })
          | inr real ↦
              let has = moved.same_prepared ∙ has_prep in
              rw (real, has)
                (spawned-Ends (exec.execute prep) launched refl
                  (λ h. let r = rehearses.1 h in ground arith) moved.in_state
                  (moved.same_pid ∙ no_pid) has)
        ]
      where
        rehearses :
            ((spec.launch_mode == "DryRun" || spec.launch_mode == "Validate") ≡ true) ↔ IsRehearsal
        rehearses =
            ground (arith, eq_iff spec.launch_mode "DryRun", eq_iff spec.launch_mode "Validate")
