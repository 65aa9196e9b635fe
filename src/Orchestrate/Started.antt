-- ===== src/Orchestrate/Started.antt =====
-- What StartLaunch ends with (schedune-control-plane/internal/domain/orchestrator.go).
use schedune.Base.{
  ◌≡◌, inl, inr, ap, ◌∙◌, refl, String, Option, none, some, Result, ok, err, arith, Bool-cases,
}
use schedune.Schema.Spec.{LaunchSpec}
use schedune.Schema.Execution.{pending, preparing, validated, failed, PreparedLaunch}
use schedune.Node.{NodeRecord}
use schedune.Lifecycle.{append_trace, is_transition_allowed}
use schedune.Select.{select_backend}
use schedune.Validate.{validate_launch}
use schedune.Orchestrate.Calls.{
  Executor, Services, Machine, save, fail_with, go_to, trace, emit_event,
}
use schedune.Orchestrate.{
  initialize_record, validate_node, validate_and_record, record_prepared, prepare_with,
  prepare_and_record, after_prepare, after_validate, start_launch,
}
use schedune.Orchestrate.Spawned.{IsValidated, Ends, Ends-failed, allowed_of, spawn_and_record-Ends}
use schedune.Orchestrate.Steps.{
  go_to-Moves, fail_with-Settles, pass_with-Settles, after_move, trace-Moves,
}

module _ (o : Services) (spec : LaunchSpec) where
  module _ (v : IsValidated o spec) where
    record_prepared-Ends :
        (exec : Executor) (r : Result PreparedLaunch) (m : Machine)
        → o.resolve (select_backend spec (o.get_node_again spec.node_id).0).0 ≡ ok exec
        → exec.prepare spec ≡ r
        → m.rec.state ≡ preparing
        → m.rec.pid ≡ none
        → Ends o spec (after_prepare o spec (record_prepared o exec r m))
    unfolding record_prepared after_prepare is_transition_allowed
    record_prepared-Ends exec (err e) m resolves prepares at_preparing no_pid =
        Ends-failed o spec m _ no_pid (
          fail_with-Settles o "PreparationFailed" _ e m
            (allowed_of o spec preparing failed m refl at_preparing))
    record_prepared-Ends exec (ok prep) m resolves prepares at_preparing no_pid =
        let ready = record m { rec = record m.rec { prepared_state = some prep } } in
        let noted =
          trace-Moves o "ArtifactResolution" "Success" ""
            "Artifacts resolved and runtime contract generated" ready in
        let settled =
          pass_with-Settles o validated "PreparationPassed" "Ready for launch"
            (trace o "ArtifactResolution" "Success" ""
              "Artifacts resolved and runtime contract generated" ready)
            (allowed_of o spec preparing validated
              (trace o "ArtifactResolution" "Success" ""
                "Artifacts resolved and runtime contract generated" ready)
              refl (noted.in_state ∙ at_preparing)) in
        spawn_and_record-Ends o spec exec prep v
          (record { resolved = resolves; prepared = prepares }) _ settled.in_state
          (settled.same_pid ∙ noted.same_pid ∙ no_pid) (settled.same_prepared ∙ noted.same_prepared)

    prepare_with-Ends :
        (r : Result Executor) (m : Machine)
        → o.resolve (select_backend spec (o.get_node_again spec.node_id).0).0 ≡ r
        → m.rec.state ≡ preparing
        → m.rec.pid ≡ none
        → Ends o spec (
            after_prepare o spec
              (prepare_with o spec (select_backend spec (o.get_node_again spec.node_id).0).0 r m))
    unfolding prepare_with after_prepare is_transition_allowed
    prepare_with-Ends (err e) m resolves at_preparing no_pid = Ends-failed o spec m _ no_pid (
        fail_with-Settles o "PreparationFailed" _ _ m
          (allowed_of o spec preparing failed m refl at_preparing))
    prepare_with-Ends (ok exec) m resolves at_preparing no_pid =
        record_prepared-Ends exec (exec.prepare spec) m resolves refl at_preparing no_pid

    prepare_and_record-Ends :
        (m : Machine)
        → m.rec.state ≡ preparing
        → m.rec.pid ≡ none
        → Ends o spec (after_prepare o spec (prepare_and_record o spec m))
    unfolding prepare_and_record
    prepare_and_record-Ends m at_preparing no_pid =
        let noted =
          trace-Moves o "ArtifactResolution" "Pending" "" "Preparing artifact and command execution"
            m in
        prepare_with-Ends _ _ refl (noted.in_state ∙ at_preparing) (noted.same_pid ∙ no_pid)

  refused_node-Ends :
      (code msg : String) (m : Machine)
      → m.rec.state ≡ pending
      → m.rec.pid ≡ none
      → Ends o spec (
          some (
            fail_with o "ValidationFailed" code msg
              (go_to o preparing "" "Initializing preparation" m)))
  unfolding is_transition_allowed
  refused_node-Ends code msg m at_pending no_pid =
      let begun =
        go_to-Moves o preparing "" "Initializing preparation" m
          (allowed_of o spec pending preparing m refl at_pending) in
      let prepared = go_to o preparing "" "Initializing preparation" m in
      Ends-failed o spec m _ no_pid (
        after_move o failed preparing m prepared _ begun (
          fail_with-Settles o "ValidationFailed" code msg prepared
            (allowed_of o spec preparing failed prepared refl begun.in_state)))

  validate_node-Ends :
      (found : NodeRecord × Option String) (m : Machine)
      → o.get_node spec.node_id ≡ found
      → m.rec.state ≡ pending
      → m.rec.pid ≡ none
      → Ends o spec (after_validate o spec (validate_node o spec found m))
  unfolding validate_node after_validate is_transition_allowed
  validate_node-Ends (node, some e) m same at_pending no_pid =
      refused_node-Ends _ _ m at_pending no_pid
  validate_node-Ends (node, none) m same at_pending no_pid =
      elim (Bool-cases (validate_launch o.trace_order o.hints_order spec node).is_valid) [
        | inl is_valid ↦
            let settled =
              pass_with-Settles o preparing "ValidationPassed"
                "Host capabilities validated successfully" m
                (allowed_of o spec pending preparing m refl at_pending) in
            rw is_valid (
              prepare_and_record-Ends
                (record {
                  node_found = ap (λ p. p.1) same;
                  valid =
                      ap (λ p. (validate_launch o.trace_order o.hints_order spec p.0).is_valid) same
                      ∙ is_valid;
                })
                _ settled.in_state (settled.same_pid ∙ no_pid))
        | inr is_not ↦ rw is_not (refused_node-Ends _ _ m at_pending no_pid)
      ]

  initialize_record_lem :
      ((initialize_record o spec).rec.state ≡ pending) × ((initialize_record o spec).rec.pid ≡ none)
  unfolding initialize_record trace emit_event append_trace
  initialize_record_lem = ground arith

  -- StartLaunch returns without a panic, with the record as it was saved last. The record has failed
  -- without a process; or it is terminated without a process, for a launch that is valid, prepared and
  -- in the mode DryRun or Validate; or it is starting with the process that the executor started, for
  -- a launch that is valid, prepared and in another mode.
  pub start_launch-Ends : Ends o spec (start_launch o spec)
  unfolding start_launch validate_and_record
  start_launch-Ends =
      validate_node-Ends (o.get_node spec.node_id) (save (initialize_record o spec)) refl
        initialize_record_lem.0 initialize_record_lem.1
