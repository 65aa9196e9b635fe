-- ===== src/Orchestrate.antt =====
-- schedune-control-plane/internal/domain/orchestrator.go: the pipeline that validates, prepares and
-- starts a launch, and the termination of one.
-- The stores, the executors, the clock and the source of ids are arguments. A record is kept together
-- with what the pipeline has done so far: each save and each event, the newest first.
pub mod Calls
pub mod Steps
pub mod Spawned
pub mod Started
pub mod Ended
use schedune.Base.{
  ◌≡◌, ℕ, suc, String, Bool, true, false, ◌||◌, Option, none, some, List, [], ◌∷◌, ◌<>◌,
  if◌then◌else◌, ◌==◌, Result, ok, err,
}
use schedune.Base.Int64.{ℤ, decimal_ℤ}
use schedune.Base.Dict.{Dict}
use schedune.Schema.Spec.{LaunchSpec}
use schedune.Schema.Execution.{
  LaunchState, pending, preparing, validated, launching, starting, failed, exited, terminating,
  terminated, same_state, PreparedLaunch, LaunchExecutionRecord, RuntimeEvent, lifecycle_payload,
}
use schedune.Schema.Reasons.{
  err_node_not_found, err_validation_failed, err_preparation_failed, err_exec_runtime_spawn_failed,
  err_term_signal_failed,
}
use schedune.Node.{NodeRecord}
use schedune.Lifecycle.{append_trace, transition_to}
use schedune.Select.{select_backend}
use schedune.Validate.{validate_launch}
use schedune.Orchestrate.Calls.{
  Executor, Services, Effect, saved_execution, appended_event, Machine, list_text, save, backend_of,
  go_to, trace, emit_event, fail_with, pass_with,
}

module _ (o : Services) where
  -- initializeRecord
  unfoldable pub initialize_record : LaunchSpec → Machine
  unfolding trace emit_event
  initialize_record spec = emit_event o "ExecutionCreated" "" "Execution initialized" (
      trace o "Init" "Success" "" "Execution initialized" (record {
        rec = record {
          execution_id = o.new_id 0;
          workload_id = spec.workload_id;
          node_id = spec.node_id;
          spec = spec;
          prepared_state = none;
          state = pending;
          runtime_liveness = "Unknown";
          runtime_readiness = "NotStarted";
          created_at_sec = o.clock 0;
          updated_at_sec = o.clock 0;
          started_at_sec = none;
          ready_at_sec = none;
          terminated_at_sec = none;
          pid = none;
          exit_code = none;
          failure_reason_code = none;
          trace = [];
          generation = ℤ.pos 0;
          recovery_epoch = "";
          last_observed_at_sec = none;
          readiness_signal = none;
        };
        ticks = 1;
        ids = 1;
        effects = [];
      }))

  -- validateAndRecord, with what GetNode returns.
  unfoldable pub validate_node : LaunchSpec → NodeRecord × Option String → Machine → Bool × Machine
  validate_node spec (node, some e) m = (
    false,
    fail_with o "ValidationFailed" err_node_not_found "Target node not found in store"
        (go_to o preparing "" "Initializing preparation" m),
  )
  validate_node spec (node, none) m =
      let result = validate_launch o.trace_order o.hints_order spec node in
      if result.is_valid
      then (
        true,
        pass_with o preparing "ValidationPassed" "Host capabilities validated successfully" m,
      )
      else (
        false,
        fail_with o "ValidationFailed" err_validation_failed
            ("Node missing prerequisites: " <> list_text result.blocking_reason_codes)
            (go_to o preparing "" "Initializing preparation" m),
      )

  unfoldable pub validate_and_record : LaunchSpec → Machine → Bool × Machine
  validate_and_record spec m = validate_node spec (o.get_node spec.node_id) m

  -- prepareAndRecord after Prepare.
  unfoldable pub record_prepared :
      Executor → Result PreparedLaunch → Machine → Option Executor × Machine
  record_prepared exec (err e) m =
      (none, fail_with o "PreparationFailed" err_preparation_failed e m)
  record_prepared exec (ok prep) m = (
    some exec,
    pass_with o validated "PreparationPassed" "Ready for launch" (
        trace o "ArtifactResolution" "Success" ""
          "Artifacts resolved and runtime contract generated"
          (record m { rec = record m.rec { prepared_state = some prep } })),
  )

  -- prepareAndRecord after Resolve.
  unfoldable pub prepare_with :
      LaunchSpec → String → Result Executor → Machine → Option Executor × Machine
  prepare_with spec backend (err e) m = (
    none,
    fail_with o "PreparationFailed" err_preparation_failed
        ("Failed to resolve executor for backend " <> backend <> ": " <> e) m,
  )
  prepare_with spec backend (ok exec) m = record_prepared exec (exec.prepare spec) m

  unfoldable pub prepare_and_record : LaunchSpec → Machine → Option Executor × Machine
  prepare_and_record spec m =
      let backend = (select_backend spec (o.get_node_again spec.node_id).0).0 in
      prepare_with spec backend (o.resolve backend)
        (trace o "ArtifactResolution" "Pending" "" "Preparing artifact and command execution" m)

  -- spawnAndRecord after Execute.
  unfoldable pub record_spawned : Result ℤ → Machine → Machine
  record_spawned (err e) m = fail_with o "RuntimeSpawnFailed" err_exec_runtime_spawn_failed e m
  record_spawned (ok pid) m =
      pass_with o starting "RuntimeSpawned"
        ("Process successfully spawned (PID " <> decimal_ℤ pid <> ")")
        (record m {
          rec = record m.rec { pid = some pid; started_at_sec = some (o.clock m.ticks) };
          ticks = suc m.ticks;
        })

  -- spawnAndRecord; `none` is the panic of `*rec.PreparedState` where it is nil.
  unfoldable pub spawn_and_record : LaunchSpec → Executor → Machine → Option Machine
  spawn_and_record spec exec m =
      let launched = save (go_to o launching "" "Spawning runtime process via executor" m) in
      if spec.launch_mode == "DryRun" || spec.launch_mode == "Validate"
      then some (
          pass_with o terminated "DryRunCompleted"
            "DryRun/Validate successful. Aborting actual spawn."
            (go_to o terminating "" "DryRun/Validate successful. Aborting actual spawn." launched))
      else elim launched.rec.prepared_state [
        | none ↦ none
        | some prepared ↦ some (record_spawned (exec.execute prepared) launched)
      ]

  -- StartLaunch after validateAndRecord and after prepareAndRecord.
  unfoldable pub after_prepare : LaunchSpec → Option Executor × Machine → Option Machine
  after_prepare spec (none, m) = some m
  after_prepare spec (some exec, m) = spawn_and_record spec exec m

  unfoldable pub after_validate : LaunchSpec → Bool × Machine → Option Machine
  after_validate spec (false, m) = some m
  after_validate spec (true, m) = after_prepare spec (prepare_and_record spec m)

  -- StartLaunch
  unfoldable pub start_launch : LaunchSpec → Option Machine
  start_launch spec = after_validate spec (validate_and_record spec (save (initialize_record spec)))

  -- The signal that TerminateLaunch sends: nothing to signal, or what Resolve and Terminate return.
  unfoldable pub send_signal : Option ℤ → Option PreparedLaunch → Option String
  send_signal none prepared = none
  send_signal (some pid) none = none
  send_signal (some pid) (some prepared) = elim (o.resolve prepared.runtime_backend) [
    | err e ↦ some e
    | ok exec ↦ exec.terminate pid
  ]

  abbrev pub is_over : LaunchState → Bool
  is_over s = same_state s terminated || same_state s failed || same_state s exited

  -- TerminateLaunch after the signal.
  unfoldable pub record_signal : Option String → Machine → Machine × Option String
  record_signal (some e) m = (
    emit_event o "TerminationFailed" err_term_signal_failed e
        (save (trace o "Termination" "Failed" err_term_signal_failed e m)),
    some e,
  )
  record_signal none m = (
    pass_with o terminated "Terminated" "Process terminated successfully" (record m {
      rec = record m.rec {
        terminated_at_sec = some (o.clock m.ticks);
        runtime_liveness = "Dead";
        runtime_readiness = "NotReady";
      };
      ticks = suc m.ticks;
    }),
    none,
  )

  -- TerminateLaunch of a record that GetExecution finds.
  unfoldable pub terminate_found : LaunchExecutionRecord → Machine × Option String
  terminate_found rec =
      let m : Machine = record { rec = rec; ticks = 0; ids = 0; effects = [] } in
      if is_over rec.state
      then (m, none)
      else let asked =
          pass_with o terminating "TerminationRequested" "Termination requested by API" m in
        record_signal (send_signal asked.rec.pid asked.rec.prepared_state) asked

  -- TerminateLaunch, with what GetExecution returns: a record, whether it is found, and an error.
  unfoldable pub terminate_launch :
      LaunchExecutionRecord × Bool × Option String → Machine × Option String
  unfolding terminate_found
  terminate_launch (rec, found, some e) = (
    record { rec = rec; ticks = 0; ids = 0; effects = [] },
    some ("execution not found or err: " <> e),
  )
  terminate_launch (rec, false, none) = (
    record { rec = rec; ticks = 0; ids = 0; effects = [] },
    some "execution not found or err: %!w(<nil>)",
  )
  terminate_launch (rec, true, none) = terminate_found rec
