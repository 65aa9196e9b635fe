-- ===== src/Api/Starting.antt =====
-- schedune-control-plane/internal/api/launch_handlers.go: the handlers that validate, prepare, start and
-- stop launches. `spec` is what the handler binds, or the error of the binding.
use schedune.Base.{
  ℕ, length, String, Bool, true, false, Option, none, some, List, [], ◌∷◌, if◌then◌else◌, Result,
  ok, err,
}
use schedune.Base.Dict.{Dict}
use schedune.Schema.Reasons.{err_preparation_failed}
use schedune.Schema.Spec.{LaunchSpec, LaunchValidationResult}
use schedune.Schema.Execution.{
  LaunchState, failed, same_state, PreparedLaunch, LaunchExecutionRecord, ExecutionTraceStep,
}
use schedune.Schema.Views.{LaunchDryRunResult}
use schedune.Validate.{validate_launch}
use schedune.Store.{InMemoryStore, get_node}
use schedune.Orchestrate.Calls.{
  Executor, Services, Effect, saved_execution, appended_event, Machine,
}
use schedune.Orchestrate.{start_launch, terminate_launch}
use schedune.Sqlite.{Json, SqliteStore, save_execution, get_execution, append_event}
use schedune.Api.{
  Reply, replied, refused, invalid, status_ok, status_accepted, status_bad_request,
  status_not_found, status_conflict, status_internal_server_error,
}

module _ (trace_order hints_order : Dict String → Dict String) where
  -- The handler ValidateLaunch
  unfoldable pub handle_validate_launch :
      Result LaunchSpec → InMemoryStore → Reply LaunchValidationResult
  handle_validate_launch (err e) nodes = invalid status_bad_request "Invalid LaunchSpec" e
  handle_validate_launch (ok spec) nodes = elim (get_node spec.node_id nodes) [
    | none ↦ refused status_not_found "Target node not found"
    | some node ↦ replied status_ok (validate_launch trace_order hints_order spec node)
  ]

  abbrev unprepared : LaunchValidationResult → String → LaunchDryRunResult
  unprepared validation e = record {
    validation = validation;
    prepared_launch = none;
    preparation_reason_code = some err_preparation_failed;
    preparation_error = some e;
  }

  -- DryRunLaunch after Prepare, and after Resolve.
  abbrev with_prepared : LaunchValidationResult → Result PreparedLaunch → LaunchDryRunResult
  with_prepared validation (err e) = unprepared validation e
  with_prepared validation (ok prep) = record {
    validation = validation;
    prepared_launch = some prep;
    preparation_reason_code = none;
    preparation_error = none;
  }

  abbrev with_executor : LaunchSpec → LaunchValidationResult → Result Executor → LaunchDryRunResult
  with_executor spec validation (err e) = unprepared validation e
  with_executor spec validation (ok exec) = with_prepared validation (exec.prepare spec)

  abbrev not_prepared : LaunchValidationResult → LaunchDryRunResult
  not_prepared validation = record {
    validation = validation;
    prepared_launch = none;
    preparation_reason_code = none;
    preparation_error = none;
  }

  abbrev in_mode : String → LaunchSpec → LaunchSpec
  in_mode mode spec = record spec { launch_mode = mode }

  unfoldable pub dry_run_launch :
      (String → Result Executor) → Result LaunchSpec → InMemoryStore → Reply LaunchDryRunResult
  dry_run_launch resolve (err e) nodes = invalid status_bad_request "Invalid LaunchSpec" e
  dry_run_launch resolve (ok bound) nodes =
      let spec = in_mode "DryRun" bound in
      elim (get_node spec.node_id nodes) [
        | none ↦ refused status_not_found "Target node not found"
        | some node ↦
            let validation = validate_launch trace_order hints_order spec node in
            replied status_ok (
              if validation.is_valid
              then with_executor spec validation (resolve validation.selected_backend)
              else not_prepared validation)
      ]

-- The body of TerminateLaunch: the record, or the error with the trace.
pub data Termination : Type 0 where
  terminated_record : LaunchExecutionRecord → Termination
  termination_error : String → List ExecutionTraceStep → Termination

module _ {J : Type 0} (json : Json J) where
  -- One call of SaveExecution or AppendEvent, with the error of the driver, if any; the pipeline ignores
  -- the error.
  unfoldable pub perform : Option String → Effect → SqliteStore → SqliteStore
  perform fault (saved_execution rec) s = (save_execution json fault rec s).0
  perform fault (appended_event ev) s = (append_event json fault ev s).0

  -- The calls of a pipeline, the newest of which is the first in the log; `faults i` is the error of the
  -- driver for the call that i calls went before.
  unfoldable pub perform_all : (ℕ → Option String) → List Effect → SqliteStore → SqliteStore
  unfolding perform
  perform_all faults [] s = s
  perform_all faults (effect ∷ older) s =
      perform (faults (length older)) effect (perform_all faults older s)

  abbrev pub status_of_state : LaunchState → ℕ
  status_of_state state = if same_state state failed then status_conflict else status_accepted

  abbrev pub started :
      (ℕ → Option String)
      → SqliteStore
      → Option Machine
      → Option (Reply LaunchExecutionRecord × SqliteStore)
  started faults s none = none
  started faults s (some m) =
      some (replied (status_of_state m.rec.state) m.rec, perform_all faults m.effects s)

  -- ExecuteLaunch; `none` is a panic of StartLaunch.
  unfoldable pub execute_launch :
      Services
      → (ℕ → Option String)
      → Result LaunchSpec
      → SqliteStore
      → Option (Reply LaunchExecutionRecord × SqliteStore)
  unfolding perform_all
  execute_launch o faults (err e) s = some (invalid status_bad_request "Invalid LaunchSpec" e, s)
  execute_launch o faults (ok spec) s =
      started faults s (start_launch o (record spec { launch_mode = "Execute" }))

  abbrev terminate_reply : Machine × Option String → Reply Termination
  terminate_reply (m, some e) =
      replied status_internal_server_error (termination_error e m.rec.trace)
  terminate_reply (m, none) = replied status_ok (terminated_record m.rec)

  -- The three results of GetExecution; `zero` is the record with Go's zero values.
  abbrev results_of :
      LaunchExecutionRecord
      → Result (Option LaunchExecutionRecord)
      → LaunchExecutionRecord × Bool × Option String
  results_of zero (err e) = (zero, false, some e)
  results_of zero (ok none) = (zero, false, none)
  results_of zero (ok (some rec)) = (rec, true, none)

  -- The handler TerminateLaunch.
  unfoldable pub handle_terminate_launch :
      Services
      → (ℕ → Option String)
      → LaunchExecutionRecord
      → Option String
      → String
      → SqliteStore
      → Reply Termination × SqliteStore
  unfolding perform_all
  handle_terminate_launch o faults zero fault id s =
      let done = terminate_launch o (results_of zero (get_execution json fault id s)) in
      (terminate_reply done, perform_all faults done.0.effects s)
