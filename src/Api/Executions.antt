-- ===== src/Api/Executions.antt =====
-- schedune-control-plane/internal/api/launch_handlers.go: the handlers that show executions. Each polls
-- the execution first; an error of the poll is only logged. `fault` is the error of the driver for the
-- query, if there is one.
use schedune.Base.{ℕ, suc, String, Option, none, some, List, [], ◌∷◌, Result, ok, err}
use schedune.Schema.Execution.{LaunchExecutionRecord, ExecutionTraceStep, Inspector}
use schedune.Schema.Views.{LaunchReadinessResponse, ExecutionSummary, ExecutionObservation}
use schedune.Sqlite.{Json, SqliteStore, ListedEvent, get_execution, list_executions, list_events}
use schedune.Api.{
  Reply, replied, refused, status_ok, status_not_found, status_internal_server_error,
}
use schedune.Api.Readiness.{build_readiness_response, summary_of}
use schedune.Api.Launches.{Poll, recent, reconcile_execution}

module _ {J : Type 0} (json : Json J) (resolve : String → Inspector) where
  -- The record of GetExecution, polled, and what the handler shows of it; 404 where there is none.
  unfoldable pub with_execution :
      {A : Type 0}
      → Poll
      → (LaunchExecutionRecord → SqliteStore → A)
      → Result (Option LaunchExecutionRecord)
      → SqliteStore
      → Reply A × SqliteStore
  with_execution poll show (err e) s = (refused status_not_found "Execution not found", s)
  with_execution poll show (ok none) s = (refused status_not_found "Execution not found", s)
  with_execution poll show (ok (some rec)) s =
      let polled = reconcile_execution json resolve poll rec s in
      (replied status_ok (show polled.0 polled.1), polled.1)

  unfoldable pub inspect_launch :
      Option String → Poll → String → SqliteStore → Reply LaunchExecutionRecord × SqliteStore
  unfolding with_execution
  inspect_launch fault poll id s =
      with_execution poll (λ rec t. rec) (get_execution json fault id s) s

  unfoldable pub inspect_readiness :
      Option String → Poll → String → SqliteStore → Reply LaunchReadinessResponse × SqliteStore
  unfolding with_execution
  inspect_readiness fault poll id s =
      with_execution poll (λ rec t. build_readiness_response rec) (get_execution json fault id s) s

  abbrev events_or_none : Result (List (ListedEvent J)) → List (ListedEvent J)
  events_or_none (ok events) = events
  events_or_none (err e) = []

  -- The observation, with what ListEvents returns.
  abbrev pub observation_of :
      Result (List (ListedEvent J)) → LaunchExecutionRecord → ExecutionObservation (ListedEvent J)
  observation_of listed rec = record {
    summary = summary_of rec;
    prepared_with = rec.prepared_state;
    readiness = build_readiness_response rec;
    trace = rec.trace;
    recent_events = recent (events_or_none listed);
  }

  unfoldable pub observe_launch :
      Option String
      → Option String
      → Poll
      → String
      → SqliteStore
      → Reply (ExecutionObservation (ListedEvent J)) × SqliteStore
  unfolding with_execution
  observe_launch fault events_fault poll id s =
      with_execution poll (λ rec t. observation_of (list_events json events_fault id t) rec)
        (get_execution json fault id s) s

  -- InspectTrace; it does not poll.
  unfoldable pub inspect_trace :
      Option String → String → SqliteStore → Reply (List ExecutionTraceStep)
  inspect_trace fault id s = elim (get_execution json fault id s) [
    | err e ↦ refused status_not_found "Execution not found"
    | ok none ↦ refused status_not_found "Execution not found"
    | ok (some rec) ↦ replied status_ok rec.trace
  ]

  unfoldable pub inspect_events :
      Option String → String → SqliteStore → Reply (List (ListedEvent J))
  inspect_events fault id s = elim (list_events json fault id s) [
    | err e ↦ refused status_internal_server_error e
    | ok events ↦ replied status_ok events
  ]

  -- The loop of ListLaunches; `polls i` is the poll of the i-th record.
  unfoldable pub summarize :
      (ℕ → Poll)
      → ℕ
      → List LaunchExecutionRecord
      → SqliteStore
      → List ExecutionSummary × SqliteStore
  summarize polls i [] s = ([], s)
  summarize polls i (rec ∷ recs) s =
      let polled = reconcile_execution json resolve (polls i) rec s in
      let rest = summarize polls (suc i) recs polled.1 in (summary_of polled.0 ∷ rest.0, rest.1)

  unfoldable pub list_launches :
      Option String → (ℕ → Poll) → SqliteStore → Reply (List ExecutionSummary) × SqliteStore
  unfolding summarize
  list_launches fault polls s = elim (list_executions json fault s) [
    | err e ↦ (refused status_internal_server_error "Failed to list executions", s)
    | ok recs ↦ let listed = summarize polls 0 recs s in (replied status_ok listed.0, listed.1)
  ]
