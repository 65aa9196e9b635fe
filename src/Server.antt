-- ===== src/Server.antt =====
-- schedune-control-plane/cmd/schedune/main.go, runServer: the state of a server, its routes, the sweep
-- that runs beside them, and the start of a server on a database. A request is one step, as is a sweep.
pub mod Database
pub mod Statements
pub mod Handled
pub mod Reachable
use schedune.Base.{ℕ, suc, String, true, Option, none, some, List, [], ◌∷◌, Result, ok, err}
use schedune.Base.Int64.{ℤ}
use schedune.Base.Dict.{Dict}
use schedune.Schema.Envelope.{SchedulerEnvelope}
use schedune.Schema.Workload.{WorkloadIntent}
use schedune.Schema.Plan.{LaunchPlanRequest, LaunchPlanResult}
use schedune.Schema.Spec.{LaunchSpec, LaunchValidationResult}
use schedune.Schema.Execution.{LaunchExecutionRecord, ExecutionTraceStep, RuntimeEvent}
use schedune.Schema.Views.{
  LaunchDryRunResult, LaunchReadinessResponse, ExecutionSummary, ExecutionObservation,
}
use schedune.Schema.Orphan.{OrphanRecord, OrphanFilter}
use schedune.Node.{NodeRecord, NodeConstraintRecord}
use schedune.Schedule.{ScheduleDecision}
use schedune.Store.{InMemoryStore, new_in_memory_store, get_node}
use schedune.Sqlite.{Json, SqliteStore, ListedEvent, append_event, list_recoverable_executions}
use schedune.Sqlite.Orphans.{sqlite_orphans}
use schedune.Orchestrate.Calls.{Services}
use schedune.Recovery.{EnumeratedProcess}
use schedune.Recovery.Bootstrap.{bootstrap}
use schedune.Recovery.Sweep.{sweep_once}
use schedune.Runtime.Executors.{Host, resolve_executor}
use schedune.Runtime.Inspectors.{resolve_inspector, inspect_process}
use schedune.Runtime.Enumerate.{ProcEntry, enumerate}
use schedune.Api.{Reply}
use schedune.Api.Launches.{Poll}
use schedune.Api.Executions.{
  inspect_launch, inspect_readiness, observe_launch, inspect_trace, inspect_events, list_launches,
}
use schedune.Api.Starting.{
  handle_validate_launch, dry_run_launch, perform_all, execute_launch, Termination,
  handle_terminate_launch,
}
use schedune.Api.Planning.{plan_launch, explain_schedule, Selection, select_node}
use schedune.Api.Nodes.{
  ingest, NodeExplanation, explain_node_decision, NodeSummary, list_nodes, handle_get_node, Health,
  healthz, handle_list_orphans, handle_get_orphan,
}

pub record Server : Type 0 where
  pub nodes : InMemoryStore
  pub database : SqliteStore

-- The routes, each with what its handler binds: a body or an error, a parameter of the path, a query.
pub data Request : Type 0 where
  on_healthz on_list_nodes on_list_launches : Request
  on_get_node on_explain_node_decision on_get_orphan : String → Request
  on_inspect_launch on_observe_launch on_inspect_readiness : String → Request
  on_inspect_trace on_inspect_events on_terminate_launch : String → Request
  on_ingest : Result SchedulerEnvelope → Request
  on_explain_schedule on_select_node : Result WorkloadIntent → Request
  on_plan_launch : Result LaunchPlanRequest → Request
  on_validate_launch on_dry_run_launch on_execute_launch : Result LaunchSpec → Request
  on_list_orphans : OrphanFilter → Request

-- The answers of the handlers, by the type of their bodies.
pub data Answer (J : Type 0) : Type 0 where
  with_health : Reply Health → Answer J
  with_nodes : Reply (List NodeSummary) → Answer J
  with_node : Reply NodeRecord → Answer J
  with_collection : Reply String → Answer J
  with_explanation : Reply NodeExplanation → Answer J
  with_decision : Reply ScheduleDecision → Answer J
  with_selection : Reply Selection → Answer J
  with_plan : Reply LaunchPlanResult → Answer J
  with_summaries : Reply (List ExecutionSummary) → Answer J
  with_validation : Reply LaunchValidationResult → Answer J
  with_dry_run : Reply LaunchDryRunResult → Answer J
  with_record : Reply LaunchExecutionRecord → Answer J
  with_observation : Reply (ExecutionObservation (ListedEvent J)) → Answer J
  with_readiness : Reply LaunchReadinessResponse → Answer J
  with_trace : Reply (List ExecutionTraceStep) → Answer J
  with_events : Reply (List (ListedEvent J)) → Answer J
  with_termination : Reply Termination → Answer J
  with_orphans : Reply (List OrphanRecord) → Answer J
  with_orphan : Reply OrphanRecord → Answer J

-- What a handler meets outside the server: the host, the clock, the ids, the orders of the loops over
-- maps, the nodes where it reads them a second time, the errors of the driver, the polls.
pub record Call : Type 0 where
  pub host : Host
  pub goos : String
  pub now : ℤ
  pub clock : ℕ → ℤ
  pub new_id : ℕ → String
  pub trace_order : Dict String → Dict String
  pub hints_order : Dict String → Dict String
  pub visit : Dict NodeConstraintRecord → Dict NodeConstraintRecord
  pub order : Dict NodeRecord → Dict NodeRecord
  pub then_nodes : InMemoryStore
  pub fault : Option String
  pub events_fault : Option String
  pub polls : ℕ → Poll
  pub save_faults : ℕ → Option String

-- GetNode of the in-memory store; `zero` is the node with Go's zero values.
abbrev node_or_error : NodeRecord → Option NodeRecord → NodeRecord × Option String
node_or_error zero none = (zero, some "node not found")
node_or_error zero (some node) = (node, none)

-- NewLaunchOrchestrator in NewLaunchHandler: the orchestrator on the nodes of the server.
abbrev pub services_of : NodeRecord → Call → InMemoryStore → Services
services_of zero call nodes = record {
  get_node = λ id. node_or_error zero (get_node id nodes);
  get_node_again = λ id. node_or_error zero (get_node id call.then_nodes);
  resolve = resolve_executor call.host;
  has_event_store = true;
  clock = call.clock;
  new_id = call.new_id;
  trace_order = call.trace_order;
  hints_order = call.hints_order;
}

-- What a sweep meets outside the database: the time, what /proc holds and when it is read, the ids,
-- and the errors of the driver for its query, its statements on orphans and its events.
pub record Sweep : Type 0 where
  pub hash : String → String
  pub now : ℤ
  pub observed_at : ℤ
  pub entries : Result (List ProcEntry)
  pub new_id : ℕ → String
  pub fault : Option String
  pub orphan_faults : List (Option String)
  pub event_faults : ℕ → Option String

module _ {J : Type 0} (json : Json J) where
  -- The events of a sweep, in order; an error of AppendEvent is ignored.
  unfoldable pub append_all :
      (ℕ → Option String) → ℕ → List RuntimeEvent → SqliteStore → SqliteStore
  append_all faults i [] s = s
  append_all faults i (ev ∷ events) s =
      append_all faults (suc i) events (append_event json (faults i) ev s).0

  -- One sweep of the goroutine; `none` is a panic of Enumerate.
  unfoldable pub swept : Sweep → SqliteStore → Option SqliteStore
  unfolding append_all
  swept w s = elim (enumerate w.hash w.observed_at w.entries) [
    | none ↦ none
    | some processes ↦
        let done =
          sweep_once (sqlite_orphans json) w.new_id "local-node" w.now processes
            (list_recoverable_executions json w.fault s) (s, w.orphan_faults) in
        some (append_all w.event_faults 0 done.0.events done.0.store.0)
  ]

  -- The start of a server on a database: Bootstrap, and no nodes. An error of Bootstrap is fatal.
  unfoldable pub restarted :
      Host
      → String
      → (ℕ → ℤ)
      → (ℕ → ℤ)
      → (ℕ → String)
      → Option String
      → (ℕ → Option String)
      → SqliteStore
      → Result Server
  restarted host epoch clock later new_id fault faults s =
      elim (bootstrap (inspect_process host) epoch clock later new_id
        (list_recoverable_executions json fault s)) [
          | err e ↦ err e
          | ok effects ↦
              ok (record {
                nodes = new_in_memory_store;
                database = perform_all json faults effects s;
              })
        ]

module _ {J : Type 0} (json : Json J) (zero_node : NodeRecord) (zero : LaunchExecutionRecord) where
  -- The answer, and the server as a handler leaves it.
  abbrev answered :
      {A : Type 0}
      → (Reply A → Answer J)
      → InMemoryStore
      → Reply A × SqliteStore
      → Option (Answer J × Server)
  answered wrap nodes (reply, database) =
      some (wrap reply, record { nodes = nodes; database = database })

  abbrev pub ingested :
      SqliteStore → Option (Reply String × InMemoryStore) → Option (Answer J × Server)
  ingested database none = none
  ingested database (some (reply, nodes)) = answered with_collection nodes (reply, database)

  abbrev pub planned : Server → Option (Reply LaunchPlanResult) → Option (Answer J × Server)
  planned s none = none
  planned s (some reply) = some (with_plan reply, s)

  abbrev pub executed :
      InMemoryStore
      → Option (Reply LaunchExecutionRecord × SqliteStore)
      → Option (Answer J × Server)
  executed nodes none = none
  executed nodes (some done) = answered with_record nodes done

  -- The handler of a route; `none` is a panic.
  unfoldable pub serve : Call → Request → Server → Option (Answer J × Server)
  serve c on_healthz s = some (with_health (healthz c.goos), s)
  serve c on_list_nodes s = some (with_nodes (list_nodes c.order s.nodes), s)
  serve c (on_get_node id) s = some (with_node (handle_get_node id s.nodes), s)
  serve c (on_ingest bound) s = ingested s.database (ingest c.now bound s.nodes)
  serve c (on_explain_node_decision id) s =
      some (with_explanation (explain_node_decision id s.nodes), s)
  serve c (on_explain_schedule bound) s =
      some (with_decision (explain_schedule c.visit c.clock c.order c.now bound s.nodes), s)
  serve c (on_select_node bound) s =
      some (with_selection (select_node c.visit c.clock c.order c.now bound s.nodes), s)
  serve c (on_plan_launch bound) s = planned s (
      plan_launch c.trace_order c.hints_order c.visit c.clock c.order c.now bound s.nodes
        c.then_nodes)
  serve c on_list_launches s =
      answered with_summaries s.nodes
        (list_launches json (resolve_inspector c.host) c.fault c.polls s.database)
  serve c (on_validate_launch bound) s =
      some (with_validation (handle_validate_launch c.trace_order c.hints_order bound s.nodes), s)
  serve c (on_dry_run_launch bound) s = some (
    with_dry_run
        (dry_run_launch c.trace_order c.hints_order (resolve_executor c.host) bound s.nodes),
    s,
  )
  serve c (on_execute_launch bound) s =
      executed s.nodes
        (execute_launch json (services_of zero_node c s.nodes) c.save_faults bound s.database)
  serve c (on_inspect_launch id) s =
      answered with_record s.nodes
        (inspect_launch json (resolve_inspector c.host) c.fault (c.polls 0) id s.database)
  serve c (on_observe_launch id) s = answered with_observation s.nodes (
      observe_launch json (resolve_inspector c.host) c.fault c.events_fault (c.polls 0) id
        s.database)
  serve c (on_inspect_readiness id) s =
      answered with_readiness s.nodes
        (inspect_readiness json (resolve_inspector c.host) c.fault (c.polls 0) id s.database)
  serve c (on_inspect_trace id) s =
      some (with_trace (inspect_trace json (resolve_inspector c.host) c.fault id s.database), s)
  serve c (on_inspect_events id) s =
      some (with_events (inspect_events json (resolve_inspector c.host) c.fault id s.database), s)
  serve c (on_terminate_launch id) s = answered with_termination s.nodes (
      handle_terminate_launch json (services_of zero_node c s.nodes) c.save_faults zero c.fault id
        s.database)
  serve c (on_list_orphans filter) s =
      some (with_orphans (handle_list_orphans json c.fault filter s.database), s)
  serve c (on_get_orphan id) s =
      some (with_orphan (handle_get_orphan json c.fault id s.database), s)
