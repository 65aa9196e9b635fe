-- ===== src/Server/Reachable.antt =====
-- What holds of the database over the whole life of a server: requests and sweeps in any order, with
-- starts of the server in between (schedune-control-plane/cmd/schedune/main.go).
use mathlib.Core.Path.{subst}
use schedune.Base.{
  ◌≡◌, ℕ, String, Option, none, some, arith, Option-cases, Result-cases, inl, inr, some_injective,
  ok_injective, Result, ok, err,
}
use schedune.Base.Int64.{ℤ}
use schedune.Node.{NodeRecord}
use schedune.Store.{InMemoryStore}
use schedune.Schema.Spec.{LaunchSpec}
use schedune.Schema.Plan.{LaunchPlanResult}
use schedune.Schema.Execution.{LaunchExecutionRecord}
use schedune.Orchestrate.Calls.{Services, Machine}
use schedune.Recovery.Bootstrap.{bootstrap}
use schedune.Recovery.Sweep.{sweep_once}
use schedune.Sqlite.Orphans.{sqlite_orphans}
use schedune.Runtime.Executors.{Host}
use schedune.Runtime.Enumerate.{enumerate}
use schedune.Sqlite.{Json, SqliteStore, get_execution, list_events, list_recoverable_executions}
use schedune.Runtime.Inspectors.{resolve_inspector, inspect_process}
use schedune.Api.{Reply}
use schedune.Api.Nodes.{ingest}
use schedune.Api.Planning.{plan_launch}
use schedune.Api.Readiness.{build_readiness_response}
use schedune.Api.Executions.{observation_of, inspect_launch, inspect_readiness, observe_launch}
use schedune.Api.Starting.{started, execute_launch, handle_terminate_launch}
use schedune.Server.{
  Server, Request, Answer, Call, Sweep, services_of, ingested, planned, executed, serve, swept,
  restarted, on_healthz, on_list_nodes, on_get_node, on_ingest, on_explain_node_decision,
  on_explain_schedule, on_select_node, on_plan_launch, on_list_launches, on_validate_launch,
  on_dry_run_launch, on_execute_launch, on_inspect_launch, on_observe_launch, on_inspect_readiness,
  on_inspect_trace, on_inspect_events, on_terminate_launch, on_list_orphans, on_get_orphan,
}
use schedune.Server.Database.{Extends}
use schedune.Server.Statements.{IsSound, Grows, Grows-refl, Grows-trans}
use schedune.Server.Handled.{
  with_execution-Grows, list_launches-Grows, perform_all-Grows, append_all-Grows, sweep_once-Grows,
}

none_or_some : {A : Type 0} {a : A} → none ≡ some a → ⊥
none_or_some h = ground arith

err_or_ok : {A : Type 0} {e : String} {a : A} → err e ≡ ok a → ⊥
err_or_ok h = ground arith

module _ {J : Type 0} (json : Json J) (zero_node : NodeRecord) (zero : LaunchExecutionRecord) where
  -- One step of a server: a request that is answered, a sweep, or the end of the process and the start
  -- of another on the same database.
  infix 40 ◌⇒◌
  pub data ◌⇒◌ : Server → Server → Type 0 where
    serves :
        {s t : Server} (call : Call) (request : Request) (answer : Answer J)
        → serve json zero_node zero call request s ≡ some (answer, t)
        → s ⇒ t
    sweeps :
        {s : Server} {database : SqliteStore} (sweep : Sweep)
        → swept json sweep s.database ≡ some database
        → s ⇒ record s { database = database }
    restarts :
        {s t : Server} (host : Host) (epoch : String) (clock later : ℕ → ℤ) (new_id : ℕ → String)
        (fault : Option String) (faults : ℕ → Option String)
        → restarted json host epoch clock later new_id fault faults s.database ≡ ok t
        → s ⇒ t

  infix 40 ◌⇒*◌
  pub data ◌⇒*◌ : Server → Server → Type 0 where
    here : {s : Server} → s ⇒* s
    then : {s t u : Server} → s ⇒ t → t ⇒* u → s ⇒* u

  abbrev database_after : Server → Option (Answer J × Server) → SqliteStore
  database_after s none = s.database
  database_after s (some (answer, t)) = t.database

  ingested-Grows :
      (s : Server) (r : Option (Reply String × InMemoryStore))
      → Grows json s.database (database_after s (ingested json zero_node zero s.database r))
  ingested-Grows s none = Grows-refl json s.database
  ingested-Grows s (some done) = Grows-refl json s.database

  planned-Grows :
      (s : Server) (r : Option (Reply LaunchPlanResult))
      → Grows json s.database (database_after s (planned json zero_node zero s r))
  planned-Grows s none = Grows-refl json s.database
  planned-Grows s (some reply) = Grows-refl json s.database

  started-Grows :
      (faults : ℕ → Option String) (s : Server) (m : Option Machine)
      → Grows json s.database (
          database_after s
            (executed json zero_node zero s.nodes (started json faults s.database m)))
  started-Grows faults s none = Grows-refl json s.database
  started-Grows faults s (some m) = perform_all-Grows json faults m.effects s.database

  execute-Grows :
      (s : Server) (o : Services) (faults : ℕ → Option String) (bound : Result LaunchSpec)
      → Grows json s.database (
          database_after s
            (executed json zero_node zero s.nodes (execute_launch json o faults bound s.database)))
  unfolding execute_launch
  execute-Grows s o faults (err e) = Grows-refl json s.database
  execute-Grows s o faults (ok spec) = started-Grows faults s _

  serve-Grows :
      (c : Call) (q : Request) (s : Server)
      → Grows json s.database (database_after s (serve json zero_node zero c q s))
  unfolding serve inspect_launch inspect_readiness observe_launch handle_terminate_launch
  serve-Grows c (on_ingest bound) s = ingested-Grows s (ingest c.now bound s.nodes)
  serve-Grows c (on_plan_launch bound) s = planned-Grows s (
      plan_launch c.trace_order c.hints_order c.visit c.clock c.order c.now bound s.nodes
        c.then_nodes)
  serve-Grows c on_list_launches s =
      list_launches-Grows json (resolve_inspector c.host) c.fault c.polls s.database
  serve-Grows c (on_execute_launch bound) s =
      execute-Grows s (services_of zero_node c s.nodes) c.save_faults bound
  serve-Grows c (on_inspect_launch id) s =
      with_execution-Grows json (resolve_inspector c.host) (c.polls 0) (λ rec t. rec)
        (get_execution json c.fault id s.database) s.database
  serve-Grows c (on_observe_launch id) s =
      with_execution-Grows json (resolve_inspector c.host) (c.polls 0)
        (λ rec t.
          observation_of json (resolve_inspector c.host) (list_events json c.events_fault id t) rec)
        (get_execution json c.fault id s.database) s.database
  serve-Grows c (on_inspect_readiness id) s =
      with_execution-Grows json (resolve_inspector c.host) (c.polls 0)
        (λ rec t. build_readiness_response rec) (get_execution json c.fault id s.database)
        s.database
  serve-Grows c (on_terminate_launch id) s = perform_all-Grows json c.save_faults _ s.database
  serve-Grows c on_healthz s = Grows-refl json s.database
  serve-Grows c on_list_nodes s = Grows-refl json s.database
  serve-Grows c (on_get_node id) s = Grows-refl json s.database
  serve-Grows c (on_explain_node_decision id) s = Grows-refl json s.database
  serve-Grows c (on_explain_schedule bound) s = Grows-refl json s.database
  serve-Grows c (on_select_node bound) s = Grows-refl json s.database
  serve-Grows c (on_validate_launch bound) s = Grows-refl json s.database
  serve-Grows c (on_dry_run_launch bound) s = Grows-refl json s.database
  serve-Grows c (on_inspect_trace id) s = Grows-refl json s.database
  serve-Grows c (on_inspect_events id) s = Grows-refl json s.database
  serve-Grows c (on_list_orphans filter) s = Grows-refl json s.database
  serve-Grows c (on_get_orphan id) s = Grows-refl json s.database

  swept-Grows : (w : Sweep) (s t : SqliteStore) → swept json w s ≡ some t → Grows json s t
  unfolding swept
  swept-Grows w s t h = elim (Option-cases (enumerate w.hash w.observed_at w.entries)) [
    | inl panics ↦ absurd (none_or_some (rw (panics, swept) at h))
    | inr (processes, found) ↦
        let execs = list_recoverable_executions json w.fault s in
        let done =
          sweep_once (sqlite_orphans json) w.new_id "local-node" w.now processes execs
            (s, w.orphan_faults) in
        subst (Grows json s) (some_injective (rw (found, swept) at h)) (
          Grows-trans json s _ _
            (sweep_once-Grows json w.new_id "local-node" w.now processes execs s w.orphan_faults)
            (append_all-Grows json w.event_faults 0 done.0.events done.0.store.0))
  ]

  restarted-Grows :
      (host : Host) (epoch : String) (clock later : ℕ → ℤ) (new_id : ℕ → String)
      (fault : Option String) (faults : ℕ → Option String) (s : SqliteStore) (t : Server)
      → restarted json host epoch clock later new_id fault faults s ≡ ok t
      → Grows json s t.database
  unfolding restarted
  restarted-Grows host epoch clock later new_id fault faults s t h =
      elim (Result-cases (
        bootstrap (inspect_process host) epoch clock later new_id
          (list_recoverable_executions json fault s))) [
            | inl (e, failed) ↦ absurd (err_or_ok (rw (failed, restarted) at h))
            | inr (effects, done) ↦
                subst (λ (u : Server). Grows json s u.database)
                  (ok_injective (rw (done, restarted) at h))
                  (perform_all-Grows json faults effects s)
          ]

  step-Grows : {s t : Server} → s ⇒ t → Grows json s.database t.database
  step-Grows {s} (serves call request answer h) =
      subst (λ r. Grows json s.database (database_after s r)) h (serve-Grows call request s)
  step-Grows {s} (sweeps sweep h) = swept-Grows sweep s.database _ h
  step-Grows {s} {t} (restarts host epoch clock later new_id fault faults h) =
      restarted-Grows host epoch clock later new_id fault faults s.database t h

  steps-Grows : {s t : Server} → s ⇒* t → Grows json s.database t.database
  steps-Grows {s} here = Grows-refl json s.database
  steps-Grows {s} {t} (then {t = u} step steps) =
      Grows-trans json s.database u.database t.database (step-Grows step) (steps-Grows steps)

  -- Over any steps of a server, which are requests, sweeps and starts in any order, with any errors of
  -- the driver: a database that was sound stays sound, that is, the columns of an execution agree with
  -- its payload and the keys of the three tables are unique; no execution is lost, and its workload,
  -- node and time of creation stay the same; no event is lost or changed.
  pub IsSound-of_steps :
      (s t : Server)
      → s ⇒* t
      → IsSound json s.database
      → IsSound json t.database × Extends s.database t.database
  IsSound-of_steps s t steps sound =
      let grows = steps-Grows steps in (grows.sound sound, grows.extends)
