-- ===== src/Server/Handled.antt =====
-- Every handler, every sweep and every start of a server keeps the database sound and extends it
-- (schedune-control-plane/internal/api, internal/recovery and cmd/schedune/main.go).
use schedune.Base.{
  ℕ, suc, String, Option, none, some, List, [], ◌∷◌, if_ind, Result, ok, err, Bool-cases,
  Result-cases, inl, inr,
}
use schedune.Base.Int64.{ℤ}
use schedune.Schema.Execution.{LaunchExecutionRecord, RuntimeEvent, Inspector}
use schedune.Schema.Orphan.{OrphanRecord}
use schedune.Orchestrate.Calls.{Effect, saved_execution, appended_event}
use schedune.Recovery.{EnumeratedProcess, match_enumerated_process_to_execution}
use schedune.Recovery.Sweep.{
  Sweeping, sweep_orphan, sweep_process, sweep_all, mark_disappeared, sweep_once,
}
use schedune.Sqlite.{Json, SqliteStore, list_executions}
use schedune.Sqlite.Orphans.{sqlite_orphans}
use schedune.Api.Launches.{
  Poll, is_over, is_material, reconcile_event, record_poll, reconcile_execution,
}
use schedune.Api.Executions.{with_execution, summarize, list_launches}
use schedune.Api.Starting.{perform, perform_all}
use schedune.Server.{append_all}
use schedune.Server.Statements.{
  Grows, Grows-refl, Grows-trans, save-Grows, append-Grows, upsert_orphan-Grows, mark-Grows,
}

module _ {J : Type 0} (json : Json J) where
  module _ (resolve : String → Inspector) where
    record_poll-Grows :
        (poll : Poll) (before : LaunchExecutionRecord) (r : LaunchExecutionRecord × Option String)
        (s : SqliteStore)
        → Grows json s (record_poll json resolve poll before r s).1
    unfolding record_poll
    record_poll-Grows poll before (rec, some e) s = Grows-refl json s
    record_poll-Grows poll before (rec, none) s =
        Grows-trans json s _ _
          (if_ind (λ t. Grows json s t) (is_material before rec)
            (append-Grows json poll.append_fault
              (reconcile_event poll.event_id poll.event_at before rec) s)
            (Grows-refl json s))
          (save-Grows json poll.save_fault rec _)

    pub reconcile_execution-Grows :
        (poll : Poll) (rec : LaunchExecutionRecord) (s : SqliteStore)
        → Grows json s (reconcile_execution json resolve poll rec s).1
    unfolding reconcile_execution
    reconcile_execution-Grows poll rec s = elim (Bool-cases (is_over rec.state)) [
      | inl over ↦ rw over (Grows-refl json s)
      | inr alive ↦ rw alive (record_poll-Grows poll rec _ s)
    ]

    pub with_execution-Grows :
        {A : Type 0} (poll : Poll) (show : LaunchExecutionRecord → SqliteStore → A)
        (r : Result (Option LaunchExecutionRecord)) (s : SqliteStore)
        → Grows json s (with_execution json resolve poll show r s).1
    unfolding with_execution
    with_execution-Grows poll show (err e) s = Grows-refl json s
    with_execution-Grows poll show (ok none) s = Grows-refl json s
    with_execution-Grows poll show (ok (some rec)) s = reconcile_execution-Grows poll rec s

    summarize-Grows :
        (polls : ℕ → Poll) (i : ℕ) (recs : List LaunchExecutionRecord) (s : SqliteStore)
        → Grows json s (summarize json resolve polls i recs s).1
    unfolding summarize
    summarize-Grows polls i [] s = Grows-refl json s
    summarize-Grows polls i (rec ∷ recs) s =
        Grows-trans json s _ _ (reconcile_execution-Grows (polls i) rec s)
          (summarize-Grows polls (suc i) recs _)

    pub list_launches-Grows :
        (fault : Option String) (polls : ℕ → Poll) (s : SqliteStore)
        → Grows json s (list_launches json resolve fault polls s).1
    unfolding list_launches
    list_launches-Grows fault polls s = elim (Result-cases (list_executions json fault s)) [
      | inl (e, failed) ↦ rw (failed, list_launches) (Grows-refl json s)
      | inr (recs, found) ↦ rw (found, list_launches) (summarize-Grows polls 0 recs s)
    ]

  perform-Grows :
      (fault : Option String) (effect : Effect) (s : SqliteStore)
      → Grows json s (perform json fault effect s)
  unfolding perform
  perform-Grows fault (saved_execution rec) s = save-Grows json fault rec s
  perform-Grows fault (appended_event ev) s = append-Grows json fault ev s

  pub perform_all-Grows :
      (faults : ℕ → Option String) (effects : List Effect) (s : SqliteStore)
      → Grows json s (perform_all json faults effects s)
  unfolding perform_all
  perform_all-Grows faults [] s = Grows-refl json s
  perform_all-Grows faults (effect ∷ older) s =
      Grows-trans json s _ _ (perform_all-Grows faults older s) (perform-Grows _ effect _)

  pub append_all-Grows :
      (faults : ℕ → Option String) (i : ℕ) (events : List RuntimeEvent) (s : SqliteStore)
      → Grows json s (append_all json faults i events s)
  unfolding append_all
  append_all-Grows faults i [] s = Grows-refl json s
  append_all-Grows faults i (ev ∷ events) s =
      Grows-trans json s _ _ (append-Grows json (faults i) ev s)
        (append_all-Grows faults (suc i) events _)

  module _ (new_id : ℕ → String) (node_id : String) where
    sweep_orphan-Grows :
        (orphan : OrphanRecord) (w : Sweeping (sqlite_orphans json) new_id node_id)
        → Grows json w.store.0 (sweep_orphan (sqlite_orphans json) new_id node_id orphan w).store.0
    unfolding sweep_orphan
    sweep_orphan-Grows orphan w = upsert_orphan-Grows json _ _ w.store.0

    sweep_process-Grows :
        (execs : List LaunchExecutionRecord) (p : EnumeratedProcess)
        (w : Sweeping (sqlite_orphans json) new_id node_id)
        → Grows json w.store.0
            (sweep_process (sqlite_orphans json) new_id node_id execs p w).store.0
    unfolding sweep_process
    sweep_process-Grows execs p w =
        elim (Bool-cases (match_enumerated_process_to_execution p execs).matched) [
          | inl matched ↦ rw matched (Grows-refl json w.store.0)
          | inr unmatched ↦ rw unmatched (sweep_orphan-Grows _ w)
        ]

    sweep_all-Grows :
        (execs : List LaunchExecutionRecord) (processes : List EnumeratedProcess)
        (w : Sweeping (sqlite_orphans json) new_id node_id)
        → Grows json w.store.0
            (sweep_all (sqlite_orphans json) new_id node_id execs processes w).store.0
    unfolding sweep_all
    sweep_all-Grows execs [] w = Grows-refl json w.store.0
    sweep_all-Grows execs (p ∷ processes) w =
        Grows-trans json w.store.0 _ _ (sweep_process-Grows execs p w)
          (sweep_all-Grows execs processes _)

    pub sweep_once-Grows :
        (now : ℤ) (processes : Result (List EnumeratedProcess))
        (execs : Result (List LaunchExecutionRecord)) (s : SqliteStore)
        (faults : List (Option String))
        → Grows json s
            (sweep_once
              (sqlite_orphans json)
              new_id
              node_id
              now
              processes
              execs
              (s, faults)).0.store.0
    unfolding sweep_once mark_disappeared
    sweep_once-Grows now (err e) execs s faults = Grows-refl json s
    sweep_once-Grows now (ok processes) (err e) s faults = Grows-refl json s
    sweep_once-Grows now (ok processes) (ok execs) s faults =
        Grows-trans json s _ _ (sweep_all-Grows execs processes _) (mark-Grows json _ _ now _)
