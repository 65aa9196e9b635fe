-- ===== src/Api/Reconciled.antt =====
-- What a poll by the API leaves in the database (schedune-control-plane/internal/api/launch_handlers.go,
-- reconcileExecution).
use schedune.Base.{◌≡◌, refl, String, Option, none, some, List, if◌then◌else◌, ok}
use schedune.Schema.Execution.{
  RuntimeEvent, EventPayloadReconcile, reconcile_payload, LaunchExecutionRecord, Inspector,
}
use schedune.Lifecycle.Graph.{IsTerminal}
use schedune.Lifecycle.Reconcile.{reconcile}
use schedune.Sqlite.{Json, EventRow, SqliteStore, get_execution, append_event}
use schedune.Api.Readiness.{backend_name}
use schedune.Api.Material.{IsUnchanged}
use schedune.Api.Launches.{Poll, is_material, reconcile_event}

module _ {J : Type 0} (json : Json J) (resolve : String → Inspector) (poll : Poll) where
  -- What Reconcile makes of the execution, with the inspector of its backend.
  abbrev pub polled : LaunchExecutionRecord → LaunchExecutionRecord × Option String
  polled rec = reconcile poll.now poll.later (resolve (backend_name rec.prepared_state)) rec

  -- An event that tells the poll: what the execution showed before it and after it.
  pub record IsEventOf (before after : LaunchExecutionRecord) (ev : RuntimeEvent) : Type 0 where
    pub payload : EventPayloadReconcile
    pub same_id : ev.event_id ≡ poll.event_id
    pub same_execution : ev.execution_id ≡ after.execution_id
    pub same_time : ev.timestamp_sec ≡ poll.event_at
    pub same_payload : ev.payload_json ≡ reconcile_payload payload
    pub states : (payload.before_state ≡ before.state) × (payload.after_state ≡ after.state)
    pub liveness :
        (payload.before_liveness ≡ before.runtime_liveness)
        × (payload.after_liveness ≡ after.runtime_liveness)
    pub readiness :
        (payload.before_readiness ≡ before.runtime_readiness)
        × (payload.after_readiness ≡ after.runtime_readiness)
    pub exit : payload.exit_code ≡ after.exit_code
    pub signal : payload.signal ≡ after.readiness_signal

  event-IsEventOf :
      (before after : LaunchExecutionRecord)
      → IsEventOf before after (reconcile_event poll.event_id poll.event_at before after)
  event-IsEventOf before after = record {
    payload = _;
    same_id = refl;
    same_execution = refl;
    same_time = refl;
    same_payload = refl;
    states = (refl, refl);
    liveness = (refl, refl);
    readiness = (refl, refl);
    exit = refl;
    signal = refl;
  }

  -- The events after a poll: as before where it shows nothing new of the execution, with the event of
  -- the poll where it does, unless the driver refuses that.
  pub data Noted (before after : LaunchExecutionRecord) (s : SqliteStore) (events : List EventRow)
      : Type 0 where
    is_silent : IsUnchanged before after → events ≡ s.events → Noted before after s events
    is_noted :
        ¬ IsUnchanged before after
        → events
          ≡ (append_event json poll.append_fault
              (reconcile_event poll.event_id poll.event_at before after)
              s).0.events
        → Noted before after s events

  abbrev noted : LaunchExecutionRecord → LaunchExecutionRecord → SqliteStore → SqliteStore
  noted before rec s =
      if is_material before rec
      then (append_event json poll.append_fault
          (reconcile_event poll.event_id poll.event_at before rec) s).0
      else s

  -- The result of a poll: the record, the store and the error.
  pub data Polled (rec : LaunchExecutionRecord) (s : SqliteStore)
      (after : LaunchExecutionRecord × SqliteStore × Option String) : Type 0 where
    was_over : IsTerminal rec.state → after ≡ (rec, s, none) → Polled rec s after
    is_refused :
        (e : String)
        → ¬ IsTerminal rec.state
        → (polled rec).1 ≡ some e
        → after ≡ ((polled rec).0, s, some e)
        → Polled rec s after
    is_saved :
        ¬ IsTerminal rec.state
        → (polled rec).1 ≡ none
        → after.0 ≡ (polled rec).0
        → after.2 ≡ none
        → get_execution json none after.0.execution_id after.1 ≡ ok (some after.0)
        → Noted rec after.0 s after.1.events
        → Polled rec s after
    is_not_saved :
        (e : String)
        → ¬ IsTerminal rec.state
        → (polled rec).1 ≡ none
        → after.0 ≡ (polled rec).0
        → after.2 ≡ some e
        → after.1.executions ≡ s.executions
        → Noted rec after.0 s after.1.events
        → Polled rec s after
