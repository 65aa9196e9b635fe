-- ===== src/Api/Launches.antt =====
-- schedune-control-plane/internal/api/launch_handlers.go: the handlers of launches and executions.
use schedune.Base.{
  ◌-◌, String, Bool, true, false, not, ◌||◌, Option, none, some, List, if◌then◌else◌, ◌==◌, ltb,
  same_bool, length, drop,
}
use schedune.Base.Int64.{ℤ, eqb_ℤ}
use schedune.Schema.Execution.{
  LaunchState, exited, failed, terminated, same_state, ReadinessSignalSummary,
  LaunchExecutionRecord, RuntimeEvent, reconcile_payload, Inspector,
}
use schedune.Lifecycle.Reconcile.{reconcile}
use schedune.Sqlite.{Json, SqliteStore, save_execution, append_event}
use schedune.Api.Readiness.{backend_name}

-- materialSignalChanged
unfoldable pub material_signal_changed :
    Option ReadinessSignalSummary → Option ReadinessSignalSummary → Bool
material_signal_changed none none = false
material_signal_changed none (some b) = true
material_signal_changed (some a) none = true
material_signal_changed (some a) (some b) =
    not (same_bool a.control_socket_exists b.control_socket_exists)
    || not (same_bool a.control_socket_dial_ok b.control_socket_dial_ok)
    || not (same_bool a.backend_ready_signal b.backend_ready_signal)
    || not (a.backend_signal_source == b.backend_signal_source)
    || not (same_bool a.startup_grace_elapsed b.startup_grace_elapsed)

-- The two lines on the exit code, before and after.
abbrev pub exit_code_changed : Option ℤ → Option ℤ → Bool
exit_code_changed none none = false
exit_code_changed none (some b) = true
exit_code_changed (some a) none = false
exit_code_changed (some a) (some b) = not (eqb_ℤ a b)

-- `changed`, for the record before and after the poll.
unfoldable pub is_material : LaunchExecutionRecord → LaunchExecutionRecord → Bool
unfolding material_signal_changed
is_material before rec =
    not (same_state before.state rec.state)
    || not (before.runtime_liveness == rec.runtime_liveness)
    || not (before.runtime_readiness == rec.runtime_readiness)
    || exit_code_changed before.exit_code rec.exit_code
    || material_signal_changed before.readiness_signal rec.readiness_signal

-- The event of a material change, with its id and its time.
abbrev pub reconcile_event :
    String → ℤ → LaunchExecutionRecord → LaunchExecutionRecord → RuntimeEvent
reconcile_event id now before rec = record {
  event_id = id;
  execution_id = rec.execution_id;
  event_type = "ReconcileStateChanged";
  timestamp_sec = now;
  reason_code = "";
  payload_json = reconcile_payload (record {
    execution_id = rec.execution_id;
    node_id = rec.node_id;
    before_state = before.state;
    after_state = rec.state;
    before_liveness = before.runtime_liveness;
    after_liveness = rec.runtime_liveness;
    before_readiness = before.runtime_readiness;
    after_readiness = rec.runtime_readiness;
    exit_code = rec.exit_code;
    signal = rec.readiness_signal;
  });
}

abbrev pub is_over : LaunchState → Bool
is_over s = same_state s exited || same_state s failed || same_state s terminated

-- What reconcileExecution is given besides the record: the readings of the clock by Reconcile, by its
-- trace step and for the event, the id of the event, and the errors of the driver for each statement.
pub record Poll : Type 0 where
  pub now : ℤ
  pub later : ℤ
  pub event_at : ℤ
  pub event_id : String
  pub append_fault : Option String
  pub save_fault : Option String

-- The last events of an observation: twenty at most.
unfoldable pub recent : {E : Type 0} → List E → List E
recent events = if ltb 20 (length events) then drop (length events - 20) events else events

module _ {J : Type 0} (json : Json J) (resolve : String → Inspector) where
  -- reconcileExecution after Reconcile. An error of AppendEvent is ignored.
  unfoldable pub record_poll :
      Poll
      → LaunchExecutionRecord
      → LaunchExecutionRecord × Option String
      → SqliteStore
      → LaunchExecutionRecord × SqliteStore × Option String
  unfolding is_material
  record_poll poll before (rec, some e) s = (rec, s, some e)
  record_poll poll before (rec, none) s =
      let event = reconcile_event poll.event_id poll.event_at before rec in
      let appended = (append_event json poll.append_fault event s).0 in
      let noted = if is_material before rec then appended else s in
      let (saved, e) = save_execution json poll.save_fault rec noted in (rec, saved, e)

  -- reconcileExecution: the record and the store as it leaves them, and its error.
  unfoldable pub reconcile_execution :
      Poll
      → LaunchExecutionRecord
      → SqliteStore
      → LaunchExecutionRecord × SqliteStore × Option String
  unfolding record_poll
  reconcile_execution poll rec s =
      if is_over rec.state
      then (rec, s, none)
      else record_poll poll rec
          (reconcile poll.now poll.later (resolve (backend_name rec.prepared_state)) rec) s
