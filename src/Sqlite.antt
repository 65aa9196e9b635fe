-- ===== src/Sqlite.antt =====
-- schedune-control-plane/internal/store/sqlite/db.go: the executions and the events in a database.
-- A table is the list of its rows, in the order of their insertion; SQL leaves the order of a query
-- without ORDER BY open. The statements are read as SQLite documents them; `fault` is the error that
-- the driver returns for a statement that it could not run, which then leaves the tables as they are.
-- The functions of encoding/json are an argument.
pub mod Refinement
pub mod Lookup
pub mod Ordered
pub mod Orphans
use schedune.Base.{
  String, Bool, true, false, not, ◌&&◌, ◌||◌, Option, none, some, List, [], ◌∷◌, ◌++◌, map, keep_if,
  if◌then◌else◌, ◌==◌, Result, ok, err,
}
use schedune.Base.Int64.{ℤ, ltb_ℤ}
use schedune.Base.Dict.{Dict}
use schedune.Schema.Execution.{
  LaunchState, state_text, LaunchExecutionRecord, RuntimeEvent, EventPayload,
}

-- json.Marshal and json.Unmarshal at the types that the store holds; `J` is what Unmarshal makes of a
-- text for an `interface{}`. An error is its message.
pub record Json (J : Type 0) : Type 0 where
  pub marshal_execution : LaunchExecutionRecord → Result String
  pub unmarshal_execution : String → Result LaunchExecutionRecord
  pub marshal_payload : EventPayload → Result String
  pub unmarshal_any : String → Result J
  pub marshal_args : List String → Result String
  pub unmarshal_args : String → Result (List String)
  pub marshal_details : Dict String → Result String
  pub unmarshal_details : String → Result (Dict String)

-- The tables of `migrate`.
pub record ExecutionRow : Type 0 where
  pub execution_id : String
  pub workload_id : String
  pub node_id : String
  pub state : String
  pub created_at_sec : ℤ
  pub updated_at_sec : ℤ
  pub payload_json : String

pub record EventRow : Type 0 where
  pub event_id : String
  pub execution_id : String
  pub event_type : String
  pub timestamp_sec : ℤ
  pub reason_code : String
  pub payload_json : String

pub record OrphanRow : Type 0 where
  pub orphan_id : String
  pub backend : String
  pub pid : ℤ
  pub ppid : Option ℤ
  pub command : String
  pub command_args_json : String
  pub command_fingerprint : String
  pub execution_id_hint : String
  pub workload_id_hint : String
  pub classification : String
  pub status : String
  pub reason_code : String
  pub first_seen_at_sec : ℤ
  pub last_seen_at_sec : ℤ
  pub node_id : String
  pub recovery_epoch : String
  pub details_json : String

pub record SqliteStore : Type 0 where
  pub executions : List ExecutionRow
  pub events : List EventRow
  pub orphans : List OrphanRow

-- A store over a new database.
abbrev pub new_sqlite_store : SqliteStore
new_sqlite_store = record { executions = []; events = []; orphans = [] }

-- INSERT ... ON CONFLICT(execution_id) DO UPDATE SET ...
unfoldable pub upsert_execution : ExecutionRow → List ExecutionRow → List ExecutionRow
upsert_execution row [] = row ∷ []
upsert_execution row (old ∷ rows) =
    let rest = upsert_execution row rows in
    if old.execution_id == row.execution_id
    then record old {
      state = row.state;
      updated_at_sec = row.updated_at_sec;
      payload_json = row.payload_json;
    }
      ∷ rows
    else old ∷ rest

abbrev pub execution_row : LaunchExecutionRecord → String → ExecutionRow
execution_row rec payload = record {
  execution_id = rec.execution_id;
  workload_id = rec.workload_id;
  node_id = rec.node_id;
  state = state_text rec.state;
  created_at_sec = rec.created_at_sec;
  updated_at_sec = rec.updated_at_sec;
  payload_json = payload;
}

-- SELECT payload_json FROM executions WHERE execution_id = ?
unfoldable pub select_payload : String → List ExecutionRow → Option String
select_payload id [] = none
select_payload id (row ∷ rows) =
    let rest = select_payload id rows in
    if row.execution_id == id then some row.payload_json else rest

-- `state NOT IN ('Failed', 'Terminated', 'Exited')`
abbrev pub is_recoverable : String → Bool
is_recoverable state = not (state == "Failed" || state == "Terminated" || state == "Exited")

-- The fields of a stored event, with the payload that Unmarshal makes of it, if any.
pub record ListedEvent (J : Type 0) : Type 0 where
  pub event_id : String
  pub execution_id : String
  pub event_type : String
  pub timestamp_sec : ℤ
  pub reason_code : String
  pub payload_json : Option J

-- The violation of a primary key.
unfoldable pub has_event : String → List EventRow → Bool
has_event id [] = false
has_event id (row ∷ rows) = let rest = has_event id rows in row.event_id == id || rest

-- ORDER BY timestamp_sec ASC, by insertion; equal timestamps stay in the order of the table, which SQL
-- leaves open.
unfoldable pub insert_by_time : EventRow → List EventRow → List EventRow
insert_by_time row [] = row ∷ []
insert_by_time row (next ∷ rows) =
    let rest = insert_by_time row rows in
    if ltb_ℤ next.timestamp_sec row.timestamp_sec then next ∷ rest else row ∷ next ∷ rows

unfoldable pub order_by_time : List EventRow → List EventRow
unfolding insert_by_time
order_by_time [] = []
order_by_time (row ∷ rows) = insert_by_time row (order_by_time rows)

-- The rows of an execution.
abbrev pub rows_of : String → List EventRow → List EventRow
rows_of id = keep_if (λ row. row.execution_id == id)

module _ {J : Type 0} (json : Json J) where
  -- SaveExecution after Marshal.
  unfoldable pub save_payload :
      Option String
      → LaunchExecutionRecord
      → Result String
      → SqliteStore
      → SqliteStore × Option String
  unfolding upsert_execution
  save_payload fault rec (err e) s = (s, some e)
  save_payload (some e) rec (ok payload) s = (s, some e)
  save_payload none rec (ok payload) s =
      (record s { executions = upsert_execution (execution_row rec payload) s.executions }, none)

  unfoldable pub save_execution :
      Option String → LaunchExecutionRecord → SqliteStore → SqliteStore × Option String
  unfolding save_payload
  save_execution fault rec s = save_payload fault rec (json.marshal_execution rec) s

  abbrev found_execution : Result LaunchExecutionRecord → Result (Option LaunchExecutionRecord)
  found_execution (err e) = err e
  found_execution (ok rec) = ok (some rec)

  abbrev pub read_selected : Option String → Result (Option LaunchExecutionRecord)
  read_selected none = ok none
  read_selected (some payload) = found_execution (json.unmarshal_execution payload)

  -- GetExecution: an error, or the record if there is one.
  unfoldable pub get_execution :
      Option String → String → SqliteStore → Result (Option LaunchExecutionRecord)
  unfolding select_payload
  get_execution (some e) id s = err e
  get_execution none id s = read_selected (select_payload id s.executions)

  -- The loop over the rows of a query, up to the first row that cannot be read.
  unfoldable pub scan_executions : List ExecutionRow → Result (List LaunchExecutionRecord)
  scan_executions [] = ok []
  scan_executions (row ∷ rows) =
      let rest = scan_executions rows in
      elim (json.unmarshal_execution row.payload_json) [
        | err e ↦ err e
        | ok rec ↦ elim rest [ err e ↦ err e | ok recs ↦ ok (rec ∷ recs) ]
      ]

  unfoldable pub list_by_state_condition :
      Option String → (String → Bool) → SqliteStore → Result (List LaunchExecutionRecord)
  unfolding scan_executions
  list_by_state_condition (some e) condition s = err e
  list_by_state_condition none condition s =
      scan_executions (keep_if (λ row. condition row.state) s.executions)

  unfoldable pub list_active_executions :
      Option String → SqliteStore → Result (List LaunchExecutionRecord)
  unfolding list_by_state_condition
  list_active_executions fault s = list_by_state_condition fault is_recoverable s

  unfoldable pub list_executions : Option String → SqliteStore → Result (List LaunchExecutionRecord)
  unfolding list_by_state_condition
  list_executions fault s = list_by_state_condition fault (λ state. true) s

  unfoldable pub list_recoverable_executions :
      Option String → SqliteStore → Result (List LaunchExecutionRecord)
  unfolding list_by_state_condition
  list_recoverable_executions fault s = list_by_state_condition fault is_recoverable s

  -- AppendEvent after Marshal; an event id that is there violates the primary key.
  unfoldable pub append_payload :
      Option String → RuntimeEvent → Result String → SqliteStore → SqliteStore × Option String
  unfolding has_event
  append_payload fault ev (err e) s = (s, some e)
  append_payload (some e) ev (ok payload) s = (s, some e)
  append_payload none ev (ok payload) s =
      if has_event ev.event_id s.events
      then (s, some "UNIQUE constraint failed: events.event_id")
      else (
        record s {
          events =
              s.events
              ++ record {
                event_id = ev.event_id;
                execution_id = ev.execution_id;
                event_type = ev.event_type;
                timestamp_sec = ev.timestamp_sec;
                reason_code = ev.reason_code;
                payload_json = payload;
              }
                ∷ [];
        },
        none,
      )

  unfoldable pub append_event :
      Option String → RuntimeEvent → SqliteStore → SqliteStore × Option String
  unfolding append_payload
  append_event fault ev s = append_payload fault ev (json.marshal_payload ev.payload_json) s

  abbrev read_payload : Result J → Option J
  read_payload (err e) = none
  read_payload (ok v) = some v

  abbrev pub listed_event : EventRow → ListedEvent J
  listed_event row = record {
    event_id = row.event_id;
    execution_id = row.execution_id;
    event_type = row.event_type;
    timestamp_sec = row.timestamp_sec;
    reason_code = row.reason_code;
    payload_json =
        if row.payload_json == "" then none else read_payload (json.unmarshal_any row.payload_json);
  }

  unfoldable pub list_events : Option String → String → SqliteStore → Result (List (ListedEvent J))
  unfolding order_by_time
  list_events (some e) id s = err e
  list_events none id s = ok (map listed_event (order_by_time (rows_of id s.events)))
