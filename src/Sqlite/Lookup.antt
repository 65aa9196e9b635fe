-- ===== src/Sqlite/Lookup.antt =====
-- What a saved execution reads as (schedune-control-plane/internal/store/sqlite/db.go).
use schedune.Base.{
  ◌≡◌, refl, String, Bool, Option, none, some, List, [], ◌∷◌, arith, if◌then◌else◌, ◌==◌, eq_iff,
  eq_refl, ap, ◌∙◌, Bool-cases, if_ind, inl, inr, Result, ok, err,
}
use schedune.Schema.Execution.{LaunchExecutionRecord, RuntimeEvent}
use schedune.Sqlite.{
  Json, ExecutionRow, SqliteStore, upsert_execution, execution_row, select_payload, save_payload,
  save_execution, get_execution, append_payload, append_event,
}
use schedune.Sqlite.Refinement.{RoundTrips}

select-upsert :
    (row : ExecutionRow) (id : String) (rows : List ExecutionRow)
    → select_payload id (upsert_execution row rows)
      ≡ (if row.execution_id == id then some row.payload_json else select_payload id rows)
unfolding select_payload upsert_execution
select-upsert row id [] = ground arith
select-upsert row id (old ∷ rows) = ground (
  arith,
  select-upsert row id rows,
  eq_iff old.execution_id row.execution_id,
  eq_iff old.execution_id id,
  eq_iff row.execution_id id,
)

module _ {J : Type 0} (json : Json J) where
  save_payload-get :
      (fault : Option String) (rec : LaunchExecutionRecord) (r : Result String) (s : SqliteStore)
      → ((payload : String) → r ≡ ok payload → json.unmarshal_execution payload ≡ ok rec)
      → (save_payload json fault rec r s).1 ≡ none
      → get_execution json none rec.execution_id (save_payload json fault rec r s).0 ≡ ok (some rec)
  unfolding save_payload get_execution
  save_payload-get none rec (ok payload) s reads h =
      rw
        (
          select-upsert (execution_row rec payload) rec.execution_id s.executions,
          eq_refl rec.execution_id,
          reads payload refl,
        )
        refl
  save_payload-get (some e) rec (ok payload) s reads h = ground arith
  save_payload-get fault rec (err e) s reads h = ground arith

  -- What a call of SaveExecution without an error has saved is what GetExecution returns.
  pub get-save :
      (fault : Option String) (rec : LaunchExecutionRecord) (s : SqliteStore)
      → RoundTrips json rec
      → (save_execution json fault rec s).1 ≡ none
      → get_execution json none rec.execution_id (save_execution json fault rec s).0 ≡ ok (some rec)
  unfolding save_execution
  get-save fault rec s reads h = save_payload-get fault rec (json.marshal_execution rec) s reads h

  append_payload-executions :
      (fault : Option String) (ev : RuntimeEvent) (r : Result String) (s : SqliteStore)
      → (append_payload json fault ev r s).0.executions ≡ s.executions
  unfolding append_payload
  append_payload-executions none ev (ok payload) s = ground arith
  append_payload-executions (some e) ev (ok payload) s = refl
  append_payload-executions fault ev (err e) s = refl

  pub get-append :
      (fault : Option String) (ev : RuntimeEvent) (s : SqliteStore) (id : String)
      → get_execution json none id (append_event json fault ev s).0 ≡ get_execution json none id s
  unfolding append_event get_execution
  get-append fault ev s id =
      rw (append_payload-executions fault ev (json.marshal_payload ev.payload_json) s) refl

  save_payload-events :
      (fault : Option String) (rec : LaunchExecutionRecord) (r : Result String) (s : SqliteStore)
      → (save_payload json fault rec r s).0.events ≡ s.events
  unfolding save_payload
  save_payload-events none rec (ok payload) s = refl
  save_payload-events (some e) rec (ok payload) s = refl
  save_payload-events fault rec (err e) s = refl

  pub save-events :
      (fault : Option String) (rec : LaunchExecutionRecord) (s : SqliteStore)
      → (save_execution json fault rec s).0.events ≡ s.events
  unfolding save_execution
  save-events fault rec s = save_payload-events fault rec (json.marshal_execution rec) s

  pub append-executions :
      (fault : Option String) (ev : RuntimeEvent) (s : SqliteStore)
      → (append_event json fault ev s).0.executions ≡ s.executions
  unfolding append_event
  append-executions fault ev s =
      append_payload-executions fault ev (json.marshal_payload ev.payload_json) s

  save_payload-failed :
      (fault : Option String) (rec : LaunchExecutionRecord) (r : Result String) (s : SqliteStore)
      (e : String)
      → (save_payload json fault rec r s).1 ≡ some e
      → (save_payload json fault rec r s).0 ≡ s
  unfolding save_payload
  save_payload-failed none rec (ok payload) s e h = ground arith
  save_payload-failed (some f) rec (ok payload) s e h = refl
  save_payload-failed fault rec (err f) s e h = refl

  pub save-failed :
      (fault : Option String) (rec : LaunchExecutionRecord) (s : SqliteStore) (e : String)
      → (save_execution json fault rec s).1 ≡ some e
      → (save_execution json fault rec s).0 ≡ s
  unfolding save_execution
  save-failed fault rec s e h = save_payload-failed fault rec (json.marshal_execution rec) s e h

  save_payload-refused :
      (e : String) (rec : LaunchExecutionRecord) (r : Result String) (s : SqliteStore)
      → (save_payload json (some e) rec r s).0 ≡ s
  unfolding save_payload
  save_payload-refused e rec (ok payload) s = refl
  save_payload-refused e rec (err f) s = refl

  -- A save that the driver refuses changes nothing.
  pub save-refused :
      (e : String) (rec : LaunchExecutionRecord) (s : SqliteStore)
      → (save_execution json (some e) rec s).0 ≡ s
  unfolding save_execution
  save-refused e rec s = save_payload-refused e rec (json.marshal_execution rec) s

  -- JSON carries the record: Marshal writes it, and Unmarshal reads what it wrote.
  pub record Carries (rec : LaunchExecutionRecord) : Type 0 where
    pub payload : String
    pub written : json.marshal_execution rec ≡ ok payload
    pub is_read : json.unmarshal_execution payload ≡ ok rec

  -- What a call of SaveExecution leaves of what GetExecution returned for the id of its record.
  abbrev pub kept :
      Option String
      → LaunchExecutionRecord
      → Result (Option LaunchExecutionRecord)
      → Result (Option LaunchExecutionRecord)
  kept none rec before = ok (some rec)
  kept (some e) rec before = before

  pub get-save_of_Carries :
      (fault : Option String) (rec : LaunchExecutionRecord) (s : SqliteStore) (id : String)
      → Carries rec
      → get_execution json none id (save_execution json fault rec s).0 ≡ (
          if rec.execution_id == id
          then kept fault rec (get_execution json none id s)
          else get_execution json none id s)
  unfolding save_execution save_payload get_execution
  get-save_of_Carries none rec s id c =
      rw (c.written, select-upsert (execution_row rec c.payload) id s.executions)
        (elim (Bool-cases (rec.execution_id == id)) [
          | inl same ↦ rw (same, c.is_read) refl
          | inr differs ↦ rw differs refl
        ])
  get-save_of_Carries (some e) rec s id c =
      rw c.written
        (if_ind (λ r. get_execution json none id s ≡ r) (rec.execution_id == id) refl refl)

  pub get-save_self :
      (rec : LaunchExecutionRecord) (s : SqliteStore)
      → Carries rec
      → get_execution json none rec.execution_id (save_execution json none rec s).0 ≡ ok (some rec)
  get-save_self rec s c =
      get-save_of_Carries none rec s rec.execution_id c
      ∙ ap (λ (b : Bool). if b then ok (some rec) else get_execution json none rec.execution_id s)
          (eq_refl rec.execution_id)
