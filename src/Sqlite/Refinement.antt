-- ===== src/Sqlite/Refinement.antt =====
-- The executions in the database refine those of the in-memory store
-- (schedune-control-plane/internal/store/sqlite/db.go and internal/store/memory.go).
use schedune.Base.{
  ◌≡◌, refl, ap, String, Bool, true, false, Option, none, some, List, [], ◌∷◌, map, keep_if, All,
  Bool-cases, inl, inr, ◌==◌, Result, ok, err,
}
use schedune.Base.Dict.{Dict, get, put}
use schedune.Schema.Execution.{state_text, LaunchExecutionRecord}
use schedune.Store as Memory
use schedune.Store.{InMemoryStore, new_in_memory_store}
use schedune.Sqlite.{
  Json, ExecutionRow, SqliteStore, new_sqlite_store, upsert_execution, execution_row,
  select_payload, read_selected, is_recoverable, save_payload, save_execution, get_execution,
  scan_executions, list_by_state_condition, list_executions, list_recoverable_executions,
}

module _ {J : Type 0} (json : Json J) where
  -- Unmarshal undoes Marshal at the record.
  abbrev pub RoundTrips : LaunchExecutionRecord → Type 0
  RoundTrips rec =
      (payload : String)
      → json.marshal_execution rec ≡ ok payload
      → json.unmarshal_execution payload ≡ ok rec

  -- The row holds the record under the id.
  pub record IsRowOf (row : ExecutionRow) (id : String) (rec : LaunchExecutionRecord) : Type 0 where
    pub same_id : row.execution_id ≡ id
    pub same_state : row.state ≡ state_text rec.state
    pub same_record : json.unmarshal_execution row.payload_json ≡ ok rec

  -- The table holds the entries of the map, one row for each.
  abbrev pub Holds : List ExecutionRow → Dict LaunchExecutionRecord → Type 0
  Holds [] [] = Unit
  Holds (row ∷ rows) ((id, rec) ∷ m) = IsRowOf row id rec × Holds rows m
  Holds _ _ = ⊥

  upsert_execution-Holds :
      (rec : LaunchExecutionRecord) (payload : String) (rows : List ExecutionRow)
      (m : Dict LaunchExecutionRecord)
      → json.unmarshal_execution payload ≡ ok rec
      → Holds rows m
      → Holds (upsert_execution (execution_row rec payload) rows) (put rec.execution_id rec m)
  unfolding upsert_execution put
  upsert_execution-Holds rec payload [] [] e h =
      (record { same_id = refl; same_state = refl; same_record = e }, tt)
  upsert_execution-Holds rec payload (row ∷ rows) ((id, old) ∷ m) e (r, h) =
      elim (Bool-cases (id == rec.execution_id)) [
        | inl same ↦
            rw (r.same_id, same) (record { same_id = refl; same_state = refl; same_record = e }, h)
        | inr differs ↦
            let off : (row.execution_id == rec.execution_id) ≡ false = rw r.same_id differs in
            rw (off, differs) (r, upsert_execution-Holds rec payload rows m e h)
      ]
  upsert_execution-Holds rec payload [] (_ ∷ m) e h = elim h [ ]
  upsert_execution-Holds rec payload (row ∷ rows) [] e h = elim h [ ]

  select_payload-Holds :
      (id : String) (rows : List ExecutionRow) (m : Dict LaunchExecutionRecord)
      → Holds rows m
      → read_selected json (select_payload id rows) ≡ ok (get id m)
  unfolding select_payload get
  select_payload-Holds id [] [] h = refl
  select_payload-Holds id (row ∷ rows) ((j, rec) ∷ m) (r, h) = elim (Bool-cases (j == id)) [
    | inl same ↦ rw (r.same_id, same, r.same_record) refl
    | inr differs ↦ rw (r.same_id, differs) (select_payload-Holds id rows m h)
  ]
  select_payload-Holds id [] (_ ∷ m) h = elim h [ ]
  select_payload-Holds id (row ∷ rows) [] h = elim h [ ]

  abbrev pub stored : String × LaunchExecutionRecord → LaunchExecutionRecord
  stored (id, rec) = rec

  abbrev pub has_state : (String → Bool) → String × LaunchExecutionRecord → Bool
  has_state condition (id, rec) = condition (state_text rec.state)

  scan_executions-Holds :
      (condition : String → Bool) (rows : List ExecutionRow) (m : Dict LaunchExecutionRecord)
      → Holds rows m
      → scan_executions json (keep_if (λ row. condition row.state) rows)
        ≡ ok (map stored (keep_if (has_state condition) m))
  unfolding scan_executions
  scan_executions-Holds condition [] [] h = refl
  scan_executions-Holds condition (row ∷ rows) ((j, rec) ∷ m) (r, h) =
      let rest = scan_executions-Holds condition rows m h in
      elim (Bool-cases (condition (state_text rec.state))) [
        | inl kept ↦ rw (r.same_state, kept, r.same_record, rest) refl
        | inr dropped ↦ rw (r.same_state, dropped) rest
      ]
  scan_executions-Holds condition [] (_ ∷ m) h = elim h [ ]
  scan_executions-Holds condition (row ∷ rows) [] h = elim h [ ]

  -- What a reader finds: the record under an id, all records, and those that are not over.
  pub record Refines (s : SqliteStore) (memory : InMemoryStore) : Type 0 where
    pub found : (id : String) → get_execution json none id s ≡ ok (Memory.get_execution id memory)
    pub listed : list_executions json none s ≡ ok (map stored memory.executions)
    pub recoverable :
        list_recoverable_executions json none s
        ≡ ok (map stored (keep_if (has_state is_recoverable) memory.executions))

  keep_all : (m : Dict LaunchExecutionRecord) → keep_if (has_state (λ state. true)) m ≡ m
  keep_all [] = refl
  keep_all (entry ∷ m) = ap (λ rest. entry ∷ rest) (keep_all m)

  pub Refines-of_Holds :
      (s : SqliteStore) (memory : InMemoryStore)
      → Holds s.executions memory.executions
      → Refines s memory
  unfolding get_execution list_executions list_recoverable_executions list_by_state_condition
      Memory.get_execution
  Refines-of_Holds s memory h = record {
    found = λ id. select_payload-Holds id s.executions memory.executions h;
    listed =
        rw (← keep_all memory.executions)
          (scan_executions-Holds (λ state. true) s.executions memory.executions h);
    recoverable = scan_executions-Holds is_recoverable s.executions memory.executions h;
  }

  -- Calls of SaveExecution, each with the error of the driver, if any.
  abbrev pub Saves : Type 0
  Saves = List (Option String × LaunchExecutionRecord)

  abbrev pub save_all : Saves → SqliteStore → SqliteStore
  save_all [] s = s
  save_all ((fault, rec) ∷ saves) s = save_all saves (save_execution json fault rec s).0

  -- The same calls on the in-memory store, without those that the driver or Marshal refuses.
  abbrev accept :
      Result String → Option String → LaunchExecutionRecord → InMemoryStore → InMemoryStore
  accept (ok payload) none rec memory = Memory.save_execution rec memory
  accept (ok payload) (some e) rec memory = memory
  accept (err e) fault rec memory = memory

  abbrev pub accept_all : Saves → InMemoryStore → InMemoryStore
  accept_all [] memory = memory
  accept_all ((fault, rec) ∷ saves) memory =
      accept_all saves (accept (json.marshal_execution rec) fault rec memory)

  save_payload-Holds :
      (fault : Option String) (rec : LaunchExecutionRecord) (r : Result String) (s : SqliteStore)
      (memory : InMemoryStore)
      → ((payload : String) → r ≡ ok payload → json.unmarshal_execution payload ≡ ok rec)
      → Holds s.executions memory.executions
      → Holds (save_payload json fault rec r s).0.executions (accept r fault rec memory).executions
  unfolding save_payload Memory.save_execution
  save_payload-Holds none rec (ok payload) s memory reads h =
      upsert_execution-Holds rec payload s.executions memory.executions (reads payload refl) h
  save_payload-Holds (some e) rec (ok payload) s memory reads h = h
  save_payload-Holds fault rec (err e) s memory reads h = h

  pub save_all-Holds :
      (saves : Saves) (s : SqliteStore) (memory : InMemoryStore)
      → All (λ call. RoundTrips call.1) saves
      → Holds s.executions memory.executions
      → Holds (save_all saves s).executions (accept_all saves memory).executions
  unfolding save_execution
  save_all-Holds [] s memory reads h = h
  save_all-Holds ((fault, rec) ∷ saves) s memory (reads, rest) h =
      save_all-Holds saves _ _ rest
        (save_payload-Holds fault rec (json.marshal_execution rec) s memory reads h)

  -- After any calls of SaveExecution on a new database, some of which the driver may refuse,
  -- GetExecution, ListExecutions and ListRecoverableExecutions return what an in-memory store holds
  -- after the calls that were not refused; this is for records that JSON can carry.
  pub save_all-Refines :
      (saves : Saves)
      → All (λ call. RoundTrips call.1) saves
      → Refines (save_all saves new_sqlite_store) (accept_all saves new_in_memory_store)
  save_all-Refines saves reads =
      Refines-of_Holds _ _ (save_all-Holds saves new_sqlite_store new_in_memory_store reads tt)
