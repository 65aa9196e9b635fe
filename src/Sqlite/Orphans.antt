-- ===== src/Sqlite/Orphans.antt =====
-- schedune-control-plane/internal/store/sqlite/orphans.go: the orphans in the database, and the store
-- that the sweep sees. `fault` is the error of the driver, if there is one (see Sqlite).
pub mod Lawful
use schedune.Base.{
  ◌≡◌, String, Bool, true, false, not, ◌&&◌, ◌||◌, Option, none, some, List, [], ◌∷◌, map, keep_if,
  is_empty, has_text, if◌then◌else◌, ◌==◌, Result, ok, err,
}
use schedune.Base.Int64.{ℤ}
use schedune.Schema.Orphan.{OrphanRecord, OrphanFilter, active, disappeared}
use schedune.Recovery.Sweep.{Sighting, OrphanStore}
use schedune.Sqlite.{Json, OrphanRow, SqliteStore}

-- INSERT ... ON CONFLICT(orphan_id) DO UPDATE SET ...
unfoldable pub upsert_row : OrphanRow → List OrphanRow → List OrphanRow
upsert_row row [] = row ∷ []
upsert_row row (old ∷ rows) =
    let rest = upsert_row row rows in
    if old.orphan_id == row.orphan_id
    then record old {
      pid = row.pid;
      ppid = row.ppid;
      classification = row.classification;
      status = row.status;
      reason_code = row.reason_code;
      last_seen_at_sec = row.last_seen_at_sec;
      recovery_epoch = row.recovery_epoch;
      details_json = row.details_json;
    }
      ∷ rows
    else old ∷ rest

-- SELECT ... FROM orphans WHERE orphan_id = ?
unfoldable pub select_orphan : String → List OrphanRow → Option OrphanRow
select_orphan id [] = none
select_orphan id (row ∷ rows) =
    let rest = select_orphan id rows in if row.orphan_id == id then some row else rest

-- A condition of the query, which is there where the filter's text is not empty.
abbrev passes : String → String → Bool
passes wanted column = wanted == "" || column == wanted

unfoldable pub passes_filter : OrphanFilter → OrphanRow → Bool
passes_filter filter row =
    passes filter.backend row.backend
    && passes filter.status row.status
    && passes filter.classification row.classification

-- `status = 'Active'`, and `orphan_id NOT IN (...)` where there are ids.
abbrev is_missing : List String → OrphanRow → Bool
is_missing observed row =
    row.status == active && (is_empty observed || not (has_text row.orphan_id observed))

unfoldable pub mark_rows : List String → ℤ → List OrphanRow → List OrphanRow
mark_rows observed now [] = []
mark_rows observed now (row ∷ rows) =
    let rest = mark_rows observed now rows in
    (if is_missing observed row
      then record row { status = disappeared; last_seen_at_sec = now }
      else row)
    ∷ rest

-- The text of a field that Marshal writes; its error is ignored.
abbrev text_or_empty : Result String → String
text_or_empty (ok text) = text
text_or_empty (err e) = ""

-- A field that Unmarshal reads; its error is ignored and leaves the field empty.
abbrev or_empty : {A : Type 0} → Result (List A) → List A
or_empty (ok xs) = xs
or_empty (err e) = []

unfoldable pub mark_missing_as_disappeared :
    Option String → List String → ℤ → SqliteStore → SqliteStore × Option String
unfolding mark_rows
mark_missing_as_disappeared (some e) observed now s = (s, some e)
mark_missing_as_disappeared none observed now s =
    (record s { orphans = mark_rows observed now s.orphans }, none)

module _ {J : Type 0} (json : Json J) where
  abbrev pub orphan_row : OrphanRecord → OrphanRow
  orphan_row rec = record {
    orphan_id = rec.orphan_id;
    backend = rec.backend;
    pid = rec.pid;
    ppid = rec.ppid;
    command = rec.command;
    command_args_json = text_or_empty (json.marshal_args rec.command_args);
    command_fingerprint = rec.command_fingerprint;
    execution_id_hint = rec.execution_id_hint;
    workload_id_hint = rec.workload_id_hint;
    classification = rec.classification;
    status = rec.status;
    reason_code = rec.reason_code;
    first_seen_at_sec = rec.first_seen_at_sec;
    last_seen_at_sec = rec.last_seen_at_sec;
    node_id = rec.node_id;
    recovery_epoch = rec.recovery_epoch;
    details_json = text_or_empty (json.marshal_details rec.details);
  }

  unfoldable pub upsert_orphan :
      Option String → OrphanRecord → SqliteStore → SqliteStore × Option String
  unfolding upsert_row
  upsert_orphan (some e) rec s = (s, some e)
  upsert_orphan none rec s = (record s { orphans = upsert_row (orphan_row rec) s.orphans }, none)

  -- What Scan and the lines after it make of a row.
  abbrev pub read_orphan : OrphanRow → OrphanRecord
  read_orphan row = record {
    orphan_id = row.orphan_id;
    backend = row.backend;
    pid = row.pid;
    ppid = row.ppid;
    command = row.command;
    command_args = or_empty (json.unmarshal_args row.command_args_json);
    command_fingerprint = row.command_fingerprint;
    execution_id_hint = row.execution_id_hint;
    workload_id_hint = row.workload_id_hint;
    classification = row.classification;
    status = row.status;
    reason_code = row.reason_code;
    first_seen_at_sec = row.first_seen_at_sec;
    last_seen_at_sec = row.last_seen_at_sec;
    node_id = row.node_id;
    recovery_epoch = row.recovery_epoch;
    details = or_empty (json.unmarshal_details row.details_json);
  }

  abbrev pub read_found : Option OrphanRow → Option OrphanRecord
  read_found none = none
  read_found (some row) = some (read_orphan row)

  -- GetOrphan: an error, or the record if there is one.
  unfoldable pub get_orphan : Option String → String → SqliteStore → Result (Option OrphanRecord)
  unfolding select_orphan
  get_orphan (some e) id s = err e
  get_orphan none id s = ok (read_found (select_orphan id s.orphans))

  unfoldable pub list_orphans :
      Option String → OrphanFilter → SqliteStore → Result (List OrphanRecord)
  unfolding passes_filter
  list_orphans (some e) filter s = err e
  list_orphans none filter s = ok (map read_orphan (keep_if (passes_filter filter) s.orphans))

  -- The errors of the driver's next statements; when they are used up, there are no more.
  abbrev fault_of : List (Option String) → Option String
  fault_of [] = none
  fault_of (fault ∷ faults) = fault

  abbrev later : List (Option String) → List (Option String)
  later [] = []
  later (fault ∷ faults) = faults

  abbrev sighted : Option OrphanRow → Option Sighting
  sighted none = none
  sighted (some row) = some (record {
    pid = row.pid;
    classification = row.classification;
    status = row.status;
    first_seen_at_sec = row.first_seen_at_sec;
    last_seen_at_sec = row.last_seen_at_sec;
  })

  -- The database as the store of the sweep.
  abbrev pub sqlite_orphans : OrphanStore
  sqlite_orphans = record {
    State = SqliteStore × List (Option String);
    upsert_orphan = λ rec (s, faults).
        let done = upsert_orphan (fault_of faults) rec s in ((done.0, later faults), done.1);
    get_orphan = λ id (s, faults). ((s, later faults), get_orphan (fault_of faults) id s);
    mark_missing_as_disappeared = λ observed now (s, faults).
        let done = mark_missing_as_disappeared (fault_of faults) observed now s in
        ((done.0, later faults), done.1);
    view = λ (s, faults) id. sighted (select_orphan id s.orphans);
  }
