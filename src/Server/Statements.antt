-- ===== src/Server/Statements.antt =====
-- Each statement on the database keeps it sound and extends it
-- (schedune-control-plane/internal/store/sqlite: db.go and orphans.go).
use mathlib.Core.List.{append-nil, append_assoc}
use mathlib.Core.Path.{subst}
use schedune.Base.{
  ◌≡◌, refl, sym, ap, ◌∙◌, String, false, Option, none, some, List, [], ◌∷◌, ◌++◌, map, All, ◌==◌,
  eq_iff, Result, ok, err, Bool-cases, inl, inr,
}
use schedune.Base.Int64.{ℤ}
use schedune.Base.Unique.{Unique, Unique-append}
use schedune.Schema.Execution.{state_text, LaunchExecutionRecord, RuntimeEvent}
use schedune.Schema.Orphan.{OrphanRecord}
use schedune.Sqlite.{
  Json, ExecutionRow, EventRow, SqliteStore, upsert_execution, execution_row, has_event,
  save_payload, save_execution, append_payload, append_event,
}
use schedune.Sqlite.Orphans.{mark_missing_as_disappeared, orphan_row, upsert_orphan}
use schedune.Server.Database.{
  origin_of, execution_ids, event_ids, orphan_ids, Extends, upsert-Unique, upsert-origin,
  has_event_lem, upsert_row-Unique, mark_rows-ids,
}

pub Extends-refl : (s : SqliteStore) → Extends s s
Extends-refl s = record {
  later_executions = [];
  executions_kept = sym (append-nil _);
  later_events = [];
  events_kept = sym (append-nil _);
}

pub Extends-trans : (s t u : SqliteStore) → Extends s t → Extends t u → Extends s u
Extends-trans s t u a b = record {
  later_executions = a.later_executions ++ b.later_executions;
  executions_kept =
      b.executions_kept
      ∙ ap (λ l. l ++ b.later_executions) a.executions_kept
      ∙ append_assoc _ a.later_executions b.later_executions;
  later_events = a.later_events ++ b.later_events;
  events_kept =
      b.events_kept
      ∙ ap (λ l. l ++ b.later_events) a.events_kept
      ∙ append_assoc _ a.later_events b.later_events;
}

module _ {J : Type 0} (json : Json J) where
  -- The payload of the row is what Marshal writes for a record with the row's id, state and time.
  pub record IsMarshalled (row : ExecutionRow) : Type 0 where
    pub rec : LaunchExecutionRecord
    pub written : json.marshal_execution rec ≡ ok row.payload_json
    pub same_id : row.execution_id ≡ rec.execution_id
    pub same_state : row.state ≡ state_text rec.state
    pub same_update : row.updated_at_sec ≡ rec.updated_at_sec

  -- The columns agree with the payloads, and the primary keys are unique.
  pub record IsSound (s : SqliteStore) : Type 0 where
    pub marshalled : All IsMarshalled s.executions
    pub executions_unique : Unique (execution_ids s.executions)
    pub events_unique : Unique (event_ids s.events)
    pub orphans_unique : Unique (orphan_ids s.orphans)

  pub record Grows (s t : SqliteStore) : Type 0 where
    pub sound : IsSound s → IsSound t
    pub extends : Extends s t

  pub Grows-refl : (s : SqliteStore) → Grows s s
  Grows-refl s = record { sound = λ k. k; extends = Extends-refl s }

  pub Grows-trans : (s t u : SqliteStore) → Grows s t → Grows t u → Grows s u
  Grows-trans s t u a b = record {
    sound = λ k. b.sound (a.sound k);
    extends = Extends-trans s t u a.extends b.extends;
  }

  upsert-IsMarshalled :
      (rec : LaunchExecutionRecord) (payload : String) (rows : List ExecutionRow)
      → json.marshal_execution rec ≡ ok payload
      → All IsMarshalled rows
      → All IsMarshalled (upsert_execution (execution_row rec payload) rows)
  unfolding upsert_execution
  upsert-IsMarshalled rec payload [] written all = (
    record { rec = rec; written = written; same_id = refl; same_state = refl; same_update = refl },
    tt,
  )
  upsert-IsMarshalled rec payload (old ∷ rows) written (one, all) =
      elim (Bool-cases (old.execution_id == rec.execution_id)) [
        | inl same ↦ rw same (
          record {
            rec = rec;
            written = written;
            same_id = (eq_iff old.execution_id rec.execution_id).0 same;
            same_state = refl;
            same_update = refl;
          },
          all,
        )
        | inr differs ↦ rw differs (one, upsert-IsMarshalled rec payload rows written all)
      ]

  save_payload-Grows :
      (fault : Option String) (rec : LaunchExecutionRecord) (r : Result String) (s : SqliteStore)
      → json.marshal_execution rec ≡ r
      → Grows s (save_payload json fault rec r s).0
  unfolding save_payload
  save_payload-Grows none rec (ok payload) s written =
      let row = execution_row rec payload in
      let (newer, kept) = upsert-origin row s.executions in
      record {
        sound = λ k. record {
          marshalled = upsert-IsMarshalled rec payload s.executions written k.marshalled;
          executions_unique = upsert-Unique row s.executions k.executions_unique;
          events_unique = k.events_unique;
          orphans_unique = k.orphans_unique;
        };
        extends = record {
          later_executions = newer;
          executions_kept = kept;
          later_events = [];
          events_kept = sym (append-nil _);
        };
      }
  save_payload-Grows (some e) rec (ok payload) s written = Grows-refl s
  save_payload-Grows fault rec (err e) s written = Grows-refl s

  pub save-Grows :
      (fault : Option String) (rec : LaunchExecutionRecord) (s : SqliteStore)
      → Grows s (save_execution json fault rec s).0
  unfolding save_execution
  save-Grows fault rec s = save_payload-Grows fault rec (json.marshal_execution rec) s refl

  -- A row that has a new id, at the end of the table of events.
  event-Grows :
      (row : EventRow) (s : SqliteStore)
      → has_event row.event_id s.events ≡ false
      → Grows s (record s { events = s.events ++ row ∷ [] })
  event-Grows row s fresh = record {
    sound = λ k. record {
      marshalled = k.marshalled;
      executions_unique = k.executions_unique;
      events_unique = subst Unique (sym (map-append s.events)) (
          Unique-append (event_ids s.events) row.event_id
            (sym (has_event_lem row.event_id s.events) ∙ fresh) k.events_unique);
      orphans_unique = k.orphans_unique;
    };
    extends = record {
      later_executions = [];
      executions_kept = sym (append-nil _);
      later_events = row ∷ [];
      events_kept = refl;
    };
  }
    where
      map-append :
          (rows : List EventRow)
          → event_ids (rows ++ row ∷ []) ≡ event_ids rows ++ row.event_id ∷ []
      map-append [] = refl
      map-append (r ∷ rows) = ap (λ l. r.event_id ∷ l) (map-append rows)

  append_payload-Grows :
      (fault : Option String) (ev : RuntimeEvent) (r : Result String) (s : SqliteStore)
      → Grows s (append_payload json fault ev r s).0
  unfolding append_payload
  append_payload-Grows none ev (ok payload) s = elim (Bool-cases (has_event ev.event_id s.events)) [
    | inl known ↦ rw known (Grows-refl s)
    | inr fresh ↦ rw fresh (event-Grows _ s fresh)
  ]
  append_payload-Grows (some e) ev (ok payload) s = Grows-refl s
  append_payload-Grows fault ev (err e) s = Grows-refl s

  pub append-Grows :
      (fault : Option String) (ev : RuntimeEvent) (s : SqliteStore)
      → Grows s (append_event json fault ev s).0
  unfolding append_event
  append-Grows fault ev s = append_payload-Grows fault ev (json.marshal_payload ev.payload_json) s

  -- A statement on the orphans that keeps their ids unique.
  orphans-Grows :
      (s t : SqliteStore)
      → t.executions ≡ s.executions
      → t.events ≡ s.events
      → (Unique (orphan_ids s.orphans) → Unique (orphan_ids t.orphans))
      → Grows s t
  orphans-Grows s t executions events unique = record {
    sound = λ k. record {
      marshalled = subst (All IsMarshalled) (sym executions) k.marshalled;
      executions_unique =
          subst (λ l. Unique (execution_ids l)) (sym executions) k.executions_unique;
      events_unique = subst (λ l. Unique (event_ids l)) (sym events) k.events_unique;
      orphans_unique = unique k.orphans_unique;
    };
    extends = record {
      later_executions = [];
      executions_kept = ap (map origin_of) executions ∙ sym (append-nil _);
      later_events = [];
      events_kept = events ∙ sym (append-nil _);
    };
  }

  pub upsert_orphan-Grows :
      (fault : Option String) (rec : OrphanRecord) (s : SqliteStore)
      → Grows s (upsert_orphan json fault rec s).0
  unfolding upsert_orphan
  upsert_orphan-Grows none rec s =
      orphans-Grows s _ refl refl (upsert_row-Unique (orphan_row json rec) s.orphans)
  upsert_orphan-Grows (some e) rec s = Grows-refl s

  pub mark-Grows :
      (fault : Option String) (observed : List String) (now : ℤ) (s : SqliteStore)
      → Grows s (mark_missing_as_disappeared fault observed now s).0
  unfolding mark_missing_as_disappeared
  mark-Grows none observed now s =
      orphans-Grows s _ refl refl (subst Unique (sym (mark_rows-ids observed now s.orphans)))
  mark-Grows (some e) observed now s = Grows-refl s
