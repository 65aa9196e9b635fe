-- ===== src/Server/Database.antt =====
-- What every statement keeps of the database
-- (schedune-control-plane/internal/store/sqlite: db.go and orphans.go).
use mathlib.Core.List.{append-nil}
use schedune.Base.{
  ◌≡◌, refl, sym, ap, String, ◌||◌, List, [], ◌∷◌, ◌++◌, map, has_text, ◌==◌, eq_iff, arith,
  Bool-cases, inl, inr,
}
use schedune.Base.Int64.{ℤ}
use schedune.Base.Unique.{Unique}
use schedune.Sqlite.{ExecutionRow, EventRow, OrphanRow, SqliteStore, upsert_execution, has_event}
use schedune.Sqlite.Orphans.{upsert_row, mark_rows}

-- The columns of an execution that no statement changes.
abbrev pub origin_of : ExecutionRow → String × String × String × ℤ
origin_of row = (row.execution_id, row.workload_id, row.node_id, row.created_at_sec)

abbrev pub execution_ids : List ExecutionRow → List String
execution_ids = map (λ row. row.execution_id)

abbrev pub event_ids : List EventRow → List String
event_ids = map (λ row. row.event_id)

abbrev pub orphan_ids : List OrphanRow → List String
orphan_ids = map (λ row. row.orphan_id)

-- The database t holds what s holds: the executions, whose origin does not change, with others after
-- them, and the events, with others after them.
pub record Extends (s t : SqliteStore) : Type 0 where
  pub later_executions : List (String × String × String × ℤ)
  pub executions_kept : map origin_of t.executions ≡ map origin_of s.executions ++ later_executions
  pub later_events : List EventRow
  pub events_kept : t.events ≡ s.events ++ later_events

upsert-ids :
    (row : ExecutionRow) (x : String) (rows : List ExecutionRow)
    → has_text x (execution_ids (upsert_execution row rows))
      ≡ (has_text x (execution_ids rows) || row.execution_id == x)
unfolding upsert_execution
upsert-ids row x [] = ground arith
upsert-ids row x (old ∷ rows) = ground (
  arith,
  upsert-ids row x rows,
  eq_iff old.execution_id row.execution_id,
  eq_iff old.execution_id x,
  eq_iff row.execution_id x,
)

pub upsert-Unique :
    (row : ExecutionRow) (rows : List ExecutionRow)
    → Unique (execution_ids rows)
    → Unique (execution_ids (upsert_execution row rows))
unfolding upsert_execution
upsert-Unique row [] u = (refl, tt)
upsert-Unique row (old ∷ rows) (off, u) = elim (Bool-cases (old.execution_id == row.execution_id)) [
  | inl same ↦ rw same (off, u)
  | inr differs ↦ rw differs (
    ground (
      arith,
      upsert-ids row old.execution_id rows,
      eq_iff old.execution_id row.execution_id,
      eq_iff row.execution_id old.execution_id,
    ),
    upsert-Unique row rows u,
  )
]

-- The rows after an upsert, in the columns that do not change.
pub upsert-origin :
    (row : ExecutionRow) (rows : List ExecutionRow)
    → (newer : List (String × String × String × ℤ)) × (map origin_of (upsert_execution row rows)
        ≡ map origin_of rows ++ newer)
unfolding upsert_execution
upsert-origin row [] = (origin_of row ∷ [], refl)
upsert-origin row (old ∷ rows) = elim (Bool-cases (old.execution_id == row.execution_id)) [
  | inl same ↦ ([], rw same (sym (append-nil _)))
  | inr differs ↦
      let (newer, kept) = upsert-origin row rows in
      (newer, rw differs (ap (λ l. origin_of old ∷ l) kept))
]

pub has_event_lem :
    (id : String) (rows : List EventRow) → has_event id rows ≡ has_text id (event_ids rows)
unfolding has_event
has_event_lem id [] = refl
has_event_lem id (row ∷ rows) = rw (has_event_lem id rows) refl

upsert-orphan_ids :
    (row : OrphanRow) (x : String) (rows : List OrphanRow)
    → has_text x (orphan_ids (upsert_row row rows))
      ≡ (has_text x (orphan_ids rows) || row.orphan_id == x)
unfolding upsert_row
upsert-orphan_ids row x [] = ground arith
upsert-orphan_ids row x (old ∷ rows) = ground (
  arith,
  upsert-orphan_ids row x rows,
  eq_iff old.orphan_id row.orphan_id,
  eq_iff old.orphan_id x,
  eq_iff row.orphan_id x,
)

pub upsert_row-Unique :
    (row : OrphanRow) (rows : List OrphanRow)
    → Unique (orphan_ids rows)
    → Unique (orphan_ids (upsert_row row rows))
unfolding upsert_row
upsert_row-Unique row [] u = (refl, tt)
upsert_row-Unique row (old ∷ rows) (off, u) = elim (Bool-cases (old.orphan_id == row.orphan_id)) [
  | inl same ↦ rw same (off, u)
  | inr differs ↦ rw differs (
    ground (
      arith,
      upsert-orphan_ids row old.orphan_id rows,
      eq_iff old.orphan_id row.orphan_id,
      eq_iff row.orphan_id old.orphan_id,
    ),
    upsert_row-Unique row rows u,
  )
]

pub mark_rows-ids :
    (observed : List String) (now : ℤ) (rows : List OrphanRow)
    → orphan_ids (mark_rows observed now rows) ≡ orphan_ids rows
unfolding mark_rows
mark_rows-ids observed now [] = refl
mark_rows-ids observed now (row ∷ rows) = ground (arith, mark_rows-ids observed now rows)
