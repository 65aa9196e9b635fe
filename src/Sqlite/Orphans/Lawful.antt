-- ===== src/Sqlite/Orphans/Lawful.antt =====
-- The database meets what the sweep relies on (schedune-control-plane/internal/store/sqlite/orphans.go
-- and internal/recovery/orphan_sweep.go).
use schedune.Base.{
  ◌≡◌, refl, ap, String, Option, none, some, List, [], ◌∷◌, if◌then◌else◌, ◌==◌, eq_iff, arith, ok,
  ok_injective, Bool-cases, inl, inr,
}
use schedune.Base.Int64.{ℤ}
use schedune.Schema.Orphan.{OrphanRecord}
use schedune.Recovery.Sweep.{sighting_of, same_sighting, merged, marked, IsLawful}
use schedune.Sqlite.{Json, OrphanRow, SqliteStore}
use schedune.Sqlite.Orphans.{
  upsert_row, select_orphan, mark_rows, mark_missing_as_disappeared, orphan_row, upsert_orphan,
  read_found, get_orphan, sighted, sqlite_orphans, fault_of,
}

module _ {J : Type 0} (json : Json J) where
  select-upsert :
      (rec : OrphanRecord) (id : String) (rows : List OrphanRow)
      → sighted json (select_orphan id (upsert_row (orphan_row json rec) rows)) ≡ (
          if rec.orphan_id == id
          then some (merged (sighted json (select_orphan id rows)) (sighting_of rec))
          else sighted json (select_orphan id rows))
  unfolding select_orphan upsert_row
  select-upsert rec id [] = ground arith
  select-upsert rec id (row ∷ rows) = ground (
    arith,
    select-upsert rec id rows,
    eq_iff row.orphan_id rec.orphan_id,
    eq_iff row.orphan_id id,
    eq_iff rec.orphan_id id,
  )

  select-mark_here :
      (observed : List String) (now : ℤ) (id : String) (row : OrphanRow) (rows : List OrphanRow)
      → row.orphan_id ≡ id
      → sighted json (select_orphan id (mark_rows observed now (row ∷ rows)))
        ≡ marked observed now id (sighted json (select_orphan id (row ∷ rows)))
  unfolding select_orphan mark_rows
  select-mark_here [] now id row rows h = ground (arith, eq_iff row.orphan_id id)
  select-mark_here (x ∷ observed) now id row rows h = ground (arith, eq_iff row.orphan_id id)

  read_found_lem : (row : Option OrphanRow) → same_sighting (read_found json row) ≡ sighted json row
  read_found_lem none = refl
  read_found_lem (some row) = refl

  select-mark :
      (observed : List String) (now : ℤ) (id : String) (rows : List OrphanRow)
      → sighted json (select_orphan id (mark_rows observed now rows))
        ≡ marked observed now id (sighted json (select_orphan id rows))
  unfolding select_orphan mark_rows
  select-mark observed now id [] = refl
  select-mark observed now id (row ∷ rows) = elim (Bool-cases (row.orphan_id == id)) [
    | inl same ↦ select-mark_here observed now id row rows ((eq_iff row.orphan_id id).0 same)
    | inr differs ↦ ground (arith, select-mark observed now id rows)
  ]

  upsert_lem :
      (fault : Option String) (rec : OrphanRecord) (s : SqliteStore) (id : String)
      → (upsert_orphan json fault rec s).1 ≡ none
      → sighted json (select_orphan id (upsert_orphan json fault rec s).0.orphans) ≡ (
          if rec.orphan_id == id
          then some (merged (sighted json (select_orphan id s.orphans)) (sighting_of rec))
          else sighted json (select_orphan id s.orphans))
  unfolding upsert_orphan
  upsert_lem none rec s id h = select-upsert rec id s.orphans
  upsert_lem (some e) rec s id h = ground arith

  upsert_failed_lem :
      (fault : Option String) (rec : OrphanRecord) (s : SqliteStore) (e : String)
      → (upsert_orphan json fault rec s).1 ≡ some e
      → (upsert_orphan json fault rec s).0 ≡ s
  unfolding upsert_orphan
  upsert_failed_lem none rec s e h = ground arith
  upsert_failed_lem (some f) rec s e h = refl

  get_lem :
      (fault : Option String) (id : String) (s : SqliteStore) (found : Option OrphanRecord)
      → get_orphan json fault id s ≡ ok found
      → same_sighting found ≡ sighted json (select_orphan id s.orphans)
  unfolding get_orphan
  get_lem none id s found h = rw (← ok_injective h) (read_found_lem (select_orphan id s.orphans))
  get_lem (some e) id s found h = ground arith

  mark_lem :
      (fault : Option String) (observed : List String) (now : ℤ) (s : SqliteStore) (id : String)
      → (mark_missing_as_disappeared fault observed now s).1 ≡ none
      → sighted json (select_orphan id (mark_missing_as_disappeared fault observed now s).0.orphans)
        ≡ marked observed now id (sighted json (select_orphan id s.orphans))
  unfolding mark_missing_as_disappeared
  mark_lem none observed now s id h = select-mark observed now id s.orphans
  mark_lem (some e) observed now s id h = ground arith

  mark_failed_lem :
      (fault : Option String) (observed : List String) (now : ℤ) (s : SqliteStore) (e : String)
      → (mark_missing_as_disappeared fault observed now s).1 ≡ some e
      → (mark_missing_as_disappeared fault observed now s).0 ≡ s
  unfolding mark_missing_as_disappeared
  mark_failed_lem none observed now s e h = ground arith
  mark_failed_lem (some f) observed now s e h = refl

  -- The database, with any errors of the driver, is a lawful store for the sweep.
  pub sqlite_orphans-IsLawful : IsLawful (sqlite_orphans json)
  sqlite_orphans-IsLawful = record {
    view-upsert = λ rec (s, faults) id h. (
      merged (sighted json (select_orphan id s.orphans)) (sighting_of rec),
      inr refl,
      upsert_lem (fault_of json faults) rec s id h,
    );
    view-upsert_failed = λ rec (s, faults) id e h.
        ap (λ (t : SqliteStore). sighted json (select_orphan id t.orphans))
          (upsert_failed_lem (fault_of json faults) rec s e h);
    view-get = λ j (s, faults) id. refl;
    get-view = λ id (s, faults) found h. get_lem (fault_of json faults) id s found h;
    view-mark =
        λ observed now (s, faults) id h. mark_lem (fault_of json faults) observed now s id h;
    view-mark_failed = λ observed now (s, faults) id e h.
        ap (λ (t : SqliteStore). sighted json (select_orphan id t.orphans))
          (mark_failed_lem (fault_of json faults) observed now s e h);
  }
