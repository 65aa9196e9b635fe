-- ===== src/Examples/Sweeps.antt =====
-- Theorems on the sweep, at concrete inputs: on the database, and on a store that overwrites.
use schedune.Base.{
  ◌≡◌, ◌↔◌, refl, sym, ap, inl, String, true, none, some, Option, List, [], ◌∷◌, map, not, ◌&&◌,
  has_text, if◌then◌else◌, ◌==◌, eq_iff, arith, ok, err, ok_injective,
}
use schedune.Base.Int64.{ℤ, pos}
use schedune.Schema.Orphan.{OrphanRecord, active, disappeared}
use schedune.Sqlite.{Json, new_sqlite_store}
use schedune.Sqlite.Orphans.{mark_missing_as_disappeared, sqlite_orphans}
use schedune.Sqlite.Orphans.Lawful.{sqlite_orphans-IsLawful}
use schedune.Recovery.{
  match_enumerated_process_to_execution, decide_match, collect_matches, classify_orphan,
}
use schedune.Recovery.Sweep.{
  sighting_of, same_sighting, marked, is_active, OrphanStore, IsLawful, orphan_at, fresh_sweep,
  sweep_all,
}
use schedune.Recovery.Sweep.Observed.{after_sweep, IsUpserted, sweep_once-is_active_iff}
use schedune.Recovery.Sweep.Remembered.{
  first_seen, Round, AlwaysFinds, sweep_rounds, sweep_rounds-first_seen,
}
use schedune.Examples.Data.{started_execution, process}
use schedune.Examples.Stores.{json_for}

abbrev json : Json String
json = json_for started_execution

sweep_once-is_active_iff_example :
    (is_active (
        (sqlite_orphans json).view
          (after_sweep
            (sqlite_orphans json)
            (sqlite_orphans-IsLawful json)
            (λ i. "id")
            "node-a"
            (pos 1020)
            (process ∷ [])
            []
            (new_sqlite_store, [])).store
          "orph-f")
      ≡ true)
    ↔ IsUpserted
        (sqlite_orphans json)
        (sqlite_orphans-IsLawful json)
        (λ i. "id")
        "node-a"
        []
        "orph-f"
        (fresh_sweep (sqlite_orphans json) (λ i. "id") "node-a" (new_sqlite_store, []))
        (process ∷ [])
unfolding mark_missing_as_disappeared sweep_all match_enumerated_process_to_execution decide_match
    collect_matches
sweep_once-is_active_iff_example =
    sweep_once-is_active_iff (sqlite_orphans json) (sqlite_orphans-IsLawful json) (λ i. "id")
      "node-a" (pos 1020) (process ∷ []) [] (new_sqlite_store, []) "orph-f" refl

-- A store that holds the records as they are handed over, the newest first.
abbrev find_orphan : String → List OrphanRecord → Option OrphanRecord
find_orphan id [] = none
find_orphan id (rec ∷ recs) =
    let rest = find_orphan id recs in if rec.orphan_id == id then some rec else rest

abbrev mark_record : List String → ℤ → OrphanRecord → OrphanRecord
mark_record observed now rec =
    if rec.status == active && not (has_text rec.orphan_id observed)
    then record rec { status = disappeared; last_seen_at_sec = now }
    else rec

abbrev newest : OrphanStore
newest = record {
  State = List OrphanRecord;
  upsert_orphan = λ rec s. (rec ∷ s, none);
  get_orphan = λ id s. (s, ok (find_orphan id s));
  mark_missing_as_disappeared = λ observed now s. (map (mark_record observed now) s, none);
  view = λ s id. same_sighting (find_orphan id s);
}

find-upsert :
    (rec : OrphanRecord) (s : List OrphanRecord) (id : String)
    → same_sighting (find_orphan id (rec ∷ s))
      ≡ (if rec.orphan_id == id then some (sighting_of rec) else same_sighting (find_orphan id s))
find-upsert rec s id = ground arith

find-mark :
    (observed : List String) (now : ℤ) (s : List OrphanRecord) (id : String)
    → same_sighting (find_orphan id (map (mark_record observed now) s))
      ≡ marked observed now id (same_sighting (find_orphan id s))
find-mark observed now [] id = refl
find-mark observed now (rec ∷ s) id =
    ground (arith, find-mark observed now s id, eq_iff rec.orphan_id id)

newest-IsLawful : IsLawful newest
newest-IsLawful = record {
  view-upsert = λ rec s id h. (sighting_of rec, inl refl, find-upsert rec s id);
  view-upsert_failed = λ rec s id e h. ground arith;
  view-get = λ j s id. refl;
  get-view = λ id s found h. ap same_sighting (sym (ok_injective h));
  view-mark = λ observed now s id h. find-mark observed now s id;
  view-mark_failed = λ observed now s id e h. ground arith;
}

newest-AlwaysFinds : AlwaysFinds newest
newest-AlwaysFinds j s = (find_orphan j s, refl)

-- The process was seen before, at the second 900.
abbrev known : List OrphanRecord
known =
    record (orphan_at "node-a" process (match_enumerated_process_to_execution process [])) {
      first_seen_at_sec = pos 900;
    }
    ∷ []

abbrev rounds : List Round
rounds =
    record { now = pos 1020; processes = ok (process ∷ []); execs = ok [] }
    ∷ record { now = pos 1050; processes = err "open /proc"; execs = ok [] }
    ∷ record { now = pos 1080; processes = ok []; execs = ok [] }
    ∷ []

sweep_rounds-first_seen_example :
    first_seen (
      newest.view
        (sweep_rounds newest newest-IsLawful newest-AlwaysFinds
          (λ i. "id")
          "node-a"
          "orph-f"
          rounds
          known)
        "orph-f")
    ≡ some (pos 900)
unfolding classify_orphan
sweep_rounds-first_seen_example =
    sweep_rounds-first_seen newest newest-IsLawful newest-AlwaysFinds (λ i. "id") "node-a" "orph-f"
      rounds known (pos 900) refl
