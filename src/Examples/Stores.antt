-- ===== src/Examples/Stores.antt =====
-- Theorems on the database and the recovery, at concrete inputs.
use schedune.Base.{
  ◌≡◌, refl, ◌<>◌, ◌==◌, eq_refl, String, true, none, some, Option, List, [], ◌∷◌, if◌then◌else◌,
  ok, err, ok_injective,
}
use schedune.Base.Int64.{pos}
use schedune.Schema.Execution.{LaunchExecutionRecord}
use schedune.Store.{new_in_memory_store}
use schedune.Sqlite.{Json, new_sqlite_store}
use schedune.Sqlite.Refinement.{RoundTrips, Refines, save_all, accept_all, save_all-Refines}
use schedune.Sqlite.Lookup.{Carries}
use schedune.Recovery.Bootstrap.{recovered, recover_all, bootstrap}
use schedune.Recovery.Bootstrap.Restarted.{last_recovered, bootstrap-last_recovered}
use schedune.Sqlite.{get_execution}
use schedune.Api.Starting.{perform_all}
use schedune.Examples.Data.{started_execution, seen_alive, always}

-- A Marshal that names a record, and an Unmarshal that knows one of the names.
abbrev name_of : LaunchExecutionRecord → String
name_of rec = rec.execution_id <> "/" <> rec.runtime_liveness

abbrev pub json_for : LaunchExecutionRecord → Json String
json_for rec = record {
  marshal_execution = λ r. ok (name_of r);
  unmarshal_execution =
      λ text. if text == name_of rec then ok rec else err "unexpected end of input";
  marshal_payload = λ p. ok "{}";
  unmarshal_any = λ text. ok text;
  marshal_args = λ args. ok "[]";
  unmarshal_args = λ text. ok [];
  marshal_details = λ details. ok "{}";
  unmarshal_details = λ text. ok [];
}

pub json_for-Carries : (rec : LaunchExecutionRecord) → Carries (json_for rec) rec
json_for-Carries rec = record {
  payload = name_of rec;
  written = refl;
  is_read = rw (eq_refl (name_of rec)) refl;
}

pub json_for-RoundTrips : (rec : LaunchExecutionRecord) → RoundTrips (json_for rec) rec
json_for-RoundTrips rec payload written =
    rw (← ok_injective written) (rw (eq_refl (name_of rec)) refl)

abbrev saves : List (Option String × LaunchExecutionRecord)
saves = (none, started_execution) ∷ (some "database is locked", started_execution) ∷ []

save_all-Refines_example :
    Refines
      (json_for started_execution)
      (save_all (json_for started_execution) saves new_sqlite_store)
      (accept_all (json_for started_execution) saves new_in_memory_store)
save_all-Refines_example =
    save_all-Refines (json_for started_execution) saves
      (json_for-RoundTrips started_execution, (json_for-RoundTrips started_execution, tt))

abbrev json : Json String
json = json_for started_execution

abbrev rehydrated : LaunchExecutionRecord
rehydrated =
    (recovered (always (seen_alive true)) "epoch" (λ i. pos 2000) (λ i. pos 2001) (λ i. "id") 0
      started_execution).0

bootstrap-last_recovered_example :
    get_execution (json_for rehydrated) none "e1" (
      perform_all
        (json_for rehydrated)
        (λ i. none)
        (recover_all
          (always (seen_alive true))
          "epoch"
          (λ i. pos 2000)
          (λ i. pos 2001)
          (λ i. "id")
          0
          (started_execution ∷ [])
          [])
        new_sqlite_store)
    ≡ last_recovered
        (json_for rehydrated)
        (always (seen_alive true))
        "epoch"
        (λ i. pos 2000)
        (λ i. pos 2001)
        (λ i. "id")
        (λ i. none)
        "e1"
        0
        (started_execution ∷ [])
        (get_execution (json_for rehydrated) none "e1" new_sqlite_store)
unfolding bootstrap
bootstrap-last_recovered_example =
    bootstrap-last_recovered (json_for rehydrated) (always (seen_alive true)) "epoch"
      (λ i. pos 2000) (λ i. pos 2001) (λ i. "id") (λ i. none) (started_execution ∷ [])
      (recover_all (always (seen_alive true)) "epoch" (λ i. pos 2000) (λ i. pos 2001) (λ i. "id") 0
        (started_execution ∷ []) [])
      new_sqlite_store "e1" (json_for-Carries rehydrated, tt) refl
