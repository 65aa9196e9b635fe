-- ===== src/Recovery/Sweep.antt =====
-- schedune-control-plane/internal/recovery/orphan_sweep.go: one sweep over the processes of the host.
-- The store of the orphans is an interface; what the stores of executions and events do besides is in
-- the arguments and in the list of the events that were handed to the event store.
pub mod Observed
pub mod Remembered
use schedune.Base.{
  ◌≡◌, ◌⊎◌, ℕ, suc, String, Bool, true, false, not, ◌&&◌, ◌||◌, Option, none, some, List, [], ◌∷◌,
  ◌++◌, if◌then◌else◌, ◌==◌, has_text, length, Result, ok, err,
}
use mathlib.Core.Option as Options
use schedune.Base.Int64.{ℤ}
use schedune.Schema.Orphan.{OrphanRecord, active, disappeared}
use schedune.Schema.Execution.{LaunchExecutionRecord, RuntimeEvent, orphan_payload}
use schedune.Recovery.{
  MatchResult, EnumeratedProcess, match_enumerated_process_to_execution, classify_orphan,
}

-- What the sweep reads of a stored orphan.
pub record Sighting : Type 0 where
  pub pid : ℤ
  pub classification : String
  pub status : String
  pub first_seen_at_sec : ℤ
  pub last_seen_at_sec : ℤ

abbrev pub sighting_of : OrphanRecord → Sighting
sighting_of rec = record {
  pid = rec.pid;
  classification = rec.classification;
  status = rec.status;
  first_seen_at_sec = rec.first_seen_at_sec;
  last_seen_at_sec = rec.last_seen_at_sec;
}

abbrev pub same_sighting : Option OrphanRecord → Option Sighting
same_sighting none = none
same_sighting (some rec) = some (sighting_of rec)

-- A new sighting with the time at which the old one was seen first.
abbrev pub merged : Option Sighting → Sighting → Sighting
merged none new = new
merged (some old) new = record new { first_seen_at_sec = old.first_seen_at_sec }

-- What a store may make of a new sighting: keep the time of the first sight that it has, or overwrite it.
abbrev pub IsUpsertOf : Option Sighting → Sighting → Sighting → Type 0
IsUpsertOf old new v = (v ≡ new) ⊎ (v ≡ merged old new)

abbrev pub is_active : Option Sighting → Bool
is_active none = false
is_active (some v) = v.status == active

-- What becomes of an orphan that is marked, unless it was observed.
abbrev pub marked : List String → ℤ → String → Option Sighting → Option Sighting
marked observed now id none = none
marked observed now id (some v) =
    if v.status == active && not (has_text id observed)
    then some (record v { status = disappeared; last_seen_at_sec = now })
    else some v

-- DurableOrphanStore, with the store's state passed on by each call; an error is its message.
pub record OrphanStore : Type 1 where
  pub State : Type 0
  pub upsert_orphan : OrphanRecord → State → State × Option String
  pub get_orphan : String → State → State × Result (Option OrphanRecord)
  pub mark_missing_as_disappeared : List String → ℤ → State → State × Option String
  pub view : State → String → Option Sighting

-- What the sweep relies on: a call that fails changes nothing.
pub record IsLawful (S : OrphanStore) : Type 0 where
  pub view-upsert :
      (rec : OrphanRecord) (s : S.State) (id : String)
      → (S.upsert_orphan rec s).1 ≡ none
      → (v : Sighting) × IsUpsertOf (S.view s id) (sighting_of rec) v
        × (S.view (S.upsert_orphan rec s).0 id
            ≡ (if rec.orphan_id == id then some v else S.view s id))
  pub view-upsert_failed :
      (rec : OrphanRecord) (s : S.State) (id e : String)
      → (S.upsert_orphan rec s).1 ≡ some e
      → S.view (S.upsert_orphan rec s).0 id ≡ S.view s id
  pub view-get :
      (j : String) (s : S.State) (id : String) → S.view (S.get_orphan j s).0 id ≡ S.view s id
  pub get-view :
      (id : String) (s : S.State) (found : Option OrphanRecord)
      → (S.get_orphan id s).1 ≡ ok found
      → same_sighting found ≡ S.view s id
  pub view-mark :
      (observed : List String) (now : ℤ) (s : S.State) (id : String)
      → (S.mark_missing_as_disappeared observed now s).1 ≡ none
      → S.view (S.mark_missing_as_disappeared observed now s).0 id
        ≡ marked observed now id (S.view s id)
  pub view-mark_failed :
      (observed : List String) (now : ℤ) (s : S.State) (id e : String)
      → (S.mark_missing_as_disappeared observed now s).1 ≡ some e
      → S.view (S.mark_missing_as_disappeared observed now s).0 id ≡ S.view s id

-- `orphan.NodeID = s.NodeID`
abbrev pub orphan_at : String → EnumeratedProcess → MatchResult → OrphanRecord
orphan_at node_id p match = record (classify_orphan p match) { node_id = node_id }

-- The orphan with the time at which it was seen first, and the type of the event, if there is one.
unfoldable pub known_orphan :
    OrphanRecord → Result (Option OrphanRecord) → OrphanRecord × Option String
known_orphan orphan (ok (some existing)) = (
  record orphan { first_seen_at_sec = existing.first_seen_at_sec },
  if not (existing.classification == orphan.classification)
        || not (existing.status == orphan.status)
      then some "OrphanReclassified"
      else none,
)
known_orphan orphan (ok none) = (orphan, some "OrphanDetected")
known_orphan orphan (err e) = (orphan, some "OrphanDetected")

-- After UpsertOrphan.
abbrev pub add_observed : String → Option String → List String → List String
add_observed id none observed = observed ++ id ∷ []
add_observed id (some e) observed = observed

module _ (S : OrphanStore) (new_id : ℕ → String) (node_id : String) where
  -- The state of the loop: the store, the ids in observedOrphanIDs, the events so far.
  pub record Sweeping : Type 0 where
    pub store : S.State
    pub observed : List String
    pub events : List RuntimeEvent

  -- emitEvent
  unfoldable pub emit_orphan : Option String → OrphanRecord → List RuntimeEvent → List RuntimeEvent
  emit_orphan none orphan events = events
  emit_orphan (some event_type) orphan events =
      events
      ++ record {
        event_id = new_id (length events);
        execution_id = orphan.execution_id_hint;
        event_type = event_type;
        timestamp_sec = orphan.last_seen_at_sec;
        reason_code = orphan.reason_code;
        payload_json = orphan_payload orphan;
      }
        ∷ []

  -- The part of the loop's body for an orphan.
  unfoldable pub sweep_orphan : OrphanRecord → Sweeping → Sweeping
  unfolding known_orphan emit_orphan
  sweep_orphan orphan w =
      let looked = S.get_orphan orphan.orphan_id w.store in
      let known = known_orphan orphan looked.1 in
      let saved = S.upsert_orphan known.0 looked.0 in
      record {
        store = saved.0;
        observed = add_observed orphan.orphan_id saved.1 w.observed;
        events = emit_orphan known.1 known.0 w.events;
      }

  unfoldable pub sweep_process :
      List LaunchExecutionRecord → EnumeratedProcess → Sweeping → Sweeping
  unfolding sweep_orphan
  sweep_process execs p w =
      let match = match_enumerated_process_to_execution p execs in
      if match.matched then w else sweep_orphan (orphan_at node_id p match) w

  unfoldable pub sweep_all :
      List LaunchExecutionRecord → List EnumeratedProcess → Sweeping → Sweeping
  unfolding sweep_process
  sweep_all execs [] w = w
  sweep_all execs (p ∷ processes) w = sweep_all execs processes (sweep_process execs p w)

  -- The last step; an error of MarkMissingAsDisappeared is only logged.
  unfoldable pub mark_disappeared : ℤ → Sweeping → Sweeping
  mark_disappeared now w = record w {
    store = (S.mark_missing_as_disappeared w.observed now w.store).0;
  }

  abbrev pub fresh_sweep : S.State → Sweeping
  fresh_sweep s = record { store = s; observed = []; events = [] }

  -- SweepOnce, with what Enumerate and ListRecoverableExecutions return.
  unfoldable pub sweep_once :
      ℤ
      → Result (List EnumeratedProcess)
      → Result (List LaunchExecutionRecord)
      → S.State
      → Sweeping × Option String
  unfolding sweep_all mark_disappeared
  sweep_once now (err e) execs s = (fresh_sweep s, some e)
  sweep_once now (ok processes) (err e) s = (fresh_sweep s, some e)
  sweep_once now (ok processes) (ok execs) s =
      (mark_disappeared now (sweep_all execs processes (fresh_sweep s)), none)
