-- ===== src/Recovery/Sweep/Remembered.antt =====
-- The time at which an orphan was seen first, over the sweeps
-- (schedune-control-plane/internal/recovery/orphan_sweep.go).
use schedune.Base.{
  ◌≡◌, refl, sym, ap, ◌∙◌, eq_iff, some_injective, Bool-cases, ℕ, String, Option, none, some, List,
  [], ◌∷◌, if_ind, ◌==◌, arith, Result, ok, err, inl, inr,
}
use schedune.Base.Int64.{ℤ}
use schedune.Schema.Orphan.{OrphanRecord}
use schedune.Schema.Execution.{LaunchExecutionRecord}
use schedune.Recovery.{EnumeratedProcess, match_enumerated_process_to_execution}
use schedune.Recovery.Sweep.{
  Sighting, sighting_of, same_sighting, IsUpsertOf, marked, orphan_at, OrphanStore, IsLawful,
  known_orphan, Sweeping, sweep_orphan, sweep_process, sweep_all, mark_disappeared, fresh_sweep,
  sweep_once,
}

abbrev pub first_seen : Option Sighting → Option ℤ
first_seen none = none
first_seen (some v) = some v.first_seen_at_sec

-- From one view of an orphan to a later one: an orphan that is known stays known, since the same time.
abbrev pub Remembers : Option Sighting → Option Sighting → Type 0
Remembers old new = (t : ℤ) → first_seen old ≡ some t → first_seen new ≡ some t

Remembers-upsert :
    (old : Option Sighting) (new v : Sighting)
    → IsUpsertOf old new v
    → ((t : ℤ) → first_seen old ≡ some t → new.first_seen_at_sec ≡ t)
    → Remembers old (some v)
Remembers-upsert old new v (inl same) keeps t h = rw same (ap some (keeps t h))
Remembers-upsert none new v (inr same) keeps t h = ground arith
Remembers-upsert (some o) new v (inr same) keeps t h = rw same h

-- The sweep hands over the time that it finds.
known_orphan-first_seen :
    (orphan : OrphanRecord) (r : Result (Option OrphanRecord)) (found : Option OrphanRecord) (t : ℤ)
    → r ≡ ok found
    → first_seen (same_sighting found) ≡ some t
    → (known_orphan orphan r).0.first_seen_at_sec ≡ t
unfolding known_orphan
known_orphan-first_seen orphan r (some existing) t same h = rw same (some_injective h)
known_orphan-first_seen orphan r none t same h = ground arith

known_orphan-id :
    (orphan : OrphanRecord) (r : Result (Option OrphanRecord))
    → (known_orphan orphan r).0.orphan_id ≡ orphan.orphan_id
unfolding known_orphan
known_orphan-id orphan (ok (some existing)) = refl
known_orphan-id orphan (ok none) = refl
known_orphan-id orphan (err e) = refl

Remembers-marked :
    (observed : List String) (now : ℤ) (id : String) (v : Option Sighting)
    → Remembers v (marked observed now id v)
Remembers-marked observed now id none t h = h
Remembers-marked observed now id (some v) t h = ground arith

-- One sweep, as the background loop runs it: the clock, and what Enumerate and
-- ListRecoverableExecutions return.
pub record Round : Type 0 where
  pub now : ℤ
  pub processes : Result (List EnumeratedProcess)
  pub execs : Result (List LaunchExecutionRecord)

-- GetOrphan returns no error.
abbrev pub AlwaysFinds : OrphanStore → Type 0
AlwaysFinds S =
    (j : String) (s : S.State) → (found : Option OrphanRecord) × ((S.get_orphan j s).1 ≡ ok found)

module _ (S : OrphanStore) (L : IsLawful S) (finds : AlwaysFinds S) (new_id : ℕ → String)
    (node_id : String) (id : String) where
  upsert-Remembers :
      (rec : OrphanRecord) (s : S.State) (fault : Option String)
      → (S.upsert_orphan rec s).1 ≡ fault
      → ((t : ℤ)
          → rec.orphan_id ≡ id
          → first_seen (S.view s id) ≡ some t
          → rec.first_seen_at_sec ≡ t)
      → Remembers (S.view s id) (S.view (S.upsert_orphan rec s).0 id)
  upsert-Remembers rec s (some e) h keeps = rw (L.view-upsert_failed rec s id e h) (λ t k. k)
  upsert-Remembers rec s none h keeps =
      let (v, upserted, view) = L.view-upsert rec s id h in
      rw view (elim (Bool-cases (rec.orphan_id == id)) [
        | inl same ↦ rw same (
            Remembers-upsert (S.view s id) (sighting_of rec) v upserted
              (λ t k. keeps t ((eq_iff rec.orphan_id id).0 same) k))
        | inr differs ↦ rw differs (λ t k. k)
      ])

  sweep_orphan-Remembers :
      (orphan : OrphanRecord) (w : Sweeping S new_id node_id)
      → Remembers (S.view w.store id) (S.view (sweep_orphan S new_id node_id orphan w).store id)
  unfolding sweep_orphan
  sweep_orphan-Remembers orphan w =
      let looked = S.get_orphan orphan.orphan_id w.store in
      let (found, same) = finds orphan.orphan_id w.store in
      let view = L.get-view orphan.orphan_id w.store found same in
      rw (← L.view-get orphan.orphan_id w.store id) (
        upsert-Remembers (known_orphan orphan looked.1).0 looked.0 _ refl (λ t is k.
          known_orphan-first_seen orphan looked.1 found t same (
            ap first_seen view
            ∙ ap (λ (j : String). first_seen (S.view w.store j))
                (sym (known_orphan-id orphan looked.1) ∙ is)
            ∙ ap first_seen (sym (L.view-get orphan.orphan_id w.store id))
            ∙ k)))

  sweep_process-Remembers :
      (execs : List LaunchExecutionRecord) (p : EnumeratedProcess) (w : Sweeping S new_id node_id)
      → Remembers (S.view w.store id) (S.view (sweep_process S new_id node_id execs p w).store id)
  unfolding sweep_process
  sweep_process-Remembers execs p w =
      let match = match_enumerated_process_to_execution p execs in
      if_ind (λ (v : Sweeping S new_id node_id). Remembers (S.view w.store id) (S.view v.store id))
        match.matched (λ t k. k) (sweep_orphan-Remembers (orphan_at node_id p match) w)

  sweep_all-Remembers :
      (execs : List LaunchExecutionRecord) (processes : List EnumeratedProcess)
      (w : Sweeping S new_id node_id)
      → Remembers
          (S.view w.store id)
          (S.view (sweep_all S new_id node_id execs processes w).store id)
  unfolding sweep_all
  sweep_all-Remembers execs [] w t k = k
  sweep_all-Remembers execs (p ∷ processes) w t k =
      sweep_all-Remembers execs processes (sweep_process S new_id node_id execs p w) t
        (sweep_process-Remembers execs p w t k)

  mark-Remembers :
      (observed : List String) (now : ℤ) (s : S.State) (fault : Option String)
      → (S.mark_missing_as_disappeared observed now s).1 ≡ fault
      → Remembers (S.view s id) (S.view (S.mark_missing_as_disappeared observed now s).0 id)
  mark-Remembers observed now s (some e) h =
      rw (L.view-mark_failed observed now s id e h) (λ t k. k)
  mark-Remembers observed now s none h =
      rw (L.view-mark observed now s id h) (Remembers-marked observed now id (S.view s id))

  sweep_once-Remembers :
      (now : ℤ) (processes : Result (List EnumeratedProcess))
      (execs : Result (List LaunchExecutionRecord)) (s : S.State)
      → Remembers
          (S.view s id)
          (S.view (sweep_once S new_id node_id now processes execs s).0.store id)
  unfolding sweep_once mark_disappeared
  sweep_once-Remembers now (err e) execs s t k = k
  sweep_once-Remembers now (ok processes) (err e) s t k = k
  sweep_once-Remembers now (ok processes) (ok execs) s t k =
      mark-Remembers _ now _ _ refl t
        (sweep_all-Remembers execs processes (fresh_sweep S new_id node_id s) t k)

  -- The rounds of the background loop, one after the other.
  abbrev pub sweep_rounds : List Round → S.State → S.State
  sweep_rounds [] s = s
  sweep_rounds (r ∷ rounds) s =
      sweep_rounds rounds (sweep_once S new_id node_id r.now r.processes r.execs s).0.store

  sweep_rounds-Remembers :
      (rounds : List Round) (s : S.State)
      → Remembers (S.view s id) (S.view (sweep_rounds rounds s) id)
  sweep_rounds-Remembers [] s t k = k
  sweep_rounds-Remembers (r ∷ rounds) s t k =
      sweep_rounds-Remembers rounds _ t (sweep_once-Remembers r.now r.processes r.execs s t k)

  -- Over any rounds of the sweep, on a store that looks orphans up without an error and may overwrite the
  -- time of the first sight, and with any other errors of the host and of the store: an orphan that is
  -- known stays known, and the time at which it was seen first stays the same.
  pub sweep_rounds-first_seen :
      (rounds : List Round) (s : S.State) (t : ℤ)
      → first_seen (S.view s id) ≡ some t
      → first_seen (S.view (sweep_rounds rounds s) id) ≡ some t
  sweep_rounds-first_seen rounds s t known = sweep_rounds-Remembers rounds s t known
