-- ===== src/Recovery/Sweep/Observed.antt =====
-- What a sweep leaves in a lawful store (schedune-control-plane/internal/recovery/orphan_sweep.go).
use schedune.Base.{
  ◌≡◌, ◌⊎◌, ◌↔◌, sym, inl, inr, refl, ◌∙◌, ap, ℕ, String, Bool, true, false, ◌&&◌, Option, none,
  some, List, [], ◌∷◌, ◌==◌, eq_iff, has_text, if_ind, arith, Result, ok, err, Bool-cases,
}
use schedune.Base.Int64.{ℤ}
use schedune.Base.Unique.{has_text-append}
use schedune.Schema.Orphan.{OrphanRecord, active, disappeared}
use schedune.Schema.Execution.{LaunchExecutionRecord}
use schedune.Recovery.{
  EnumeratedProcess, match_enumerated_process_to_execution, orphan_id_of, classify_orphan,
}
use schedune.Recovery.Sweep.{
  Sighting, sighting_of, IsUpsertOf, is_active, marked, orphan_at, OrphanStore, IsLawful,
  known_orphan, Sweeping, add_observed, sweep_orphan, sweep_process, sweep_all, mark_disappeared,
  fresh_sweep, sweep_once,
}

-- known_orphan changes the time of the first sight only.
known_orphan_lem :
    (orphan : OrphanRecord) (r : Result (Option OrphanRecord))
    → ((known_orphan orphan r).0.orphan_id ≡ orphan.orphan_id)
      × ((known_orphan orphan r).0.status ≡ orphan.status)
unfolding known_orphan
known_orphan_lem orphan (ok (some existing)) = (refl, refl)
known_orphan_lem orphan (ok none) = (refl, refl)
known_orphan_lem orphan (err e) = (refl, refl)

is_active-upsert :
    (old : Option Sighting) (new v : Sighting)
    → IsUpsertOf old new v
    → is_active (some v) ≡ (new.status == active)
is_active-upsert old new v (inl same) = rw same refl
is_active-upsert none new v (inr same) = rw same refl
is_active-upsert (some o) new v (inr same) = rw same refl

is_active-marked :
    (observed : List String) (now : ℤ) (id : String) (v : Option Sighting)
    → is_active (marked observed now id v) ≡ (is_active v && has_text id observed)
is_active-marked observed now id none = refl
is_active-marked observed now id (some v) = ground (arith, eq_iff disappeared active)

and_of_implied : (a b : Bool) → (b ≡ true → a ≡ true) → (a && b) ≡ b
and_of_implied a b h = ground (arith, h)

module _ (S : OrphanStore) (L : IsLawful S) (new_id : ℕ → String) (node_id : String) where
  -- Each of the ids observed so far is active in the store.
  abbrev pub Observes : Sweeping S new_id node_id → Type 0
  Observes w = (id : String) → has_text id w.observed ≡ true → is_active (S.view w.store id) ≡ true

  upsert-Observes :
      (rec : OrphanRecord) (s : S.State) (observed : List String) (fault : Option String)
      → (S.upsert_orphan rec s).1 ≡ fault
      → rec.status ≡ active
      → ((id : String) → has_text id observed ≡ true → is_active (S.view s id) ≡ true)
      → (id : String) → has_text id (add_observed rec.orphan_id fault observed) ≡ true
      → is_active (S.view (S.upsert_orphan rec s).0 id) ≡ true
  upsert-Observes rec s observed none e is h id seen =
      let split = has_text-append id observed rec.orphan_id in
      let (v, upserted, view) = L.view-upsert rec s id e in
      let now_active = is_active-upsert (S.view s id) (sighting_of rec) v upserted in
      rw view (elim (Bool-cases (rec.orphan_id == id)) [
        | inl same ↦ rw (same, now_active) ((eq_iff rec.status active).1 is)
        | inr differs ↦ rw differs (h id (ground arith))
      ])
  upsert-Observes rec s observed (some f) e is h id seen =
      rw (L.view-upsert_failed rec s id f e) (h id seen)

  sweep_orphan-Observes :
      (orphan : OrphanRecord) (w : Sweeping S new_id node_id)
      → orphan.status ≡ active
      → Observes w
      → Observes (sweep_orphan S new_id node_id orphan w)
  unfolding sweep_orphan
  sweep_orphan-Observes orphan w is h id seen =
      let looked = S.get_orphan orphan.orphan_id w.store in
      let saved = (S.upsert_orphan (known_orphan orphan looked.1).0 looked.0).1 in
      let (same_id, same_status) = known_orphan_lem orphan looked.1 in
      upsert-Observes (known_orphan orphan looked.1).0 looked.0 w.observed _ refl (same_status ∙ is)
        (λ j k. rw (L.view-get orphan.orphan_id w.store j) (h j k)) id
        (ap (λ (j : String). has_text id (add_observed j saved w.observed)) same_id ∙ seen)

  sweep_process-Observes :
      (execs : List LaunchExecutionRecord) (p : EnumeratedProcess) (w : Sweeping S new_id node_id)
      → Observes w
      → Observes (sweep_process S new_id node_id execs p w)
  unfolding sweep_process classify_orphan
  sweep_process-Observes execs p w h =
      let match = match_enumerated_process_to_execution p execs in
      if_ind Observes match.matched h (sweep_orphan-Observes (orphan_at node_id p match) w refl h)

  sweep_all-Observes :
      (execs : List LaunchExecutionRecord) (processes : List EnumeratedProcess)
      (w : Sweeping S new_id node_id)
      → Observes w
      → Observes (sweep_all S new_id node_id execs processes w)
  unfolding sweep_all
  sweep_all-Observes execs [] w h = h
  sweep_all-Observes execs (p ∷ processes) w h =
      sweep_all-Observes execs processes (sweep_process S new_id node_id execs p w)
        (sweep_process-Observes execs p w h)

  -- The loop of a sweep, and the sweep as a whole.
  abbrev pub swept :
      List EnumeratedProcess → List LaunchExecutionRecord → S.State → Sweeping S new_id node_id
  swept processes execs s =
      sweep_all S new_id node_id execs processes (fresh_sweep S new_id node_id s)

  abbrev pub after_sweep :
      ℤ → List EnumeratedProcess → List LaunchExecutionRecord → S.State → Sweeping S new_id node_id
  after_sweep now processes execs s =
      (sweep_once S new_id node_id now (ok processes) (ok execs) s).0

  -- The error of the last step of a sweep.
  abbrev pub mark_error :
      ℤ → List EnumeratedProcess → List LaunchExecutionRecord → S.State → Option String
  mark_error now processes execs s =
      let w = swept processes execs s in (S.mark_missing_as_disappeared w.observed now w.store).1

  -- One of the processes is an orphan with the id: it is matched to no execution.
  abbrev pub IsUnmatched : List LaunchExecutionRecord → String → EnumeratedProcess → Type 0
  IsUnmatched execs id p =
      ((match_enumerated_process_to_execution p execs).matched ≡ false) × (orphan_id_of p ≡ id)

  -- The error of UpsertOrphan for an unmatched process, where the loop has come to it.
  abbrev pub upsert_error :
      List LaunchExecutionRecord → EnumeratedProcess → Sweeping S new_id node_id → Option String
  upsert_error execs p w =
      let orphan = orphan_at node_id p (match_enumerated_process_to_execution p execs) in
      let looked = S.get_orphan orphan.orphan_id w.store in
      (S.upsert_orphan (known_orphan orphan looked.1).0 looked.0).1

  -- One of the processes, from where the loop is, is an orphan with the id and is upserted.
  abbrev pub IsUpserted :
      List LaunchExecutionRecord
      → String
      → Sweeping S new_id node_id
      → List EnumeratedProcess
      → Type 0
  IsUpserted execs id w [] = ⊥
  IsUpserted execs id w (p ∷ processes) =
      (IsUnmatched execs id p × (upsert_error execs p w ≡ none))
      ⊎ IsUpserted execs id (sweep_process S new_id node_id execs p w) processes

  observed_iff :
      (id j : String) (fault : Option String) (observed : List String)
      → (has_text id (add_observed j fault observed) ≡ true)
        ↔ ((has_text id observed ≡ true) ⊎ (j ≡ id) × (fault ≡ none))
  observed_iff id j none observed = ground (arith, has_text-append id observed j, eq_iff j id)
  observed_iff id j (some e) observed = ground arith

  sweep_process-observed_iff :
      (execs : List LaunchExecutionRecord) (p : EnumeratedProcess) (w : Sweeping S new_id node_id)
      (id : String)
      → (has_text id (sweep_process S new_id node_id execs p w).observed ≡ true) ↔ (
          (has_text id w.observed ≡ true)
          ⊎ IsUnmatched execs id p × (upsert_error execs p w ≡ none))
  unfolding sweep_process sweep_orphan classify_orphan
  sweep_process-observed_iff execs p w id =
      elim (Bool-cases (match_enumerated_process_to_execution p execs).matched) [
        | inl found ↦ rw found (λ h. inl h, λ k. ground arith)
        | inr lost ↦
            let seen = observed_iff id (orphan_id_of p) (upsert_error execs p w) w.observed in
            rw lost (
              λ h. elim (seen.0 h) [
                | inl before ↦ inl before
                | inr (same, fine) ↦ inr ((refl, same), fine)
              ],
              λ k. elim k [
                | inl before ↦ seen.1 (inl before)
                | inr ((_, same), fine) ↦ seen.1 (inr (same, fine))
              ],
            )
      ]

  sweep_all-observed_iff :
      (execs : List LaunchExecutionRecord) (processes : List EnumeratedProcess)
      (w : Sweeping S new_id node_id) (id : String)
      → (has_text id (sweep_all S new_id node_id execs processes w).observed ≡ true)
        ↔ ((has_text id w.observed ≡ true) ⊎ IsUpserted execs id w processes)
  unfolding sweep_all
  sweep_all-observed_iff execs [] w id = (λ h. inl h, λ k. ground arith)
  sweep_all-observed_iff execs (p ∷ processes) w id =
      let one = sweep_process-observed_iff execs p w id in
      let rest =
        sweep_all-observed_iff execs processes (sweep_process S new_id node_id execs p w) id in
      (
        λ h. elim (rest.0 h) [
          | inl seen ↦ elim (one.0 seen) [ inl before ↦ inl before | inr here ↦ inr (inl here) ]
          | inr later ↦ inr (inr later)
        ],
        λ k. elim k [
          | inl before ↦ rest.1 (inl (one.1 (inl before)))
          | inr (inl here) ↦ rest.1 (inl (one.1 (inr here)))
          | inr (inr later) ↦ rest.1 (inr later)
        ],
      )

  -- After a sweep whose last step succeeds, an orphan is active in the store exactly where one of the
  -- processes has its id, matches no execution, and is upserted without an error.
  pub sweep_once-is_active_iff :
      (now : ℤ) (processes : List EnumeratedProcess) (execs : List LaunchExecutionRecord)
      (s : S.State) (id : String)
      → mark_error now processes execs s ≡ none
      → (is_active (S.view (after_sweep now processes execs s).store id) ≡ true)
        ↔ IsUpserted execs id (fresh_sweep S new_id node_id s) processes
  unfolding sweep_once mark_disappeared
  sweep_once-is_active_iff now processes execs s id e =
      let w = swept processes execs s in
      let start = fresh_sweep S new_id node_id s in
      let kept = sweep_all-Observes execs processes start (λ j k. ground arith) id in
      let seen = sweep_all-observed_iff execs processes start id in
      let same : is_active (S.view (after_sweep now processes execs s).store id)
          ≡ has_text id w.observed =
        rw
          (
            L.view-mark w.observed now w.store id e,
            is_active-marked w.observed now id (S.view w.store id),
          )
          (and_of_implied _ _ kept) in
      (
        λ h. elim (seen.0 (sym same ∙ h)) [ inl before ↦ ground arith | inr found ↦ found ],
        λ k. same ∙ seen.1 (inr k),
      )
