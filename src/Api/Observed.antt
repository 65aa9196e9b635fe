-- ===== src/Api/Observed.antt =====
-- Which events an observation shows (schedune-control-plane/internal/api/launch_handlers.go, with the
-- events of internal/store/sqlite/db.go).
use schedune.Base.{
  ◌≡◌, ◌⊎◌, inl, inr, refl, sym, ap, ◌∙◌, ℕ, ◌-◌, ◌≤◌, String, Option, none, some, List, [], ◌++◌,
  map, length, take, drop, take-drop, length-drop, drop-map, ltb, arith, Bool-cases, Result, ok,
  err,
}
use mathlib.Core.Path.{subst}
use mathlib.Core.List.{Perm}
use schedune.Schema.Execution.{LaunchExecutionRecord, Inspector}
use schedune.Schema.Views.{ExecutionObservation}
use schedune.Sqlite.{
  Json, EventRow, SqliteStore, ListedEvent, listed_event, rows_of, order_by_time, list_events,
  get_execution,
}
use schedune.Sqlite.Ordered.{IsOrdered, order_by_time-IsOrdered, order_by_time-Perm}
use schedune.Api.{Reply, replied, status_ok, replied_injective}
use schedune.Api.Launches.{Poll, recent, reconcile_execution}
use schedune.Api.Executions.{with_execution, observation_of, observe_launch}

module _ {J : Type 0} (json : Json J) where
  -- The events shown are the last of the rows by time: all of them, or twenty.
  pub record ShowsRecent (rows : List EventRow) (shown : List (ListedEvent J)) : Type 0 where
    pub older : List EventRow
    pub newer : List EventRow
    pub complete : Perm (older ++ newer) rows
    pub ordered : IsOrdered (older ++ newer)
    pub are_shown : shown ≡ map (listed_event json) newer
    pub bounded : length shown ≤ 20
    pub all_or_twenty : (older ≡ []) ⊎ (length shown ≡ 20)

  ShowsRecent-split :
      (rows : List EventRow) (n : ℕ) (shown : List (ListedEvent J))
      → shown ≡ map (listed_event json) (drop n (order_by_time rows))
      → length shown ≤ 20
      → (take n (order_by_time rows) ≡ []) ⊎ (length shown ≡ 20)
      → ShowsRecent rows shown
  ShowsRecent-split rows n shown same bounded full =
      let sorted = order_by_time rows in
      let whole = take-drop n sorted in
      record {
        older = take n sorted;
        newer = drop n sorted;
        complete = subst (λ l. Perm l rows) (sym whole) (order_by_time-Perm rows);
        ordered = subst IsOrdered (sym whole) (order_by_time-IsOrdered rows);
        are_shown = same;
        bounded = bounded;
        all_or_twenty = full;
      }

  recent-ShowsRecent :
      (rows : List EventRow)
      → ShowsRecent rows (recent (map (listed_event json) (order_by_time rows)))
  unfolding recent
  recent-ShowsRecent rows =
      let sorted = order_by_time rows in
      let events = map (listed_event json) sorted in
      elim (Bool-cases (ltb 20 (length events))) [
        | inl many ↦
            let left = length-drop (length events - 20) events in
            rw many (
              ShowsRecent-split rows (length events - 20) _ (drop-map (listed_event json) _ sorted)
                (omega (arith, left)) (inr (ground arith)))
        | inr few ↦ rw few (ShowsRecent-split rows 0 events refl (ground arith) (inl refl))
      ]

  module _ (resolve : String → Inspector) where
    -- A handler answers with a body only where it found the execution.
    pub with_execution_lem :
        {A : Type 0} (poll : Poll) (show : LaunchExecutionRecord → SqliteStore → A)
        (r : Result (Option LaunchExecutionRecord)) (s t : SqliteStore) (body : A)
        → with_execution json resolve poll show r s ≡ (replied status_ok body, t)
        → (rec : LaunchExecutionRecord) × (r ≡ ok (some rec))
          × (show (reconcile_execution json resolve poll rec s).0 t ≡ body)
          × ((reconcile_execution json resolve poll rec s).1 ≡ t)
    unfolding with_execution
    with_execution_lem {A} poll show (ok (some rec)) s t body h =
        let left : (reconcile_execution json resolve poll rec s).1 ≡ t =
          ap (λ (p : Reply A × SqliteStore). p.1) h in
        let shown = replied_injective (ap (λ (p : Reply A × SqliteStore). p.0) h) in
        (
          rec,
          refl,
          ap (show (reconcile_execution json resolve poll rec s).0) (sym left) ∙ shown,
          left,
        )
    with_execution_lem poll show (ok none) s t body h = ground arith
    with_execution_lem poll show (err e) s t body h = ground arith

    shows_recent :
        (events_fault : Option String) (id : String) (rec : LaunchExecutionRecord) (t : SqliteStore)
        → ((events_fault ≡ none)
            × ShowsRecent
                (rows_of id t.events)
                (observation_of json resolve
                  (list_events json events_fault id t)
                  rec).recent_events)
          ⊎ ((e : String) × (events_fault ≡ some e)
              × ((observation_of json resolve
                    (list_events json events_fault id t)
                    rec).recent_events
                  ≡ []))
    unfolding list_events recent
    shows_recent none id rec t = inl (refl, recent-ShowsRecent (rows_of id t.events))
    shows_recent (some e) id rec t = inr (e, refl, refl)

    -- An observation that is answered with 200 shows, where ListEvents succeeds, the last events of the
    -- execution by time, and at most twenty of them: all that the store holds for it, in order, or
    -- exactly the last twenty. Where ListEvents fails, it shows none.
    pub observe_launch-ShowsRecent :
        (fault events_fault : Option String) (poll : Poll) (id : String) (s t : SqliteStore)
        (body : ExecutionObservation (ListedEvent J))
        → observe_launch json resolve fault events_fault poll id s ≡ (replied status_ok body, t)
        → ((events_fault ≡ none) × ShowsRecent (rows_of id t.events) body.recent_events)
          ⊎ ((e : String) × (events_fault ≡ some e) × (body.recent_events ≡ []))
    unfolding observe_launch
    observe_launch-ShowsRecent fault events_fault poll id s t body h =
        let (rec, found, shown, left) =
          with_execution_lem poll
            (λ rec u. observation_of json resolve (list_events json events_fault id u) rec)
            (get_execution json fault id s) s t body h in
        subst
          (λ (o : ExecutionObservation (ListedEvent J)).
            ((events_fault ≡ none) × ShowsRecent (rows_of id t.events) o.recent_events)
            ⊎ ((e : String) × (events_fault ≡ some e) × (o.recent_events ≡ [])))
          shown (shows_recent events_fault id (reconcile_execution json resolve poll rec s).0 t)
