-- ===== src/Recovery/Bootstrap/Restarted.antt =====
-- What the database holds after a restart (schedune-control-plane/internal/recovery/bootstrap.go, with
-- internal/store/sqlite/db.go).
use schedune.Base.{
  ◌≡◌, refl, ap, ◌∙◌, ℕ, suc, ◌+◌, length, String, Option, none, some, List, [], ◌∷◌, arith,
  if◌then◌else◌, ◌==◌, ok_injective, Result, ok,
}
use schedune.Base.Int64.{ℤ}
use schedune.Schema.Execution.{LaunchExecutionRecord, RuntimeObservation, Inspector}
use schedune.Lifecycle.{transition_to, append_trace}
use schedune.Orchestrate.Calls.{Effect, saved_execution, appended_event}
use schedune.Recovery.{recover_observed, recover_pid, seen_by, recover_execution}
use schedune.Recovery.Bootstrap.{recovery_event, recovered, recover_all, bootstrap}
use schedune.Sqlite.{Json, SqliteStore, save_execution, get_execution}
use schedune.Sqlite.Lookup.{Carries, kept, get-save_of_Carries, get-append}
use schedune.Api.Starting.{perform, perform_all}

observed_id :
    (later : ℤ) (rec : LaunchExecutionRecord) (r : Result RuntimeObservation)
    → (recover_observed later rec r).0.execution_id ≡ rec.execution_id
unfolding recover_observed transition_to append_trace
observed_id later rec r = ground arith

-- Recovery keeps the id of an execution.
recover_execution-id :
    (inspect : Inspector) (epoch : String) (now later : ℤ) (rec : LaunchExecutionRecord)
    (pid : Option ℤ)
    → (recover_pid inspect later rec pid).0.execution_id ≡ rec.execution_id
unfolding recover_pid transition_to append_trace
recover_execution-id inspect epoch now later rec none = ground arith
recover_execution-id inspect epoch now later rec (some pid) = observed_id later rec _

module _ {J : Type 0} (json : Json J) (inspect : Inspector) (epoch : String) (clock later : ℕ → ℤ)
    (new_id : ℕ → String) where
  -- JSON carries each of the recovered records.
  abbrev pub AllCarried : ℕ → List LaunchExecutionRecord → Type 0
  AllCarried i [] = Unit
  AllCarried i (rec ∷ recs) =
      Carries json (recovered inspect epoch clock later new_id i rec).0 × AllCarried (suc i) recs

  module _ (faults : ℕ → Option String) where
    -- What GetExecution returns for the id: the last of the recovered records that has the id and whose
    -- save the driver accepts, or what it returned before. The i-th record is saved after twice i calls.
    abbrev pub last_recovered :
        String
        → ℕ
        → List LaunchExecutionRecord
        → Result (Option LaunchExecutionRecord)
        → Result (Option LaunchExecutionRecord)
    last_recovered id i [] before = before
    last_recovered id i (rec ∷ recs) before = last_recovered id (suc i) recs (
        if rec.execution_id == id
        then kept json (faults (i + i)) (recovered inspect epoch clock later new_id i rec).0 before
        else before)

    step_lem :
        (i : ℕ) (rec : LaunchExecutionRecord) (effects : List Effect) (s : SqliteStore)
        (id : String)
        → length effects ≡ i + i
        → Carries json (recovered inspect epoch clock later new_id i rec).0
        → get_execution json none id (
            perform_all json faults
              (appended_event (
                  recovery_event inspect epoch clock later new_id i
                    (recovered inspect epoch clock later new_id i rec))
                ∷ saved_execution (recovered inspect epoch clock later new_id i rec).0
                ∷ effects)
              s)
          ≡ (if rec.execution_id == id
              then kept json
                  (faults (i + i))
                  (recovered inspect epoch clock later new_id i rec).0
                  (get_execution json none id (perform_all json faults effects s))
              else get_execution json none id (perform_all json faults effects s))
    unfolding perform_all perform recover_execution
    step_lem i rec effects s id count c =
        let next = (recovered inspect epoch clock later new_id i rec).0 in
        let event =
          recovery_event inspect epoch clock later new_id i
            (recovered inspect epoch clock later new_id i rec) in
        let before = perform_all json faults effects s in
        let found = get_execution json none id before in
        get-append json (faults (suc (length effects))) event
          (save_execution json (faults (length effects)) next before).0 id
        ∙ get-save_of_Carries json (faults (length effects)) next before id c
        ∙ ap
            (λ (j : String).
              if j == id then kept json (faults (length effects)) next found else found)
            (recover_execution-id inspect epoch (clock i) (later i) (seen_by epoch (clock i) rec)
              rec.pid)
        ∙ ap (λ (n : ℕ). if rec.execution_id == id then kept json (faults n) next found else found)
            count

    recover_all_lem :
        (i : ℕ) (recs : List LaunchExecutionRecord) (effects : List Effect) (s : SqliteStore)
        (id : String)
        → length effects ≡ i + i
        → AllCarried i recs
        → get_execution json none id (
            perform_all json faults (recover_all inspect epoch clock later new_id i recs effects) s)
          ≡ last_recovered id i recs
              (get_execution json none id (perform_all json faults effects s))
    unfolding recover_all
    recover_all_lem i [] effects s id count c = refl
    recover_all_lem i (rec ∷ recs) effects s id count (c, rest) =
        recover_all_lem (suc i) recs _ s id (omega (arith, count)) rest
        ∙ ap (last_recovered id (suc i) recs) (step_lem i rec effects s id count c)

    -- After Bootstrap on the executions that the database lists, with any errors of the driver in the
    -- saves and events, GetExecution returns an execution as recoverExecution leaves it where the driver
    -- accepts its save. It returns what it returned before where the driver refuses that save, and for
    -- every other id. This is for records that JSON carries.
    pub bootstrap-last_recovered :
        (recs : List LaunchExecutionRecord) (effects : List Effect) (s : SqliteStore) (id : String)
        → AllCarried 0 recs
        → bootstrap inspect epoch clock later new_id (ok recs) ≡ ok effects
        → get_execution json none id (perform_all json faults effects s)
          ≡ last_recovered id 0 recs (get_execution json none id s)
    unfolding bootstrap perform_all
    bootstrap-last_recovered recs effects s id c runs =
        rw (← ok_injective runs) (recover_all_lem 0 recs [] s id refl c)
