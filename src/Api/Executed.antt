-- ===== src/Api/Executed.antt =====
-- What ExecuteLaunch answers, and what the database then holds
-- (schedune-control-plane/internal/api/launch_handlers.go, with internal/domain/orchestrator.go).
use schedune.Base.{
  ◌≡◌, refl, ap, ◌∙◌, Option, none, some, List, [], ◌∷◌, arith, eq_iff, ℕ, String, length,
  Option-cases, ok, inl, inr,
}
use schedune.Base.Int64.{ℤ}
use schedune.Schema.Spec.{LaunchSpec}
use schedune.Schema.Execution.{failed, starting, LaunchExecutionRecord}
use schedune.Orchestrate.Calls.{Services, Effect, saved_execution, appended_event, Machine}
use schedune.Orchestrate.{start_launch}
use schedune.Orchestrate.Steps.{last_saved, before_save}
use schedune.Orchestrate.Spawned.{
  IsValidated, IsRehearsal, Launched, has_failed, has_rehearsed, has_started,
}
use schedune.Orchestrate.Started.{start_launch-Ends}
use schedune.Sqlite.{Json, SqliteStore, get_execution}
use schedune.Sqlite.Lookup.{Carries, get-save_self, get-append, append-executions, save-refused}
use schedune.Api.{Reply, replied, status_accepted, status_conflict}
use schedune.Api.Starting.{perform, perform_all, execute_launch, status_of_state}

abbrev pub to_execute : LaunchSpec → LaunchSpec
to_execute spec = record spec { launch_mode = "Execute" }

not_rehearsal : (o : Services) (spec : LaunchSpec) → ¬ (IsRehearsal o (to_execute spec))
not_rehearsal o spec (inl h) = ground (arith, eq_iff "Execute" "DryRun")
not_rehearsal o spec (inr h) = ground (arith, eq_iff "Execute" "Validate")

module _ {J : Type 0} (json : Json J) where
  -- What the driver makes of the last save of the pipeline: GetExecution returns its record, or the
  -- driver refuses it, and the executions stay as they were before it.
  pub data Kept (faults : ℕ → Option String) (m : Machine) (s t : SqliteStore) : Type 0 where
    is_kept :
        faults (length (before_save m.effects)) ≡ none
        → get_execution json none m.rec.execution_id t ≡ ok (some m.rec)
        → Kept faults m s t
    is_lost :
        (e : String)
        → faults (length (before_save m.effects)) ≡ some e
        → t.executions ≡ (perform_all json faults (before_save m.effects) s).executions
        → Kept faults m s t

  module _ (faults : ℕ → Option String) (rec : LaunchExecutionRecord) (s : SqliteStore) where
    kept_lem :
        (effects : List Effect)
        → last_saved effects ≡ some rec
        → Carries json rec
        → faults (length (before_save effects)) ≡ none
        → get_execution json none rec.execution_id (perform_all json faults effects s)
          ≡ ok (some rec)
    unfolding perform_all perform
    kept_lem [] h c fine = ground arith
    kept_lem (saved_execution r ∷ older) h c fine =
        let same : r ≡ rec = cc in
        rw (same, fine) (get-save_self json rec (perform_all json faults older s) c)
    kept_lem (appended_event ev ∷ older) h c fine =
        get-append json (faults (length older)) ev (perform_all json faults older s)
          rec.execution_id
        ∙ kept_lem older h c fine

    lost_lem :
        (effects : List Effect) (e : String)
        → last_saved effects ≡ some rec
        → faults (length (before_save effects)) ≡ some e
        → (perform_all json faults effects s).executions
          ≡ (perform_all json faults (before_save effects) s).executions
    unfolding perform_all perform
    lost_lem [] e h bad = ground arith
    lost_lem (saved_execution r ∷ older) e h bad = rw bad (
        ap (λ (t : SqliteStore). t.executions)
          (save-refused json e r (perform_all json faults older s)))
    lost_lem (appended_event ev ∷ older) e h bad =
        append-executions json (faults (length older)) ev (perform_all json faults older s)
        ∙ lost_lem older e h bad

  perform_all-Kept :
      (faults : ℕ → Option String) (m : Machine) (s : SqliteStore)
      → last_saved m.effects ≡ some m.rec
      → Carries json m.rec
      → Kept faults m s (perform_all json faults m.effects s)
  perform_all-Kept faults m s h c = elim (Option-cases (faults (length (before_save m.effects)))) [
    | inl fine ↦ is_kept fine (kept_lem faults m.rec s m.effects h c fine)
    | inr (e, bad) ↦ is_lost e bad (lost_lem faults m.rec s m.effects e h bad)
  ]

  -- The answer to a launch: it is refused with the record of a failure and without a process, or
  -- accepted with the process that was started.
  pub data Executed (o : Services) (faults : ℕ → Option String) (spec : LaunchSpec)
      (s : SqliteStore) (result : Option (Reply LaunchExecutionRecord × SqliteStore)) : Type 0 where
    is_refused :
        (m : Machine) (t : SqliteStore)
        → start_launch o (to_execute spec) ≡ some m
        → result ≡ some (replied status_conflict m.rec, t)
        → m.rec.state ≡ failed
        → m.rec.pid ≡ none
        → Kept faults m s t
        → Executed o faults spec s result
    is_accepted :
        (m : Machine) (t : SqliteStore) (pid : ℤ)
        → start_launch o (to_execute spec) ≡ some m
        → result ≡ some (replied status_accepted m.rec, t)
        → m.rec.state ≡ starting
        → m.rec.pid ≡ some pid
        → IsValidated o (to_execute spec)
        → Kept faults m s t
        → Executed o faults spec s result

  module _ (o : Services) (faults : ℕ → Option String) (spec : LaunchSpec) (s : SqliteStore) where
    answer_lem :
        (m : Machine) (status : ℕ)
        → start_launch o (to_execute spec) ≡ some m
        → status_of_state json m.rec.state ≡ status
        → execute_launch json o faults (ok spec) s
          ≡ some (replied status m.rec, perform_all json faults m.effects s)
    unfolding execute_launch
    answer_lem m status runs same =
        rw runs (ap (λ (n : ℕ). some (replied n m.rec, perform_all json faults m.effects s)) same)

    launched-Executed :
        (m : Machine)
        → start_launch o (to_execute spec) ≡ some m
        → Kept faults m s (perform_all json faults m.effects s)
        → Launched o (to_execute spec) m.rec
        → Executed o faults spec s (execute_launch json o faults (ok spec) s)
    launched-Executed m runs kept (has_failed state no_pid) =
        is_refused m _ runs (answer_lem m status_conflict runs (rw state refl)) state no_pid kept
    launched-Executed m runs kept (has_rehearsed exec prep v p rehearsal state no_pid) =
        absurd (not_rehearsal o spec rehearsal)
    launched-Executed m runs kept
          (has_started exec prep pid v p real execs state has_pid prepared) =
        is_accepted m _ pid runs (answer_lem m status_accepted runs (rw state refl)) state has_pid v
          kept

    -- A launch that ExecuteLaunch reads is answered without a panic: with 409 and the record of a failure
    -- without a process, or with 202, for a launch that was validated, and the record of the process that
    -- was started. Where the driver accepts the last save of the launch, GetExecution then returns just
    -- that record; where it refuses that save, the answer is the same and the executions stay as they
    -- were before it. This is for an end of the launch that JSON carries.
    pub execute_launch-Executed :
        ((m : Machine) → start_launch o (to_execute spec) ≡ some m → Carries json m.rec)
        → Executed o faults spec s (execute_launch json o faults (ok spec) s)
    execute_launch-Executed carried =
        let ends = start_launch-Ends o (to_execute spec) in
        let m = ends.machine in
        launched-Executed m ends.returns
          (perform_all-Kept faults m s ends.saved (carried m ends.returns)) ends.launched
