-- ===== src/Recovery/Bootstrap.antt =====
-- schedune-control-plane/internal/recovery/bootstrap.go: the loop of Bootstrap, with its saves and events.
-- `clock i` and `later i` are the readings of the clock at the head of the i-th call of
-- recoverExecution and by its trace step; `new_id i` is the id of its event.
pub mod Restarted
use schedune.Base.{ℕ, suc, String, List, [], ◌∷◌, ◌<>◌, Result, ok, err}
use schedune.Base.Int64.{ℤ}
use schedune.Schema.Execution.{LaunchExecutionRecord, RuntimeEvent, message_payload, Inspector}
use schedune.Orchestrate.Calls.{Effect, saved_execution, appended_event}
use schedune.Recovery.{RecoveryNote, recover_execution}

module _ (inspect : Inspector) (epoch : String) (clock later : ℕ → ℤ) (new_id : ℕ → String) where
  abbrev pub recovery_event : ℕ → LaunchExecutionRecord × RecoveryNote → RuntimeEvent
  recovery_event i (rec, note) = record {
    event_id = new_id i;
    execution_id = rec.execution_id;
    event_type = note.event_type;
    timestamp_sec = clock i;
    reason_code = note.reason_code;
    payload_json = message_payload note.message;
  }

  -- The record that the i-th call of recoverExecution saves.
  abbrev pub recovered : ℕ → LaunchExecutionRecord → LaunchExecutionRecord × RecoveryNote
  recovered i rec = recover_execution inspect epoch (clock i) (later i) rec

  -- The calls of the stores, the newest first, after those that are known.
  unfoldable pub recover_all : ℕ → List LaunchExecutionRecord → List Effect → List Effect
  recover_all i [] effects = effects
  recover_all i (rec ∷ recs) effects = recover_all (suc i) recs (
      appended_event (recovery_event i (recovered i rec))
      ∷ saved_execution (recovered i rec).0
      ∷ effects)

  -- Bootstrap, with what ListRecoverableExecutions returns.
  unfoldable pub bootstrap : Result (List LaunchExecutionRecord) → Result (List Effect)
  unfolding recover_all
  bootstrap (err e) = err ("failed to list recoverable executions: " <> e)
  bootstrap (ok recs) = ok (recover_all 0 recs [])
