-- ===== src/Orchestrate/Steps.antt =====
-- What one step of the pipeline does to the record and to the log of its effects
-- (schedune-control-plane/internal/domain/orchestrator.go).
use schedune.Base.{◌≡◌, ◌∙◌, refl, String, true, Option, none, some, List, [], ◌∷◌, arith}
use schedune.Schema.Execution.{LaunchState, failed, LaunchExecutionRecord}
use schedune.Lifecycle.{is_transition_allowed, transition_to, append_trace}
use schedune.Orchestrate.Calls.{
  Services, Effect, saved_execution, appended_event, Machine, save, go_to, trace, emit_event,
  fail_with, pass_with,
}

-- The record as it was saved last.
abbrev pub last_saved : List Effect → Option LaunchExecutionRecord
last_saved [] = none
last_saved (saved_execution rec ∷ effects) = some rec
last_saved (appended_event e ∷ effects) = last_saved effects

-- The calls before the last save.
abbrev pub before_save : List Effect → List Effect
before_save [] = []
before_save (saved_execution rec ∷ effects) = effects
before_save (appended_event e ∷ effects) = before_save effects

-- From one machine to another: the state is the one asked for, what is known of the process stays,
-- and the record is saved as it is.
pub record Settles (next : LaunchState) (m n : Machine) : Type 0 where
  pub in_state : n.rec.state ≡ next
  pub same_pid : n.rec.pid ≡ m.rec.pid
  pub same_prepared : n.rec.prepared_state ≡ m.rec.prepared_state
  pub saved : last_saved n.effects ≡ some n.rec

-- The same, before the record is saved.
pub record Moves (next : LaunchState) (m n : Machine) : Type 0 where
  pub in_state : n.rec.state ≡ next
  pub same_pid : n.rec.pid ≡ m.rec.pid
  pub same_prepared : n.rec.prepared_state ≡ m.rec.prepared_state

module _ (o : Services) where
  pub go_to-Moves :
      (next : LaunchState) (code msg : String) (m : Machine)
      → is_transition_allowed m.rec.state next ≡ true
      → Moves next m (go_to o next code msg m)
  unfolding go_to transition_to append_trace
  go_to-Moves next code msg m h = record {
    in_state = ground (arith, h);
    same_pid = ground (arith, h);
    same_prepared = ground (arith, h);
  }

  pub emit_settled :
      (next : LaunchState) (event_type code msg : String) (m n : Machine)
      → Moves next m n
      → Settles next m (emit_event o event_type code msg (save n))
  unfolding emit_event
  emit_settled next event_type code msg m n h = record {
    in_state = ground (arith, h.in_state);
    same_pid = ground (arith, h.same_pid);
    same_prepared = ground (arith, h.same_prepared);
    saved = ground arith;
  }

  pub fail_with-Settles :
      (event_type code msg : String) (m : Machine)
      → is_transition_allowed m.rec.state failed ≡ true
      → Settles failed m (fail_with o event_type code msg m)
  fail_with-Settles event_type code msg m h =
      emit_settled failed event_type code msg m _ (go_to-Moves failed code msg m h)

  pub pass_with-Settles :
      (next : LaunchState) (event_type msg : String) (m : Machine)
      → is_transition_allowed m.rec.state next ≡ true
      → Settles next m (pass_with o next event_type msg m)
  pass_with-Settles next event_type msg m h =
      emit_settled next event_type "" msg m _ (go_to-Moves next "" msg m h)

  -- A move before a step that settles.
  pub after_move :
      (next middle : LaunchState) (l m n : Machine)
      → Moves middle l m
      → Settles next m n
      → Settles next l n
  after_move next middle l m n h k = record {
    in_state = k.in_state;
    same_pid = k.same_pid ∙ h.same_pid;
    same_prepared = k.same_prepared ∙ h.same_prepared;
    saved = k.saved;
  }

  pub trace-Moves :
      (stage status code msg : String) (m : Machine)
      → Moves m.rec.state m (trace o stage status code msg m)
  unfolding trace append_trace
  trace-Moves stage status code msg m = record {
    in_state = refl;
    same_pid = refl;
    same_prepared = refl;
  }
