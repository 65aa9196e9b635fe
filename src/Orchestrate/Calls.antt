-- ===== src/Orchestrate/Calls.antt =====
-- What the pipeline of schedune-control-plane/internal/domain/orchestrator.go is given, what it has
-- done so far, and the calls that each of its steps makes: TransitionTo, AppendTrace, save, emitEvent.
use schedune.Base.{
  ℕ, suc, String, Bool, Option, none, some, List, [], ◌∷◌, ◌<>◌, if◌then◌else◌, Result,
}
use schedune.Base.Int64.{ℤ}
use schedune.Base.Dict.{Dict}
use schedune.Schema.Spec.{LaunchSpec}
use schedune.Schema.Execution.{
  LaunchState, failed, PreparedLaunch, LaunchExecutionRecord, RuntimeEvent, lifecycle_payload,
}
use schedune.Node.{NodeRecord}
use schedune.Lifecycle.{append_trace, transition_to}

-- The interface runtime.Executor; an error is its message.
pub record Executor : Type 0 where
  pub prepare : LaunchSpec → Result PreparedLaunch
  pub execute : PreparedLaunch → Result ℤ
  pub terminate : ℤ → Option String

-- What the pipeline is given. GetNode is called twice, and the node may change in between; its result
-- is a node with an error or none. `clock i` and `new_id i` are the results of the i-th calls.
pub record Services : Type 0 where
  pub get_node : String → NodeRecord × Option String
  pub get_node_again : String → NodeRecord × Option String
  pub resolve : String → Result Executor
  pub has_event_store : Bool
  pub clock : ℕ → ℤ
  pub new_id : ℕ → String
  pub trace_order : Dict String → Dict String
  pub hints_order : Dict String → Dict String

pub data Effect : Type 0 where
  saved_execution : LaunchExecutionRecord → Effect
  appended_event : RuntimeEvent → Effect

pub record Machine : Type 0 where
  pub rec : LaunchExecutionRecord
  pub ticks : ℕ
  pub ids : ℕ
  pub effects : List Effect

-- `%v` of a list of texts.
abbrev words_text : List String → String
words_text [] = ""
words_text (s ∷ []) = s
words_text (s ∷ t ∷ ss) = s <> " " <> words_text (t ∷ ss)

unfoldable pub list_text : List String → String
list_text ss = "[" <> words_text ss <> "]"

-- `o.save(rec)`
abbrev pub save : Machine → Machine
save m = record m { effects = saved_execution m.rec ∷ m.effects }

abbrev pub backend_of : Option PreparedLaunch → String
backend_of none = ""
backend_of (some p) = p.runtime_backend

module _ (o : Services) where
  -- TransitionTo, with its error ignored as the pipeline ignores it. The number of the clock's reading
  -- also grows where the call is refused and reads no clock, which any clock allows.
  unfoldable pub go_to : LaunchState → String → String → Machine → Machine
  unfolding transition_to
  go_to next code msg m = record m {
    rec = (transition_to (o.clock m.ticks) m.rec next code msg).0;
    ticks = suc m.ticks;
  }

  unfoldable pub trace : String → String → String → String → Machine → Machine
  unfolding append_trace
  trace stage status code msg m = record m {
    rec = append_trace (o.clock m.ticks) m.rec stage status code msg;
    ticks = suc m.ticks;
  }

  -- emitEvent
  unfoldable pub emit_event : String → String → String → Machine → Machine
  emit_event event_type code msg m =
      if o.has_event_store
      then record m {
        ids = suc m.ids;
        ticks = suc m.ticks;
        effects =
            appended_event (record {
              event_id = o.new_id m.ids;
              execution_id = m.rec.execution_id;
              event_type = event_type;
              timestamp_sec = o.clock m.ticks;
              reason_code = code;
              payload_json = lifecycle_payload (record {
                execution_id = m.rec.execution_id;
                workload_id = m.rec.workload_id;
                node_id = m.rec.node_id;
                backend = backend_of m.rec.prepared_state;
                state = m.rec.state;
                message = msg;
              });
            })
            ∷ m.effects;
      }
      else m

  -- The end of a step that fails: the state Failed, saved, with its event.
  abbrev pub fail_with : String → String → String → Machine → Machine
  fail_with event_type code msg m = emit_event event_type code msg (save (go_to failed code msg m))

  -- The end of a step that passes.
  abbrev pub pass_with : LaunchState → String → String → Machine → Machine
  pass_with next event_type msg m = emit_event event_type "" msg (save (go_to next "" msg m))
