-- ===== src/Store/Contents.antt =====
-- What the in-memory store holds after a sequence of saves, and what its lists hold
-- (schedune-control-plane/internal/store/memory.go).
use schedune.Base.{
  ◌≡◌, ◌∙◌, ap, refl, String, Option, none, some, List, [], ◌∷◌, if◌then◌else◌, ◌==◌,
}
use schedune.Base.Dict.{get, get-put}
use schedune.Schema.Envelope.{SchedulerEnvelope}
use schedune.Schema.Execution.{LaunchExecutionRecord}
use schedune.Node.{NodeRecord}
use schedune.Store.{
  InMemoryStore, new_in_memory_store, save_execution, get_execution, save_node_state, get_node,
}

-- One call that writes to the store.
pub data Write : Type 0 where
  of_execution : LaunchExecutionRecord → Write
  of_node : SchedulerEnvelope → NodeRecord → Write

abbrev pub write : Write → InMemoryStore → InMemoryStore
write (of_execution rec) s = save_execution rec s
write (of_node env node) s = save_node_state env node s

-- The writes in the order in which they were made.
abbrev pub write_all : List Write → InMemoryStore → InMemoryStore
write_all [] s = s
write_all (w ∷ ws) s = write_all ws (write w s)

-- The last of the writes that saves an execution with the id, after the one that is known.
abbrev pub last_execution :
    String → List Write → Option LaunchExecutionRecord → Option LaunchExecutionRecord
last_execution id [] known = known
last_execution id (of_execution rec ∷ ws) known =
    last_execution id ws (if rec.execution_id == id then some rec else known)
last_execution id (of_node env node ∷ ws) known = last_execution id ws known

abbrev pub last_node : String → List Write → Option NodeRecord → Option NodeRecord
last_node id [] known = known
last_node id (of_execution rec ∷ ws) known = last_node id ws known
last_node id (of_node env node ∷ ws) known =
    last_node id ws (if node.id == id then some node else known)

execution_lem :
    (id : String) (ws : List Write) (s : InMemoryStore)
    → get_execution id (write_all ws s) ≡ last_execution id ws (get_execution id s)
unfolding get_execution save_execution save_node_state
execution_lem id [] s = refl
execution_lem id (of_execution rec ∷ ws) s =
    execution_lem id ws (save_execution rec s)
    ∙ ap (last_execution id ws) (get-put id rec.execution_id rec s.executions)
execution_lem id (of_node env node ∷ ws) s = execution_lem id ws (save_node_state env node s)

node_lem :
    (id : String) (ws : List Write) (s : InMemoryStore)
    → get_node id (write_all ws s) ≡ last_node id ws (get_node id s)
unfolding get_node save_execution save_node_state
node_lem id [] s = refl
node_lem id (of_execution rec ∷ ws) s = node_lem id ws (save_execution rec s)
node_lem id (of_node env node ∷ ws) s =
    node_lem id ws (save_node_state env node s)
    ∙ ap (last_node id ws) (get-put id node.id node s.nodes)

-- After any writes to a new store, GetExecution and GetNode return what was last written under the
-- id, and nothing for an id that was never written.
pub write_all_lem :
    (id : String) (ws : List Write)
    → (get_execution id (write_all ws new_in_memory_store) ≡ last_execution id ws none)
      × (get_node id (write_all ws new_in_memory_store) ≡ last_node id ws none)
unfolding get_execution get_node get
write_all_lem id ws = (execution_lem id ws new_in_memory_store, node_lem id ws new_in_memory_store)
