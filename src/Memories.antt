-- ===== src/Memories.antt =====
-- repository.py, `create_memory`.
use swarmboard.Prelude.{String, true, ◌&&◌, not, Option, List, [], ◌∷◌}
use swarmboard.Floats.{Float, Floats}
use swarmboard.Python.{Python}
use swarmboard.Exec.{◌>>=◌, ◌>>◌, pure, raise_if, integrity_error}
use swarmboard.Models.{RowId, Memory, memory_created}
use swarmboard.Tables.{Session, new_uuid, insert_memory, add_event, event_of, id_json, ids_json}

-- The arguments of `create_memory`.
pub record MemoryArgs : Type 0 where
  pub claim : String
  pub run_id : Option RowId
  pub thread_id : Option RowId
  pub agent_id : Option RowId
  pub source_post_ids : List RowId
  pub tags : List String
  pub confidence : Float

unfoldable pub memory_row : Python → MemoryArgs → RowId → Memory
memory_row py a id = record {
  id = id;
  run_id = a.run_id;
  thread_id = a.thread_id;
  agent_id = a.agent_id;
  claim = py.strip a.claim;
  source_post_ids = a.source_post_ids;
  tags = a.tags;
  confidence = a.confidence;
  active = true;
}

-- The flush checks `ck_memories_confidence`.
unfoldable pub create_memory : Python → Floats → MemoryArgs → Session Memory
unfolding ◌>>=◌ memory_row insert_memory add_event new_uuid
create_memory py fl a = do
  id ← new_uuid
  raise_if
      (not
        (fl.at_most (fl.literal "0.0") a.confidence && fl.at_most a.confidence (fl.literal "1.0")))
      integrity_error
  insert_memory (memory_row py a id)
  _ ← add_event (record (event_of memory_created) {
    run_id = a.run_id;
    thread_id = a.thread_id;
    agent_id = a.agent_id;
    payload = ("memory_id", id_json id) ∷ ("source_post_ids", ids_json a.source_post_ids) ∷ [];
  })
  pure (memory_row py a id)
