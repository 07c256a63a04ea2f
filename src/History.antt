-- ===== src/History.antt =====
-- A history of the repository: calls of its writing operations, each in a transaction of its own.
use swarmboard.Prelude.{ℕ, String, Bool, Option, List, [], ◌∷◌}
use swarmboard.Prelude.Int.{ℤ}
use swarmboard.Json.{Json}
use swarmboard.Python.{Python}
use swarmboard.Exec.{◌>>=◌, ◌>>◌, skip, state_of}
use swarmboard.Models.{RowId, Time, Limits, RunState, ControlAction, ThreadStatus}
use swarmboard.Tables.{World, Session, transaction}
use swarmboard.Floats.{Floats}
use swarmboard.Agents.{AgentArgs, AgentChange, create_agent, upsert_agent}
use swarmboard.Memories.{MemoryArgs, create_memory}
use swarmboard.Runs.{create_run, control_run, set_run_state, increment_run_counters, heartbeat_run}
use swarmboard.Runs.Cleanup.{cleanup_terminal_run_work}
use swarmboard.Threads.{create_thread, set_thread_status, wake_thread}
use swarmboard.Posts.{PostArgs, create_post, create_agent_post}
use swarmboard.Posts.Starts.{StartArgs, create_human_post, create_human_thread, create_agent_thread}
use swarmboard.Deliveries.{StimulusArgs, add_stimulus}
use swarmboard.Leases.{claim_stimuli, mark_stimulus_processing, complete_stimulus, release_stimulus}
use swarmboard.Turns.{
  TurnArgs, Finish, create_turn, mark_turn_calling, append_turn_retry, finish_turn,
}
use swarmboard.Recovery.{recover_inflight_work}

-- One constructor for each writing operation that is modelled, with its arguments.
pub data Call : Type 0 where
  call_create_agent : (a : AgentArgs) → Call
  call_upsert_agent :
      (handle : String) (values : List AgentChange) (expertise : Option (List String)) → Call
  call_create_memory : (fl : Floats) (a : MemoryArgs) → Call
  call_create_run :
      (seed : ℤ) (continuous : Bool) (config : Json) (limits : Limits) (state : RunState) → Call
  call_control_run : (id : RowId) (action : ControlAction) (reason : Option String) → Call
  call_set_run_state :
      (id : RowId) (state : RunState) (reason : Option String) (actor : String) → Call
  call_cleanup_terminal_run_work : (scope : Option RowId) → Call
  call_increment_run_counters : (id : RowId) (rounds posts tokens calls : ℕ) → Call
  call_heartbeat_run : (id : RowId) (at : Option Time) → Call
  call_create_thread :
      (title : String) (run : Option RowId) (summary : Option String) (actor : String)
      (actor_id : Option String)
      → Call
  call_create_human_thread : (a : StartArgs) (handle : String) → Call
  call_create_agent_thread : (a : StartArgs) (agent_id : RowId) → Call
  call_set_thread_status :
      (id : RowId) (status : ThreadStatus) (reason : Option String) (actor : String)
      (actor_id : Option String)
      → Call
  call_wake_thread : (id : RowId) (reason actor : String) (actor_id : Option String) → Call
  call_create_post : (a : PostArgs) → Call
  call_create_human_post : (a : PostArgs) → Call
  call_create_agent_post : (agent_id : RowId) (a : PostArgs) → Call
  call_add_stimulus : (a : StimulusArgs) → Call
  call_claim_stimuli : (run : Option RowId) (limit : ℕ) (at : Option Time) → Call
  call_mark_stimulus_processing : (id token : RowId) → Call
  call_complete_stimulus : (id : RowId) (token : Option RowId) → Call
  call_release_stimulus : (id token : RowId) (error : String) (delay : ℕ) → Call
  call_create_turn : (a : TurnArgs) → Call
  call_mark_turn_calling : (id : RowId) → Call
  call_append_turn_retry : (id : RowId) (retry : Json) → Call
  call_finish_turn : (id : RowId) (f : Finish) → Call
  call_recover_inflight_work : (before : Option Time) (run : Option RowId) → Call

-- The operation, its result forgotten.
unfoldable pub perform : Python → Call → Session (Unit {0})
unfolding ◌>>=◌
perform py (call_create_agent a) = create_agent py a >> skip
perform py (call_upsert_agent handle values expertise) =
    upsert_agent py handle values expertise >> skip
perform py (call_create_memory fl a) = create_memory py fl a >> skip
perform py (call_create_run seed continuous config limits state) =
    create_run seed continuous config limits state >> skip
perform py (call_control_run id action reason) = control_run id action reason >> skip
perform py (call_set_run_state id state reason actor) = set_run_state id state reason actor >> skip
perform py (call_cleanup_terminal_run_work scope) = cleanup_terminal_run_work scope >> skip
perform py (call_increment_run_counters id rounds posts tokens calls) =
    increment_run_counters id rounds posts tokens calls >> skip
perform py (call_heartbeat_run id at) = heartbeat_run id at >> skip
perform py (call_create_thread title run summary actor actor_id) =
    create_thread py title run summary actor actor_id >> skip
perform py (call_create_human_thread a handle) = create_human_thread py a handle >> skip
perform py (call_create_agent_thread a agent_id) = create_agent_thread py a agent_id >> skip
perform py (call_set_thread_status id status reason actor actor_id) =
    set_thread_status id status reason actor actor_id >> skip
perform py (call_wake_thread id reason actor actor_id) =
    wake_thread id reason actor actor_id >> skip
perform py (call_create_post a) = create_post py a >> skip
perform py (call_create_human_post a) = create_human_post py a >> skip
perform py (call_create_agent_post agent_id a) = create_agent_post py agent_id a >> skip
perform py (call_add_stimulus a) = add_stimulus a >> skip
perform py (call_claim_stimuli run limit at) = claim_stimuli run limit at >> skip
perform py (call_mark_stimulus_processing id token) = mark_stimulus_processing id token >> skip
perform py (call_complete_stimulus id token) = complete_stimulus id token >> skip
perform py (call_release_stimulus id token error delay) =
    release_stimulus py id token error delay >> skip
perform py (call_create_turn a) = create_turn py a >> skip
perform py (call_mark_turn_calling id) = mark_turn_calling id >> skip
perform py (call_append_turn_retry id retry) = append_turn_retry id retry >> skip
perform py (call_finish_turn id f) = finish_turn py id f >> skip
perform py (call_recover_inflight_work before run) = recover_inflight_work before run >> skip

-- The world after the calls, in the order of the list.
unfoldable pub history : Python → List Call → World → World
unfolding perform
history py [] w = w
history py (c ∷ cs) w = history py cs (state_of (transaction (perform py c) w))
