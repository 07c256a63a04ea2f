-- ===== src/Threads.antt =====
-- repository.py, the threads: creation, status changes and waking.
pub mod Fence
use swarmboard.Prelude.{
  String, Bool, true, false, not, ◌&&◌, Option, none, some, [], ◌∷◌, str_eq, if◌then◌else◌,
}
use swarmboard.Json.{text}
use swarmboard.Python.{Python}
use swarmboard.Exec.{◌>>=◌, ◌>>◌, pure, raise_if, skip, invalid_state, value_error}
use swarmboard.Models.{
  RowId, Time, Thread, ThreadStatus, active, dormant, closed, unknown, thread_created,
  thread_became, is_terminal, is_closed,
}
use swarmboard.Tables.{
  Session, utc_now, new_uuid, get_run, get_thread, put_thread, insert_thread, add_event, event_of,
  opt_text,
}

abbrev pub status_text : ThreadStatus → String
status_text active = "active"
status_text dormant = "dormant"
status_text closed = "closed"
status_text (unknown s) = s

abbrev pub same_status : ThreadStatus → ThreadStatus → Bool
same_status active active = true
same_status dormant dormant = true
same_status closed closed = true
same_status (unknown s) (unknown t) = str_eq s t
same_status _ _ = false

-- The terminal-run fence of every conversation write: a run id that is None passes.
unfoldable pub require_open_run : Option RowId → Session (Unit {0})
unfolding ◌>>=◌ get_run
require_open_run none = skip
require_open_run (some id) = do run ← get_run id; raise_if (is_terminal run.state) invalid_state

unfoldable pub require_run : Option RowId → Session (Unit {0})
unfolding ◌>>=◌ get_run
require_run none = skip
require_run (some id) = do get_run id; skip

-- `create_thread`
unfoldable pub create_thread :
    Python → String → Option RowId → Option String → String → Option String → Session Thread
unfolding ◌>>=◌ require_run new_uuid utc_now insert_thread add_event
create_thread py title run_id summary actor actor_id = do
  require_run run_id
  id ← new_uuid
  now ← utc_now
  let thread : Thread = record {
    id = id;
    run_id = run_id;
    title = py.strip title;
    status = active;
    current_sequence = 0;
    summary = summary;
    latest_activity_at = now;
    dormant_at = none;
    closed_at = none;
    wake_reason = none;
  }
  insert_thread thread
  add_event (record (event_of thread_created) {
    run_id = run_id;
    thread_id = some id;
    actor_type = actor;
    actor_id = actor_id;
    payload = ("title", text (py.strip title)) ∷ [];
  })
  pure thread

-- The row that `set_thread_status` writes.
unfoldable pub with_status : Thread → ThreadStatus → Option String → Time → Thread
with_status t active reason now = record t {
  status = active;
  dormant_at = none;
  closed_at = none;
  wake_reason = reason;
}
with_status t dormant reason now = record t { status = dormant; dormant_at = some now }
with_status t closed reason now = record t { status = closed; closed_at = some now }
with_status t (unknown s) reason now = record t { status = unknown s }

abbrev pub is_unknown : ThreadStatus → Bool
is_unknown (unknown s) = true
is_unknown _ = false

-- In a terminal run only the change to `closed` passes.
unfoldable pub require_status_change : Option RowId → ThreadStatus → Session (Unit {0})
unfolding ◌>>=◌ get_run
require_status_change none status = skip
require_status_change (some id) status = do
  run ← get_run id
  raise_if (is_terminal run.state && not (is_closed status)) invalid_state

-- The change itself, for a thread whose status differs.
unfoldable pub change_status :
    Thread → ThreadStatus → Option String → String → Option String → Session Thread
unfolding ◌>>=◌ require_status_change utc_now with_status put_thread add_event
change_status thread status reason actor actor_id = do
  require_status_change thread.run_id status
  now ← utc_now
  let saved = with_status thread status reason now
  put_thread saved
  raise_if (is_unknown status) value_error
  add_event (record (event_of (thread_became status)) {
    run_id = thread.run_id;
    thread_id = some thread.id;
    actor_type = actor;
    actor_id = actor_id;
    payload =
        ("from", text (status_text thread.status))
        ∷ ("to", text (status_text status))
        ∷ ("reason", opt_text reason)
        ∷ [];
  })
  pure saved

-- `set_thread_status`
unfoldable pub set_thread_status :
    RowId → ThreadStatus → Option String → String → Option String → Session Thread
unfolding ◌>>=◌ get_thread change_status
set_thread_status id status reason actor actor_id = do
  thread ← get_thread id
  if same_status thread.status status
      then pure thread
      else change_status thread status reason actor actor_id

-- `wake_thread`
unfoldable pub wake_thread : RowId → String → String → Option String → Session Thread
unfolding ◌>>=◌ get_thread require_open_run set_thread_status
wake_thread id reason actor actor_id = do
  thread ← get_thread id
  require_open_run thread.run_id
  raise_if (is_closed thread.status) invalid_state
  set_thread_status id active (some reason) actor actor_id
