-- ===== src/Posts.antt =====
-- repository.py, the posts: idempotent delivery, creation, and conversation starts.
pub mod Keys
pub mod Starts
use Prim.Native.String.{◌++◌ as joined}
use swarmboard.Prelude.{
  ℕ, ◌+◌, String, Bool, true, false, not, ◌&&◌, ◌||◌, Option, none, some, [], ◌∷◌, ◌++◌, ◌==◌,
  is_some, is_val, or_else, any_of, str_eq, if◌then◌else◌,
}
use swarmboard.Json.{Dict, text, null}
use swarmboard.Python.{Python}
use swarmboard.Exec.{
  Outcome, Error, ok, raise, ◌>>=◌, ◌>>◌, pure, throw, raise_if, or_raise, when, skip,
  invalid_state, value_error, integrity_error, idempotency_conflict, repository_error,
  rollback_duplicate,
}
use swarmboard.Models.{
  RowId, Time, Post, Event, Thread, AuthorType, human, agent, system, post_created, is_closed,
  is_dormant, is_human,
}
use swarmboard.Tables.{
  World, Session, utc_now, new_uuid, get_agent, get_thread, get_post, put_agent, put_thread,
  insert_post, savepoint, add_event, event_of, opt_text, opt_id, num_json,
}
use swarmboard.Runs.{increment_run_counters}
use swarmboard.Threads.{require_open_run, create_thread, wake_thread}
use Keys.{PostWrite, Expected, post_for_key}

-- The arguments of `create_post`.
pub record PostArgs : Type 0 where
  pub thread_id : RowId
  pub body : String
  pub author_type : AuthorType
  pub author_handle : String
  pub author_agent_id : Option RowId
  pub parent_post_id : Option RowId
  pub intent : Option String
  pub idempotency_key : Option String
  pub stimulus_id : Option RowId
  pub metadata : Dict
  pub event_payload : Dict
  pub operation : String
  pub allow_cross_thread : Bool

abbrev pub author_text : AuthorType → String
author_text human = "human"
author_text agent = "agent"
author_text system = "system"

-- What an earlier delivery under the same key must have been.
abbrev pub expected : PostArgs → Expected
expected a = record {
  author_type = some a.author_type;
  agent_id = a.author_agent_id;
  stimulus_id = a.stimulus_id;
  operation = some a.operation;
  thread_id = if a.allow_cross_thread then none else some a.thread_id;
}

-- A dormant thread is woken by a human post, and by no other.
unfoldable pub wake_for_post : Thread → PostArgs → Session (Unit {0})
unfolding ◌>>=◌ wake_thread
wake_for_post thread a = when (is_dormant thread.status) (do
  raise_if (not (is_human a.author_type)) invalid_state
  wake_thread a.thread_id "human_post" "human" (some a.author_handle)
  skip)

unfoldable pub require_parent : Option RowId → RowId → Session (Unit {0})
unfolding ◌>>=◌ get_post
require_parent none thread_id = skip
require_parent (some id) thread_id = do
  parent ← get_post id
  raise_if (not (parent.thread_id == thread_id)) value_error

unfoldable pub require_agent : Option RowId → Session (Unit {0})
unfolding ◌>>=◌ get_agent
require_agent none = skip
require_agent (some id) = do get_agent id; skip

-- `author_handle.strip().lstrip("@") or "human"`
unfoldable pub clean_handle : Python → String → String
clean_handle py handle =
    let cleaned = py.lstrip_at (py.strip handle) in if str_eq cleaned "" then "human" else cleaned

abbrev pub post_row : Python → PostArgs → RowId → ℕ → Time → Post
post_row py a id sequence now = record {
  id = id;
  thread_id = a.thread_id;
  parent_post_id = a.parent_post_id;
  author_type = a.author_type;
  author_agent_id = a.author_agent_id;
  author_handle = clean_handle py a.author_handle;
  body = py.strip a.body;
  sequence = sequence;
  intent = a.intent;
  idempotency_key = a.idempotency_key;
  metadata =
      ("_swarmboard_operation", text a.operation)
      ∷ ("_swarmboard_stimulus_id", opt_id a.stimulus_id)
      ∷ a.metadata;
  created_at = now;
}

-- `actor_id=author_agent_id or post.author_handle`
abbrev pub actor_id_of : Python → Option RowId → String → String
actor_id_of py none handle = handle
actor_id_of py (some id) handle = py.id_text id

abbrev pub post_event : Python → PostArgs → Option RowId → Post → Event
post_event py a run_id post = record (event_of post_created) {
  run_id = run_id;
  thread_id = some a.thread_id;
  post_id = some post.id;
  agent_id = a.author_agent_id;
  stimulus_id = a.stimulus_id;
  actor_type = author_text a.author_type;
  actor_id = some (actor_id_of py a.author_agent_id post.author_handle);
  payload =
      a.event_payload
      ++ ("sequence", num_json post.sequence)
        ∷ ("parent_post_id", opt_id a.parent_post_id)
        ∷ ("author_type", text (author_text a.author_type))
        ∷ ("author_handle", text post.author_handle)
        ∷ ("intent", opt_text a.intent)
        ∷ ("operation", text a.operation)
        ∷ [];
}

unfoldable pub count_run_post : Option RowId → Session (Unit {0})
unfolding ◌>>=◌ increment_run_counters
count_run_post none = skip
count_run_post (some id) = do increment_run_counters id 0 1 0 0; skip

-- The statements inside the savepoint of `create_post`.
unfoldable pub write_post : Python → PostArgs → Time → Session PostWrite
unfolding ◌>>=◌ get_thread put_thread new_uuid insert_post add_event count_run_post clean_handle
write_post py a now = do
  thread ← get_thread a.thread_id
  let sequence = thread.current_sequence + 1
  put_thread (record thread { current_sequence = sequence; latest_activity_at = now })
  id ← new_uuid
  let post = post_row py a id sequence now
  insert_post post
  event ← add_event (post_event py a thread.run_id post)
  count_run_post thread.run_id
  let result : PostWrite = record { post = post; event = event; created = true }
  pure result

-- `except IntegrityError`: a racing delivery of the same key is the result.
unfoldable pub lost_race : PostArgs → Error → Session PostWrite
unfolding ◌>>=◌ post_for_key
lost_race a integrity_error = do
  raise_if (not (is_some a.idempotency_key)) integrity_error
  existing ← post_for_key a.idempotency_key (expected a)
  or_raise existing integrity_error
lost_race a error = throw error

unfoldable pub insert_or_existing : Python → PostArgs → Time → Session PostWrite
unfolding ◌>>=◌ savepoint write_post lost_race
insert_or_existing py a now w = elim (savepoint (write_post py a now) w) [
  | ok result w' ↦ ok result w'
  | raise error w' ↦ lost_race a error w'
]

-- The path of a delivery that no earlier post has made.
unfoldable pub deliver_post : Python → PostArgs → Session PostWrite
unfolding ◌>>=◌ get_thread require_open_run wake_for_post require_parent require_agent utc_now
    insert_or_existing
deliver_post py a = do
  thread ← get_thread a.thread_id
  require_open_run thread.run_id
  raise_if (is_closed thread.status) invalid_state
  wake_for_post thread a
  require_parent a.parent_post_id a.thread_id
  require_agent a.author_agent_id
  now ← utc_now
  insert_or_existing py a now

abbrev pub found_or : Option PostWrite → Session PostWrite → Session PostWrite
found_or (some existing) m w = ok existing w
found_or none m w = m w

-- `create_post`
unfoldable pub create_post : Python → PostArgs → Session PostWrite
unfolding ◌>>=◌ post_for_key deliver_post
create_post py a = do
  raise_if (str_eq (py.strip a.body) "") value_error
  existing ← post_for_key a.idempotency_key (expected a)
  found_or existing (deliver_post py a)

-- `"stimulus:{stimulus_id}:agent:{agent_id}"`, when no key is given and the stimulus is known.
unfoldable pub delivery_key : Python → Option String → Option RowId → RowId → Option String
delivery_key py (some key) stimulus_id agent_id = some key
delivery_key py none none agent_id = none
delivery_key py none (some s) agent_id =
    some (joined "stimulus:" (joined (py.id_text s) (joined ":agent:" (py.id_text agent_id))))

-- `create_agent_post`
unfoldable pub create_agent_post : Python → RowId → PostArgs → Session PostWrite
unfolding ◌>>=◌ get_agent create_post put_agent delivery_key
create_agent_post py agent_id args = do
  author ← get_agent agent_id
  let a = record args {
    author_type = agent;
    author_handle = author.handle;
    author_agent_id = some agent_id;
    idempotency_key = delivery_key py args.idempotency_key args.stimulus_id agent_id;
    event_payload = [];
  }
  result ← create_post py a
  when result.created (put_agent (record author { last_spoke_at = some result.post.created_at }))
  pure result
