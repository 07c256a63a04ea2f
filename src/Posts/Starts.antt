-- ===== src/Posts/Starts.antt =====
-- repository.py, `create_human_post`, `create_human_thread` and `create_agent_thread`: posts of people,
-- and a thread with its first post.
use swarmboard.Prelude.{String, true, not, Option, none, some, str_eq, if◌then◌else◌, []}
use swarmboard.Json.{Dict}
use swarmboard.Python.{Python}
use swarmboard.Exec.{
  Error, ok, raise, ◌>>=◌, ◌>>◌, pure, throw, raise_if, or_raise, repository_error,
  rollback_duplicate,
}
use swarmboard.Models.{RowId, AuthorType, human, agent, system}
use swarmboard.Tables.{Session, savepoint, get_agent}
use swarmboard.Threads.{require_open_run, create_thread}
use swarmboard.Posts.{PostArgs, create_post, create_agent_post, delivery_key, found_or, author_text}
use swarmboard.Posts.Keys.{PostWrite, Expected, post_for_key}

-- The arguments that the two starts share.
pub record StartArgs : Type 0 where
  pub title : String
  pub body : String
  pub run_id : Option RowId
  pub intent : Option String
  pub idempotency_key : Option String
  pub stimulus_id : Option RowId
  pub metadata : Dict

abbrev pub opening_args : StartArgs → RowId → AuthorType → String → PostArgs
opening_args a thread_id author handle = record {
  thread_id = thread_id;
  body = a.body;
  author_type = author;
  author_handle = handle;
  author_agent_id = none;
  parent_post_id = none;
  intent = a.intent;
  idempotency_key = a.idempotency_key;
  stimulus_id = a.stimulus_id;
  metadata = a.metadata;
  event_payload = [];
  operation = "new_thread";
  allow_cross_thread = true;
}

abbrev pub start_expected : AuthorType → Option RowId → Option RowId → Expected
start_expected author agent_id stimulus_id = record {
  author_type = some author;
  agent_id = agent_id;
  stimulus_id = stimulus_id;
  operation = some "new_thread";
  thread_id = none;
}

-- `AuthorType.SYSTEM if author_handle == "SYSTEM" else AuthorType.HUMAN`
abbrev pub operator_type : String → AuthorType
operator_type handle = if str_eq handle "SYSTEM" then system else human

-- What `create_human_post` fixes of the arguments of `create_post`.
abbrev pub human_args : PostArgs → PostArgs
human_args args = record args {
  author_type = operator_type args.author_handle;
  author_agent_id = none;
  intent = none;
  stimulus_id = none;
  event_payload = [];
}

-- `create_human_post`
unfoldable pub create_human_post : Python → PostArgs → Session PostWrite
unfolding create_post
create_human_post py args = create_post py (human_args args)

unfoldable pub open_human_thread : Python → StartArgs → String → Session PostWrite
unfolding ◌>>=◌ create_thread create_post
open_human_thread py a handle = do
  thread ← create_thread py a.title a.run_id none (author_text (operator_type handle)) (some handle)
  create_post py (
      opening_args (record a { intent = none; stimulus_id = none }) thread.id (operator_type handle)
        handle)

unfoldable pub open_agent_thread : Python → StartArgs → RowId → Session PostWrite
unfolding ◌>>=◌ create_thread create_agent_post
open_agent_thread py a agent_id = do
  thread ← create_thread py a.title a.run_id none "agent" (some (py.id_text agent_id))
  create_agent_post py agent_id (opening_args a thread.id agent "")

-- The savepoint of a keyed start: a duplicate rolls the new thread back.
unfoldable pub keyed_start : Session PostWrite → Session PostWrite
unfolding ◌>>=◌ savepoint
keyed_start open_thread =
    savepoint
      (do result ← open_thread; raise_if (not result.created) rollback_duplicate; pure result)

-- `except _RollbackDuplicateThread`: the earlier delivery is the result.
unfoldable pub after_rollback : Option String → Expected → Error → Session PostWrite
unfolding ◌>>=◌ post_for_key
after_rollback key x rollback_duplicate = do
  existing ← post_for_key key x
  or_raise existing repository_error
after_rollback key x error = throw error

unfoldable pub start_or_existing : Option String → Expected → Session PostWrite → Session PostWrite
unfolding ◌>>=◌ keyed_start after_rollback
start_or_existing none x open_thread w = open_thread w
start_or_existing (some key) x open_thread w = elim (keyed_start open_thread w) [
  | ok result w' ↦ ok result w'
  | raise error w' ↦ after_rollback (some key) x error w'
]

-- `create_human_thread`. The handler expects a human author, whoever the author is.
unfoldable pub create_human_thread : Python → StartArgs → String → Session PostWrite
unfolding ◌>>=◌ post_for_key require_open_run open_human_thread start_or_existing
create_human_thread py a handle = do
  existing ← post_for_key a.idempotency_key (start_expected (operator_type handle) none none)
  found_or existing (do
    require_open_run a.run_id
    start_or_existing a.idempotency_key (start_expected human none none)
        (open_human_thread py a handle))

-- `create_agent_thread`
unfoldable pub create_agent_thread : Python → StartArgs → RowId → Session PostWrite
unfolding ◌>>=◌ get_agent delivery_key post_for_key require_open_run open_agent_thread
    start_or_existing
create_agent_thread py args agent_id = do
  get_agent agent_id
  let key = delivery_key py args.idempotency_key args.stimulus_id agent_id
  let a = record args { idempotency_key = key }
  existing ← post_for_key key (start_expected agent (some agent_id) a.stimulus_id)
  found_or existing (do
    require_open_run a.run_id
    start_or_existing key (start_expected agent (some agent_id) a.stimulus_id)
        (open_agent_thread py a agent_id))
