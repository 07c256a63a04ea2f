-- ===== src/Posts/Keys.antt =====
-- repository.py, `_post_result_for_idempotency_key`: the post that already owns a delivery key.
use swarmboard.Prelude.{
  String, Bool, false, not, ◌||◌, Option, none, some, find, is_val, str_eq, if◌then◌else◌,
}
use swarmboard.Json.{Json, null, text, get}
use swarmboard.Exec.{
  ◌>>=◌, ◌>>◌, pure, raise_if, or_raise, gets, idempotency_conflict, repository_error,
}
use swarmboard.Models.{RowId, Post, Event, AuthorType, is_post_created, same_author}
use swarmboard.Tables.{Session}

-- `PostWriteResult`
pub record PostWrite : Type 0 where
  pub post : Post
  pub event : Event
  pub created : Bool

-- The `expected_…` arguments; `none` is not checked.
pub record Expected : Type 0 where
  pub author_type : Option AuthorType
  pub agent_id : Option RowId
  pub stimulus_id : Option RowId
  pub operation : Option String
  pub thread_id : Option RowId

abbrev pub has_key : String → Post → Bool
has_key key p = elim p.idempotency_key [ none ↦ false | some k ↦ str_eq k key ]

-- The audit event of a post.
abbrev pub event_for : RowId → Event → Bool
event_for id e = if is_post_created e.event_type then is_val e.post_id id else false

-- A JSON value other than null.
abbrev present : Option Json → Option Json
present none = none
present (some null) = none
present (some j) = some j

abbrev is_text : Json → String → Bool
is_text (text s) t = str_eq s t
is_text _ t = false

abbrev legacy_operation : Option Json → Option Json
legacy_operation none = none
legacy_operation (some j) = some (text (if is_text j "new_thread" then "new_thread" else "post"))

abbrev first_present : Option Json → Option Json → Option Json
first_present (some j) other = some j
first_present none other = other

-- `recorded_operation`: from the event, else the metadata, else the legacy action.
unfoldable pub recorded_operation : Post → Event → Option Json
unfolding get
recorded_operation p e = first_present (present (get "operation" e.payload)) (
    first_present (present (get "_swarmboard_operation" p.metadata))
      (legacy_operation (present (get "action" p.metadata))))

abbrev differs_author : Option AuthorType → AuthorType → Bool
differs_author none actual = false
differs_author (some a) actual = not (same_author actual a)

abbrev differs_id : Option RowId → Option RowId → Bool
differs_id none actual = false
differs_id (some id) actual = not (is_val actual id)

abbrev differs_operation : Option String → Option Json → Bool
differs_operation none recorded = false
differs_operation (some op) none = false
differs_operation (some op) (some j) = not (is_text j op)

-- The key belongs to another logical operation.
unfoldable pub is_conflict : Expected → Post → Event → Bool
unfolding recorded_operation
is_conflict x p e =
    differs_author x.author_type p.author_type
    || differs_id x.agent_id p.author_agent_id
    || differs_id x.agent_id e.agent_id
    || differs_id x.stimulus_id e.stimulus_id
    || differs_id x.thread_id (some p.thread_id)
    || differs_operation x.operation (recorded_operation p e)

unfoldable pub existing_write : Expected → Post → Session (Option PostWrite)
unfolding ◌>>=◌ is_conflict find
existing_write x p = do
  found ← gets (λ w. find (event_for p.id) w.events)
  event ← or_raise found repository_error
  raise_if (is_conflict x p event) idempotency_conflict
  let result : PostWrite = record { post = p; event = event; created = false }
  pure (some result)

abbrev pub write_of : Expected → Option Post → Session (Option PostWrite)
write_of x none w = pure none w
write_of x (some p) w = existing_write x p w

-- `_post_result_for_idempotency_key`
unfoldable pub post_for_key : Option String → Expected → Session (Option PostWrite)
unfolding ◌>>=◌ existing_write find
post_for_key none x = pure none
post_for_key (some key) x = do found ← gets (λ w. find (has_key key) w.posts); write_of x found
