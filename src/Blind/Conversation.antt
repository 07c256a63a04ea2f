-- ===== src/Blind/Conversation.antt =====
-- repository.py: blind properties under the operations on threads and posts.
use swarmboard.Prelude.{String, Option, none, some}
use swarmboard.Python.{Python}
use swarmboard.Exec.{Error, Outcome, ok, raise, pure, state_of, integrity_error, rollback_duplicate}
use swarmboard.Models.{RowId, Time, Thread, Post, ThreadStatus}
use swarmboard.Tables.{World, Tables, Session, savepoint}
use swarmboard.Threads.{
  require_run, require_open_run, create_thread, require_status_change, change_status,
  set_thread_status, wake_thread,
}
use swarmboard.Posts.{
  PostArgs, wake_for_post, require_parent, require_agent, count_run_post, write_post, lost_race,
  insert_or_existing, deliver_post, found_or, create_post, create_agent_post,
}
use swarmboard.Posts.Keys.{PostWrite, Expected, existing_write, write_of, post_for_key}
use swarmboard.Posts.Starts.{
  StartArgs, open_human_thread, open_agent_thread, keyed_start, after_rollback, start_or_existing,
  create_human_thread, create_agent_thread, create_human_post, human_args,
}
use swarmboard.Blind.Primitives.{IsBlind, Holds, blind_rules, Holds-savepoint}

module _ {P : Tables → Type 0} (b : IsBlind P) where
  Holds-require_run : (id : Option RowId) → Holds P (require_run id)
  unfolding require_run
  Holds-require_run none = search blind_rules
  Holds-require_run (some id) = search blind_rules

  pub Holds-require_open_run : (id : Option RowId) → Holds P (require_open_run id)
  unfolding require_open_run
  Holds-require_open_run none = search blind_rules
  Holds-require_open_run (some id) = search blind_rules

  pub Holds-create_thread :
      (py : Python) (title : String) (run : Option RowId) (summary : Option String) (actor : String)
      (actor_id : Option String)
      → Holds P (create_thread py title run summary actor actor_id)
  unfolding create_thread
  Holds-create_thread py title run summary actor actor_id =
      search (blind_rules, Holds-require_run) depth 12

  Holds-require_status_change :
      (id : Option RowId) (s : ThreadStatus) → Holds P (require_status_change id s)
  unfolding require_status_change
  Holds-require_status_change none s = search blind_rules
  Holds-require_status_change (some id) s = search blind_rules

  Holds-change_status :
      (t : Thread) (s : ThreadStatus) (reason : Option String) (actor : String) (id : Option String)
      → Holds P (change_status t s reason actor id)
  unfolding change_status
  Holds-change_status t s reason actor id =
      search (blind_rules, Holds-require_status_change) depth 12

  pub Holds-set_thread_status :
      (id : RowId) (s : ThreadStatus) (reason : Option String) (actor : String) (a : Option String)
      → Holds P (set_thread_status id s reason actor a)
  unfolding set_thread_status
  Holds-set_thread_status id s reason actor a = search (blind_rules, Holds-change_status) depth 8

  pub Holds-wake_thread :
      (id : RowId) (reason actor : String) (a : Option String)
      → Holds P (wake_thread id reason actor a)
  unfolding wake_thread
  Holds-wake_thread id reason actor a =
      search (blind_rules, Holds-require_open_run, Holds-set_thread_status) depth 8

  Holds-existing_write : (x : Expected) (p : Post) → Holds P (existing_write x p)
  unfolding existing_write
  Holds-existing_write x p = search blind_rules depth 8

  Holds-write_of : (x : Expected) (p : Option Post) → Holds P (write_of x p)
  Holds-write_of x none = record { at = (Holds-pure none).at }
    where
      Holds-pure : (o : Option PostWrite) → Holds P (pure o)
      Holds-pure o = search blind_rules
  Holds-write_of x (some p) = record { at = (Holds-existing_write x p).at }

  pub Holds-post_for_key : (key : Option String) (x : Expected) → Holds P (post_for_key key x)
  unfolding post_for_key
  Holds-post_for_key none x = search blind_rules
  Holds-post_for_key (some key) x = search (blind_rules, Holds-write_of)

  Holds-found_or :
      (o : Option PostWrite) (m : Session PostWrite) → Holds P m → Holds P (found_or o m)
  Holds-found_or none m k = record { at = k.at }
  Holds-found_or (some w) m k = record { at = λ s h. h }

  Holds-wake_for_post : (t : Thread) (a : PostArgs) → Holds P (wake_for_post t a)
  unfolding wake_for_post
  Holds-wake_for_post t a = search (blind_rules, Holds-wake_thread) depth 8

  Holds-require_parent : (id : Option RowId) (t : RowId) → Holds P (require_parent id t)
  unfolding require_parent
  Holds-require_parent none t = search blind_rules
  Holds-require_parent (some id) t = search blind_rules

  Holds-require_agent : (id : Option RowId) → Holds P (require_agent id)
  unfolding require_agent
  Holds-require_agent none = search blind_rules
  Holds-require_agent (some id) = search blind_rules

  Holds-count_run_post : (id : Option RowId) → Holds P (count_run_post id)
  unfolding count_run_post
  Holds-count_run_post none = search blind_rules
  Holds-count_run_post (some id) = search blind_rules

  Holds-write_post : (py : Python) (a : PostArgs) (now : Time) → Holds P (write_post py a now)
  unfolding write_post
  Holds-write_post py a now = search (blind_rules, Holds-count_run_post) depth 16

  Holds-lost_race : (a : PostArgs) (e : Error) → Holds P (lost_race a e)
  unfolding lost_race
  Holds-lost_race a integrity_error = search (blind_rules, Holds-post_for_key) depth 8
  Holds-lost_race a _ = search blind_rules

  after_insert :
      (a : PostArgs) (o : Outcome World PostWrite)
      → P (state_of o).tables
      → P
          (state_of (
            let r : Outcome World PostWrite = elim o [
              | ok result w' ↦ ok result w'
              | raise error w' ↦ lost_race a error w'
            ] in
            r)).tables
  after_insert a (ok result w) h = h
  after_insert a (raise e w) h = (Holds-lost_race a e).at w h

  Holds-insert_or_existing :
      (py : Python) (a : PostArgs) (now : Time) → Holds P (insert_or_existing py a now)
  unfolding insert_or_existing
  Holds-insert_or_existing py a now = record {
    at = λ w h.
        after_insert a (savepoint (write_post py a now) w)
          ((Holds-savepoint (write_post py a now) (Holds-write_post py a now)).at w h);
  }

  Holds-deliver_post : (py : Python) (a : PostArgs) → Holds P (deliver_post py a)
  unfolding deliver_post
  Holds-deliver_post py a =
      search
        (
          blind_rules, Holds-require_open_run, Holds-wake_for_post, Holds-require_parent,
          Holds-require_agent, Holds-insert_or_existing,
        )
        depth 16

  pub Holds-create_post : (py : Python) (a : PostArgs) → Holds P (create_post py a)
  unfolding create_post
  Holds-create_post py a =
      search (blind_rules, Holds-post_for_key, Holds-found_or, Holds-deliver_post) depth 8

  pub Holds-create_human_post : (py : Python) (a : PostArgs) → Holds P (create_human_post py a)
  unfolding create_human_post
  Holds-create_human_post py a = Holds-create_post py (human_args a)

  pub Holds-create_agent_post :
      (py : Python) (id : RowId) (a : PostArgs) → Holds P (create_agent_post py id a)
  unfolding create_agent_post
  Holds-create_agent_post py id a = search (blind_rules, Holds-create_post) depth 10

  Holds-open_human_thread :
      (py : Python) (a : StartArgs) (handle : String) → Holds P (open_human_thread py a handle)
  unfolding open_human_thread
  Holds-open_human_thread py a handle =
      search (blind_rules, Holds-create_thread, Holds-create_post) depth 8

  Holds-open_agent_thread :
      (py : Python) (a : StartArgs) (id : RowId) → Holds P (open_agent_thread py a id)
  unfolding open_agent_thread
  Holds-open_agent_thread py a id =
      search (blind_rules, Holds-create_thread, Holds-create_agent_post) depth 8

  Holds-keyed_start : (m : Session PostWrite) → Holds P m → Holds P (keyed_start m)
  unfolding keyed_start
  Holds-keyed_start m k = search blind_rules depth 8

  Holds-after_rollback :
      (key : Option String) (x : Expected) (e : Error) → Holds P (after_rollback key x e)
  unfolding after_rollback
  Holds-after_rollback key x rollback_duplicate = search (blind_rules, Holds-post_for_key)
  Holds-after_rollback key x _ = search blind_rules

  after_start :
      (key : Option String) (x : Expected) (o : Outcome World PostWrite)
      → P (state_of o).tables
      → P
          (state_of (
            let r : Outcome World PostWrite = elim o [
              | ok result w' ↦ ok result w'
              | raise error w' ↦ after_rollback key x error w'
            ] in
            r)).tables
  after_start key x (ok result w) h = h
  after_start key x (raise e w) h = (Holds-after_rollback key x e).at w h

  Holds-start_or_existing :
      (key : Option String) (x : Expected) (m : Session PostWrite)
      → Holds P m
      → Holds P (start_or_existing key x m)
  unfolding start_or_existing
  Holds-start_or_existing none x m k = record { at = k.at }
  Holds-start_or_existing (some key) x m k = record {
    at = λ w h. after_start (some key) x (keyed_start m w) ((Holds-keyed_start m k).at w h);
  }

  pub Holds-create_human_thread :
      (py : Python) (a : StartArgs) (handle : String) → Holds P (create_human_thread py a handle)
  unfolding create_human_thread
  Holds-create_human_thread py a handle =
      search
        (
          blind_rules, Holds-post_for_key, Holds-found_or, Holds-require_open_run,
          Holds-start_or_existing, Holds-open_human_thread,
        )
        depth 10

  pub Holds-create_agent_thread :
      (py : Python) (a : StartArgs) (id : RowId) → Holds P (create_agent_thread py a id)
  unfolding create_agent_thread
  Holds-create_agent_thread py a id =
      search
        (
          blind_rules, Holds-post_for_key, Holds-found_or, Holds-require_open_run,
          Holds-start_or_existing, Holds-open_agent_thread,
        )
        depth 12
