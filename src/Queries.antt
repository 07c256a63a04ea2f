-- ===== src/Queries.antt =====
-- repository.py: the SELECTs that page through events, posts, stimuli and turns.
pub mod Pages
use swarmboard.Prelude.{
  ℕ, String, Bool, true, false, ◌&&◌, Option, none, some, List, [], ◌∷◌, map, take, keep_if, is_val,
  ltb, ◌==◌, if◌then◌else◌,
}
use swarmboard.Prelude.Int.{ltb_ℤ}
use swarmboard.Exec.{◌>>=◌, ◌>>◌, pure, gets}
use swarmboard.Models.{
  RowId, Time, Event, Thread, Post, Stimulus, StimulusState, pending, claimed, processing,
  completed, failed, cancelled, Turn,
}
use swarmboard.Sorting.{sort_by}
use swarmboard.Policies.{reversed}
use swarmboard.Tables.{Session, utc_now, get_thread}

-- A filter that is not given passes every row.
abbrev pub passes : Option RowId → Option RowId → Bool
passes none x = true
passes (some id) x = is_val x id

unfoldable pub list_events : ℕ → Option RowId → Option RowId → ℕ → Session (List Event)
unfolding keep_if sort_by
list_events after run thread limit = gets (λ w. take limit (
    sort_by (λ a b. ltb a.id b.id)
      (keep_if (λ e. ltb after e.id && (passes run e.run_id && passes thread e.thread_id))
        w.events)))

unfoldable pub list_posts : RowId → ℕ → ℕ → Session (List Post)
unfolding ◌>>=◌ keep_if sort_by get_thread
list_posts thread after limit = do
  _ ← get_thread thread
  gets (λ w. take limit (
      sort_by (λ a b. ltb a.sequence b.sequence)
        (keep_if (λ p. p.thread_id == thread && ltb after p.sequence) w.posts)))

-- What `thread_snapshot` returns: the thread, its last posts, and when they were read.
pub record Snapshot : Type 0 where
  pub thread : Thread
  pub posts : List Post
  pub captured_at : Time

unfoldable pub thread_snapshot : RowId → ℕ → Session Snapshot
unfolding ◌>>=◌ keep_if sort_by get_thread utc_now reversed
thread_snapshot id limit = do
  thread ← get_thread id
  latest ← gets (λ w.
      take limit
        (sort_by (λ a b. ltb b.sequence a.sequence) (keep_if (λ p. p.thread_id == id) w.posts)))
  now ← utc_now
  pure (record { thread = thread; posts = reversed latest; captured_at = now })

abbrev pub same_state : StimulusState → StimulusState → Bool
same_state pending pending = true
same_state claimed claimed = true
same_state processing processing = true
same_state completed completed = true
same_state failed failed = true
same_state cancelled cancelled = true
same_state _ _ = false

abbrev pub in_state : Option StimulusState → Stimulus → Bool
in_state none s = true
in_state (some x) s = same_state x s.state

unfoldable pub list_stimuli :
    Option RowId → Option RowId → Option StimulusState → ℕ → Session (List Stimulus)
unfolding keep_if sort_by
list_stimuli run thread state limit = gets (λ w. take limit (
    sort_by
      (λ a b.
        if ltb_ℤ b.priority a.priority
        then true
        else if ltb_ℤ a.priority b.priority
        then false
        else ltb a.created_at b.created_at)
      (keep_if (λ s. passes run s.run_id && (passes thread (some s.thread_id) && in_state state s))
        w.stimuli)))

unfoldable pub list_turns : Option RowId → Option RowId → ℕ → Session (List Turn)
unfolding keep_if sort_by
list_turns run thread limit = gets (λ w. take limit (
    sort_by (λ a b. ltb b.started_at a.started_at)
      (keep_if (λ t. passes run t.run_id && passes thread (some t.thread_id)) w.turns)))
