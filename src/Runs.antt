-- ===== src/Runs.antt =====
-- repository.py, the runs: creation, control, state changes, counters and budgets.
pub mod Cleanup
pub mod Cancelled
pub mod Control
pub mod Budget
use swarmboard.Prelude.{
  ℕ, ◌+◌, ◌*◌, String, Bool, true, false, not, Option, none, some, [], ◌∷◌, ◌++◌, leb, is_some,
  or_else, text_or, if◌then◌else◌,
}
use swarmboard.Prelude.Int.{ℤ}
use swarmboard.Json.{Json, null, flag, int, text, object, to_fields}
use swarmboard.Exec.{
  Error, ◌>>=◌, ◌>>◌, pure, throw, raise_if, or_raise, when, skip, invalid_state, value_error,
}
use swarmboard.RunPolicy.{
  RunConfig, Policy, SessionType, normalize_config, policy_json, session_type_json,
}
use swarmboard.Models.{
  RowId, Time, Run, Limits, RunState, created, running, paused, stopped, completed,
  emergency_stopped, failed, ControlAction, start, resume, pause, step, stop, emergency_stop, other,
  run_created, run_control, run_became, is_terminal, is_startable, is_running, is_paused,
}
use swarmboard.Tables.{
  World, Session, utc_now, new_uuid, get_run, put_run, insert_run, add_event, event_of, opt_text,
}
use Cleanup.{cleanup_terminal_run_work, state_text}

-- A new row, with its column defaults.
abbrev pub new_run : RowId → RunState → ℤ → Bool → RunConfig → Limits → Run
new_run id state seed continuous config limits = record {
  id = id;
  state = state;
  seed = seed;
  continuous = continuous;
  config = config;
  step_once = none;
  limits = limits;
  rounds_used = 0;
  posts_used = 0;
  tokens_used = 0;
  model_calls = 0;
  started_at = none;
  paused_at = none;
  stopped_at = none;
  finished_at = none;
  heartbeat_at = none;
  stop_reason = none;
}

-- `create_run`
unfoldable pub create_run : ℤ → Bool → Json → Limits → RunState → Session Run
unfolding ◌>>=◌ new_uuid insert_run add_event
create_run seed continuous config limits state = do
  normalized ← or_raise (normalize_config config) invalid_state
  id ← new_uuid
  let run = new_run id state seed continuous normalized limits
  insert_run run
  add_event (record (event_of run_created) {
    run_id = some id;
    actor_type = "human";
    payload =
        ("seed", int seed)
        ∷ ("continuous", flag continuous)
        ∷ ("session_type", session_type_json normalized.session_type)
        ∷ ("policy", policy_json normalized.policy)
        ∷ [];
  })
  pure run

-- The row after an accepted control action, or the exception.
unfoldable pub controlled : Run → ControlAction → Option String → Time → Option Run
controlled run start reason now =
    if is_startable run.state
    then some (record run {
      state = running;
      started_at = some (or_else run.started_at now);
      paused_at = none;
      step_once = some false;
    })
    else none
controlled run resume reason now =
    if is_startable run.state
    then some (record run {
      state = running;
      started_at = some (or_else run.started_at now);
      paused_at = none;
      step_once = some false;
    })
    else none
controlled run pause reason now =
    if is_running run.state
    then some (record run { state = paused; paused_at = some now })
    else none
controlled run step reason now =
    if is_startable run.state
    then some (record run {
      state = running;
      continuous = false;
      started_at = some (or_else run.started_at now);
      step_once = some true;
    })
    else none
controlled run stop reason now = some (record run {
  state = stopped;
  stopped_at = some now;
  finished_at = some now;
  stop_reason = reason;
})
controlled run emergency_stop reason now = some (record run {
  state = emergency_stopped;
  stopped_at = some now;
  finished_at = some now;
  stop_reason = some (text_or reason "emergency stop");
})
controlled run (other word) reason now = none

-- An unknown action raises `ValueError`, a refused one `InvalidStateError`.
abbrev pub refusal : ControlAction → Error
refusal (other word) = value_error
refusal _ = invalid_state

-- `control_run`, for an action that has been lowered and stripped.
unfoldable pub control_run : RowId → ControlAction → Option String → Session Run
unfolding ◌>>=◌ get_run utc_now controlled put_run add_event
control_run id action reason = do
  run ← get_run id
  now ← utc_now
  raise_if (is_terminal run.state) invalid_state
  next ← or_raise (controlled run action reason now) (refusal action)
  let saved = record next { heartbeat_at = some now }
  put_run saved
  add_event (record (event_of (run_control action)) {
    run_id = some id;
    actor_type = "human";
    payload = ("state", text (state_text saved.state)) ∷ ("reason", opt_text reason) ∷ [];
  })
  when (is_terminal saved.state) (cleanup_terminal_run_work (some id) >> skip)
  pure saved

-- The row that `set_run_state` writes.
unfoldable pub with_state : Run → RunState → Option String → Time → Run
with_state run state reason now =
    if is_terminal state
    then record run { state = state; finished_at = some now; stop_reason = reason }
    else if is_paused state
    then record run { state = state; paused_at = some now }
    else record run { state = state }

-- Every caller passes one of the seven states.
unfoldable pub set_run_state : RowId → RunState → Option String → String → Session Run
unfolding ◌>>=◌ get_run utc_now with_state put_run add_event
set_run_state id state reason actor = do
  run ← get_run id
  now ← utc_now
  let saved = with_state run state reason now
  put_run saved
  add_event (record (event_of (run_became state)) {
    run_id = some id;
    actor_type = actor;
    payload = ("state", text (state_text state)) ∷ ("reason", opt_text reason) ∷ [];
  })
  when (is_terminal state) (cleanup_terminal_run_work (some id) >> skip)
  pure saved

-- `increment_run_counters`: one UPDATE. Virtual time is not modelled.
unfoldable pub increment_run_counters : RowId → ℕ → ℕ → ℕ → ℕ → Session Run
unfolding ◌>>=◌ get_run utc_now put_run
increment_run_counters id rounds posts tokens calls = do
  now ← utc_now
  run ← get_run id
  let saved = record run {
    rounds_used = run.rounds_used + rounds;
    posts_used = run.posts_used + posts;
    tokens_used = run.tokens_used + tokens;
    model_calls = run.model_calls + calls;
    heartbeat_at = some now;
  }
  put_run saved
  pure saved

-- `heartbeat_run`
unfoldable pub heartbeat_run : RowId → Option Time → Session Run
unfolding ◌>>=◌ get_run utc_now put_run
heartbeat_run id at = do
  run ← get_run id
  now ← utc_now
  let saved = record run { heartbeat_at = some (or_else at now) }
  put_run saved
  pure saved

-- The reasons that `run_budget_exhaustion` returns.
pub data Exhaustion : Type 0 where
  rounds_reached posts_reached tokens_reached duration_reached : Exhaustion

-- `elapsed >= max_duration_seconds`, in microseconds.
abbrev pub overdue : Option Time → ℕ → Time → Bool
overdue none seconds now = false
overdue (some started) seconds now = leb (started + seconds * 1000000) now

unfoldable pub run_budget_exhaustion : Run → Time → Option Exhaustion
run_budget_exhaustion run now =
    if leb run.limits.max_rounds run.rounds_used
    then some rounds_reached
    else if leb run.limits.max_posts run.posts_used
    then some posts_reached
    else if leb run.limits.max_tokens run.tokens_used
    then some tokens_reached
    else if overdue run.started_at run.limits.max_duration_seconds now
    then some duration_reached
    else none
