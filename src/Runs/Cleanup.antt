-- ===== src/Runs/Cleanup.antt =====
-- repository.py, `cleanup_terminal_run_work`: leftover deliveries of ended runs are cancelled and
-- their unfinished turns fenced.
use swarmboard.Prelude.{
  ℕ, length, String, Bool, true, false, ◌&&◌, Option, none, some, List, [], ◌∷◌, keep_if, text_or,
  is_val,
}
use swarmboard.Json.{text, flag}
use swarmboard.Exec.{pure, ◌>>=◌, ◌>>◌, or_raise, for_each, skip, gets, not_found}
use swarmboard.RunPolicy.{policy_json, session_type_json}
use swarmboard.Models.{
  RowId, Time, Run, Stimulus, Turn, RunState, created, running, paused, stopped, completed,
  emergency_stopped, failed, StimulusState, pending, claimed, processing, cancelled, TurnState,
  selected, calling, passed, rejected_by_policy, Event, stimulus_cancelled, turn_became,
  is_terminal, is_live, is_unfinished,
}
use swarmboard.Tables.{
  World, Session, utc_now, run_by, get_run, put_stimulus, put_turn, add_event, event_of, id_json,
}

abbrev pub state_text : RunState → String
state_text created = "created"
state_text running = "running"
state_text paused = "paused"
state_text stopped = "stopped"
state_text completed = "completed"
state_text emergency_stopped = "emergency_stopped"
state_text failed = "failed"

abbrev pub stimulus_state_text : StimulusState → String
stimulus_state_text pending = "pending"
stimulus_state_text claimed = "claimed"
stimulus_state_text processing = "processing"
stimulus_state_text StimulusState.completed = "completed"
stimulus_state_text StimulusState.failed = "failed"
stimulus_state_text cancelled = "cancelled"

abbrev pub turn_state_text : TurnState → String
turn_state_text selected = "selected"
turn_state_text calling = "calling"
turn_state_text TurnState.completed = "completed"
turn_state_text passed = "passed"
turn_state_text TurnState.failed = "failed"

abbrev ended : Option Run → Bool
ended none = false
ended (some r) = is_terminal r.state

-- The row's run is in `select(Run.id).where(Run.state.in_(_TERMINAL_RUN_STATES))`.
unfoldable pub in_ended_run : List Run → Option RowId → Bool
in_ended_run runs none = false
in_ended_run runs (some id) = ended (run_by id runs)

-- ... and, when `run_id` is given, it is that run.
abbrev pub in_scope : Option RowId → Option RowId → Bool
in_scope none own = true
in_scope (some id) own = is_val own id

-- `run.stop_reason or f"run {run.state}"`
unfoldable pub end_reason : Run → String
end_reason run = text_or run.stop_reason (run_text run.state)
  where
    run_text : RunState → String
    run_text created = "run created"
    run_text running = "run running"
    run_text paused = "run paused"
    run_text stopped = "run stopped"
    run_text completed = "run completed"
    run_text emergency_stopped = "run emergency_stopped"
    run_text failed = "run failed"

unfoldable pub cancelled_row : Run → Time → Stimulus → Stimulus
unfolding end_reason
cancelled_row run now s = record s {
  state = cancelled;
  claim_token = none;
  claimed_at = none;
  completed_at = some now;
  updated_at = now;
  last_error = some (end_reason run);
}

unfoldable pub cancelled_event : Run → Stimulus → Event
unfolding end_reason
cancelled_event run s = record (event_of stimulus_cancelled) {
  run_id = some run.id;
  thread_id = some s.thread_id;
  post_id = s.source_post_id;
  agent_id = s.target_agent_id;
  stimulus_id = some s.id;
  payload =
      ("from", text (stimulus_state_text s.state))
      ∷ ("reason", text (end_reason run))
      ∷ ("terminal_state", text (state_text run.state))
      ∷ [];
}

unfoldable pub cancel_stimulus : Time → Stimulus → Session (Unit {0})
unfolding ◌>>=◌ get_run put_stimulus add_event cancelled_row cancelled_event
cancel_stimulus now s = do
  id ← or_raise s.run_id not_found
  run ← get_run id
  put_stimulus (cancelled_row run now s)
  add_event (cancelled_event run s)
  skip

unfoldable pub fenced_row : Run → Time → Turn → Turn
unfolding end_reason
fenced_row run now t = record t {
  state = TurnState.failed;
  claim_token = none;
  error = some (end_reason run);
  outcome = some rejected_by_policy;
  rejection_reason = some (end_reason run);
  completed_at = some now;
}

-- `run.state in {STOPPED, EMERGENCY_STOPPED}`
abbrev by_control : RunState → Bool
by_control stopped = true
by_control emergency_stopped = true
by_control _ = false

unfoldable pub fenced_event : Run → Turn → Event
unfolding end_reason
fenced_event run t = record (event_of (turn_became TurnState.failed)) {
  run_id = some run.id;
  thread_id = some t.thread_id;
  agent_id = some t.agent_id;
  stimulus_id = t.stimulus_id;
  payload =
      ("turn_id", id_json t.id)
      ∷ ("from", text (turn_state_text t.state))
      ∷ ("error", text (end_reason run))
      ∷ ("outcome", text "rejected_by_policy")
      ∷ ("rejection_reason", text (end_reason run))
      ∷ ("session_type", session_type_json t.session_type)
      ∷ ("policy_snapshot", policy_json t.policy_snapshot)
      ∷ ("terminal_state", text (state_text run.state))
      ∷ ("cancelled_by_run_control", flag (by_control run.state))
      ∷ [];
}

unfoldable pub fence_turn : Time → Turn → Session (Unit {0})
unfolding ◌>>=◌ get_run put_turn add_event fenced_row fenced_event
fence_turn now t = do
  id ← or_raise t.run_id not_found
  run ← get_run id
  put_turn (fenced_row run now t)
  add_event (fenced_event run t)
  skip

-- The rows that the two SELECTs return.
unfoldable pub leftover_stimuli : Option RowId → World → List Stimulus
unfolding in_ended_run keep_if
leftover_stimuli scope w =
    keep_if (λ s. in_ended_run w.runs s.run_id && in_scope scope s.run_id && is_live s.state)
      w.stimuli

unfoldable pub leftover_turns : Option RowId → World → List Turn
unfolding in_ended_run keep_if
leftover_turns scope w =
    keep_if (λ t. in_ended_run w.runs t.run_id && in_scope scope t.run_id && is_unfinished t.state)
      w.turns

-- The counts that `cleanup_terminal_run_work` returns.
pub record CleanupResult : Type 0 where
  pub stimuli_cancelled : ℕ
  pub turns_failed : ℕ

-- `cleanup_terminal_run_work`
unfoldable pub cleanup_terminal_run_work : Option RowId → Session CleanupResult
unfolding ◌>>=◌ utc_now leftover_stimuli leftover_turns cancel_stimulus fence_turn for_each
cleanup_terminal_run_work scope = do
  stimuli ← gets (leftover_stimuli scope)
  turns ← gets (leftover_turns scope)
  now ← utc_now
  for_each stimuli (cancel_stimulus now)
  for_each turns (fence_turn now)
  let result : CleanupResult = record {
    stimuli_cancelled = length stimuli;
    turns_failed = length turns;
  }
  pure result
