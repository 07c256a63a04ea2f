-- ===== src/Deliveries.antt =====
-- repository.py, `add_stimulus`: durable deliveries with a dedupe key. Leases.antt has their leases.
use swarmboard.Prelude.{
  ℕ, String, Bool, false, not, Option, none, some, List, [], ◌∷◌, ◌==◌, find, or_else, str_eq,
}
use swarmboard.Prelude.Int.{ℤ}
use swarmboard.Json.{Dict, int, text}
use swarmboard.Exec.{ok, ◌>>=◌, ◌>>◌, pure, gets, raise_if, skip, value_error, integrity_error}
use swarmboard.Models.{
  RowId, Time, Stimulus, StimulusKind, human_post, agent_post, mention, unanswered_question,
  idle_revisit, new_evidence, manual_step, recovery, pending, Event, EventType, stimulus_created,
}
use swarmboard.Tables.{
  Session, utc_now, new_uuid, get_agent, get_event, get_post, get_thread, insert_stimulus,
  add_event, event_of, num_json, opt_num,
}
use swarmboard.Threads.{require_open_run}

abbrev pub kind_text : StimulusKind → String
kind_text human_post = "human_post"
kind_text agent_post = "agent_post"
kind_text mention = "mention"
kind_text unanswered_question = "unanswered_question"
kind_text idle_revisit = "idle_revisit"
kind_text new_evidence = "new_evidence"
kind_text manual_step = "manual_step"
kind_text recovery = "recovery"

-- The arguments of `add_stimulus`.
pub record StimulusArgs : Type 0 where
  pub thread_id : RowId
  pub kind : StimulusKind
  pub run_id : Option RowId
  pub triggering_event_id : Option ℕ
  pub source_post_id : Option RowId
  pub target_agent_id : Option RowId
  pub priority : ℤ
  pub payload : Dict
  pub cascade_depth : ℕ
  pub not_before : Option Time
  pub max_attempts : ℕ
  pub dedupe_key : Option String

abbrev pub has_dedupe : String → Stimulus → Bool
has_dedupe key s = elim s.dedupe_key [ none ↦ false | some k ↦ str_eq k key ]

abbrev pub by_dedupe : Option String → List Stimulus → Option Stimulus
by_dedupe none stimuli = none
by_dedupe (some key) stimuli = find (has_dedupe key) stimuli

-- The run of the new row: the thread's, unless the caller names one for a thread without a run.
unfoldable pub stimulus_run : Option RowId → Option RowId → Session (Option RowId)
unfolding ◌>>=◌
stimulus_run none own = pure own
stimulus_run (some id) none = pure (some id)
stimulus_run (some id) (some own) = do raise_if (not (id == own)) value_error; pure (some id)

unfoldable pub check_target : Option RowId → Session (Unit {0})
unfolding ◌>>=◌ get_agent
check_target none = skip
check_target (some id) = do get_agent id; skip

unfoldable pub check_source : Option RowId → RowId → Session (Unit {0})
unfolding ◌>>=◌ get_post
check_source none thread_id = skip
check_source (some id) thread_id = do
  post ← get_post id
  raise_if (not (post.thread_id == thread_id)) value_error

unfoldable pub check_trigger : Option ℕ → Session (Unit {0})
unfolding ◌>>=◌ get_event
check_trigger none = skip
check_trigger (some id) = do get_event id; skip

abbrev pub stimulus_row : StimulusArgs → Option RowId → RowId → Time → Time → Stimulus
stimulus_row a run_id id due now = record {
  id = id;
  run_id = run_id;
  thread_id = a.thread_id;
  triggering_event_id = a.triggering_event_id;
  source_post_id = a.source_post_id;
  target_agent_id = a.target_agent_id;
  kind = a.kind;
  state = pending;
  priority = a.priority;
  payload = a.payload;
  cascade_depth = a.cascade_depth;
  not_before = due;
  attempts = 0;
  max_attempts = a.max_attempts;
  dedupe_key = a.dedupe_key;
  claim_token = none;
  claimed_at = none;
  completed_at = none;
  last_error = none;
  created_at = now;
  updated_at = now;
}

-- The audit columns that every event of a stimulus carries.
abbrev pub stimulus_event : EventType → Stimulus → Dict → Event
stimulus_event t s payload = record (event_of t) {
  run_id = s.run_id;
  thread_id = some s.thread_id;
  post_id = s.source_post_id;
  agent_id = s.target_agent_id;
  stimulus_id = some s.id;
  payload = payload;
}

-- `CHECK (max_attempts > 0)` is the table's; `due` is `not_before or utc_now()`.
unfoldable pub new_stimulus : StimulusArgs → Option RowId → Session Stimulus
unfolding ◌>>=◌ utc_now new_uuid insert_stimulus add_event
new_stimulus a run_id = do
  now ← utc_now
  let due = or_else a.not_before now
  raise_if (a.max_attempts == 0) integrity_error
  id ← new_uuid
  created ← utc_now
  let row = stimulus_row a run_id id due created
  insert_stimulus row
  add_event (
      stimulus_event stimulus_created row (
        ("kind", text (kind_text a.kind))
        ∷ ("priority", int a.priority)
        ∷ ("cascade_depth", num_json a.cascade_depth)
        ∷ ("triggering_event_id", opt_num a.triggering_event_id)
        ∷ []))
  pure row

unfoldable pub deliver_stimulus : StimulusArgs → Session Stimulus
unfolding ◌>>=◌ get_thread stimulus_run require_open_run check_target check_source check_trigger
    new_stimulus
deliver_stimulus a = do
  thread ← get_thread a.thread_id
  run_id ← stimulus_run a.run_id thread.run_id
  require_open_run run_id
  check_target a.target_agent_id
  check_source a.source_post_id a.thread_id
  check_trigger a.triggering_event_id
  new_stimulus a run_id

abbrev pub row_or : Option Stimulus → Session Stimulus → Session Stimulus
row_or (some s) m w = ok s w
row_or none m w = m w

-- `add_stimulus`
unfoldable pub add_stimulus : StimulusArgs → Session Stimulus
unfolding ◌>>=◌ deliver_stimulus find
add_stimulus a = do
  existing ← gets (λ w. by_dedupe a.dedupe_key w.stimuli)
  row_or existing (deliver_stimulus a)
