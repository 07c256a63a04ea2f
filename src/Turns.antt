-- ===== src/Turns.antt =====
-- repository.py, the turns: selection, the model call, and the one terminal write.
pub mod Outcomes
pub mod Once
pub mod Counting
use swarmboard.Prelude.{
  ℕ, ◌+◌, String, Bool, true, false, not, ◌&&◌, Option, none, some, List, [], ◌∷◌, ◌++◌, ◌==◌, ltb,
  find, keep_if, is_some, is_val, or_else, text_or, str_eq, if◌then◌else◌,
}
use swarmboard.Json.{Json, Dict, null, text, get}
use swarmboard.Python.{Python}
use swarmboard.Exec.{
  ok, ◌>>=◌, ◌>>◌, pure, gets, raise_if, or_raise, skip, invalid_state, value_error,
}
use swarmboard.RunPolicy.{RunConfig, normalize_config, to_json, policy_json, session_type_json}
use swarmboard.Models.{
  RowId, Time, Turn, TurnState, selected, calling, passed, TurnOutcome, executed,
  rejected_by_policy, invalid_output, provider_failure, Event, EventType, turn_selected,
  turn_calling, turn_became, is_kept, is_unfinished,
}
use swarmboard.Tables.{
  World, Session, utc_now, new_uuid, get_agent, get_post, get_run, get_thread, get_turn, put_turn,
  insert_turn, add_event, event_of, opt_text, opt_num, id_json, num_json,
}
use swarmboard.Runs.{increment_run_counters}
use Outcomes.{infer_turn_outcome, outcome_text}

-- The arguments of `create_turn`; those that are only stored are in `details`.
pub record TurnArgs : Type 0 where
  pub thread_id : RowId
  pub agent_id : RowId
  pub run_id : Option RowId
  pub stimulus_id : Option RowId
  pub idempotency_key : Option String
  pub claim_token : Option RowId
  pub context_post_ids : Json
  pub scheduler_scores : Json
  pub selection_reason : Option String
  pub details : Dict

-- A turn of the same stimulus and agent that has not failed.
abbrev pub is_delivery : RowId → RowId → Turn → Bool
is_delivery stimulus agent t =
    is_val t.stimulus_id stimulus && t.agent_id == agent && is_kept t.state

-- ORDER BY started_at DESC, the first row
unfoldable pub latest : List Turn → Option Turn
latest [] = none
latest (t ∷ ts) = elim (latest ts) [
  | none ↦ some t
  | some u ↦ if ltb t.started_at u.started_at then some u else some t
]

unfoldable pub delivered_turn : Option RowId → RowId → List Turn → Option Turn
unfolding latest keep_if
delivered_turn none agent turns = none
delivered_turn (some stimulus) agent turns = latest (keep_if (is_delivery stimulus agent) turns)

unfoldable pub keyed_turn : Option String → List Turn → Option Turn
unfolding find
keyed_turn none turns = none
keyed_turn (some key) turns = find (λ t. str_eq t.idempotency_key key) turns

-- `normalize_config(self.get_run(run_id).config if run_id else None)`
unfoldable pub turn_config : Option RowId → Session RunConfig
unfolding ◌>>=◌ get_run
turn_config none = or_raise (normalize_config null) invalid_state
turn_config (some id) = do
  run ← get_run id
  or_raise (normalize_config (to_json run.config)) invalid_state

abbrev pub turn_row : TurnArgs → Option RowId → RunConfig → RowId → String → Time → Turn
turn_row a run_id config id key now = record {
  id = id;
  run_id = run_id;
  thread_id = a.thread_id;
  agent_id = a.agent_id;
  stimulus_id = a.stimulus_id;
  resulting_post_id = none;
  state = selected;
  idempotency_key = key;
  claim_token = a.claim_token;
  session_type = config.session_type;
  policy_snapshot = config.policy;
  outcome = none;
  rejection_reason = none;
  details =
      ("context_post_ids", a.context_post_ids)
      ∷ ("scheduler_scores", a.scheduler_scores)
      ∷ a.details;
  retry_history = [];
  raw_output = none;
  parsed_action = none;
  validated_action = none;
  error = none;
  started_at = now;
  completed_at = none;
  latency_ms = none;
  input_tokens = 0;
  output_tokens = 0;
  total_tokens = 0;
}

-- The audit columns that every event of a turn carries.
abbrev pub turn_event : EventType → Turn → Dict → Event
turn_event t turn payload = record (event_of t) {
  run_id = turn.run_id;
  thread_id = some turn.thread_id;
  agent_id = some turn.agent_id;
  stimulus_id = turn.stimulus_id;
  payload = payload;
}

abbrev first_of_two : Option RowId → Option RowId → Option RowId
first_of_two (some a) b = some a
first_of_two none b = b

unfoldable pub new_turn : Python → TurnArgs → Option RowId → Session Turn
unfolding ◌>>=◌ turn_config new_uuid utc_now insert_turn add_event
new_turn py a own_run = do
  let run_id = first_of_two a.run_id own_run
  config ← turn_config run_id
  key_id ← new_uuid
  let key = text_or a.idempotency_key (py.id_text key_id)
  id ← new_uuid
  now ← utc_now
  let turn = turn_row a run_id config id key now
  insert_turn turn
  add_event (
      turn_event turn_selected turn (
        ("turn_id", id_json id)
        ∷ ("context_post_ids", a.context_post_ids)
        ∷ ("scheduler_scores", a.scheduler_scores)
        ∷ ("selection_reason", opt_text a.selection_reason)
        ∷ ("session_type", session_type_json turn.session_type)
        ∷ ("policy_snapshot", policy_json turn.policy_snapshot)
        ∷ ("outcome", null)
        ∷ ("rejection_reason", null)
        ∷ []))
  pure turn

abbrev pub turn_or : Option Turn → Session Turn → Session Turn
turn_or (some t) m w = ok t w
turn_or none m w = m w

-- `create_turn`
unfoldable pub create_turn : Python → TurnArgs → Session Turn
unfolding ◌>>=◌ get_thread get_agent delivered_turn keyed_turn new_turn
create_turn py a = do
  thread ← get_thread a.thread_id
  get_agent a.agent_id
  delivered ← gets (λ w. delivered_turn a.stimulus_id a.agent_id w.turns)
  turn_or delivered (do
    keyed ← gets (λ w. keyed_turn a.idempotency_key w.turns)
    turn_or keyed (new_turn py a thread.run_id))

abbrev pub is_calling : TurnState → Bool
is_calling calling = true
is_calling _ = false

abbrev pub is_selected : TurnState → Bool
is_selected selected = true
is_selected _ = false

unfoldable pub start_call : Turn → Session Turn
unfolding ◌>>=◌ put_turn add_event
start_call turn = do
  raise_if (not (is_selected turn.state)) invalid_state
  let row = record turn { state = calling }
  put_turn row
  add_event (turn_event turn_calling row (("turn_id", id_json turn.id) ∷ []))
  pure row

-- `mark_turn_calling`
unfoldable pub mark_turn_calling : RowId → Session Turn
unfolding ◌>>=◌ get_turn start_call
mark_turn_calling id = do
  turn ← get_turn id
  if is_calling turn.state then pure turn else start_call turn

-- `append_turn_retry`
unfoldable pub append_turn_retry : RowId → Json → Session Turn
unfolding ◌>>=◌ get_turn put_turn
append_turn_retry id retry = do
  turn ← get_turn id
  let row = record turn { retry_history = turn.retry_history ++ retry ∷ [] }
  put_turn row
  pure row

-- The arguments of `finish_turn`.
pub record Finish : Type 0 where
  pub state : TurnState
  pub resulting_post_id : Option RowId
  pub raw_output : Option Json
  pub parsed_action : Option Json
  pub validated_action : Option Json
  pub error : Option String
  pub latency_ms : Option ℕ
  pub input_tokens : ℕ
  pub output_tokens : ℕ
  pub total_tokens : Option ℕ
  pub outcome : Option TurnOutcome
  pub rejection_reason : Option String

-- `error[:10_000] if error else None`
abbrev pub kept_error : Python → Option String → Option String
kept_error py none = none
kept_error py (some e) = if str_eq e "" then none else some (py.clip 10000 e)

abbrev pub is_success : TurnOutcome → Bool
is_success executed = true
is_success TurnOutcome.passed = true
is_success _ = false

abbrev pub kept_reason : Option String → TurnOutcome → Option String → Option String
kept_reason (some r) outcome error = some r
kept_reason none outcome error = if is_success outcome then none else error

unfoldable pub finished_row : Python → Turn → Finish → TurnOutcome → Time → Turn
finished_row py turn f outcome now = record turn {
  state = f.state;
  resulting_post_id = f.resulting_post_id;
  raw_output = f.raw_output;
  parsed_action = f.parsed_action;
  validated_action = f.validated_action;
  error = kept_error py f.error;
  outcome = some outcome;
  rejection_reason = kept_reason f.rejection_reason outcome (kept_error py f.error);
  latency_ms = f.latency_ms;
  input_tokens = f.input_tokens;
  output_tokens = f.output_tokens;
  total_tokens = or_else f.total_tokens (f.input_tokens + f.output_tokens);
  completed_at = some now;
}

unfoldable pub check_result : Option RowId → Session (Unit {0})
unfolding ◌>>=◌ get_post
check_result none = skip
check_result (some id) = do get_post id; skip

unfoldable pub count_turn : Option RowId → ℕ → Session (Unit {0})
unfolding ◌>>=◌ increment_run_counters
count_turn none tokens = skip
count_turn (some id) tokens = do increment_run_counters id 1 0 tokens 1; skip

abbrev pub finish_event : Turn → Finish → TurnOutcome → Turn → Event
finish_event turn f outcome row =
    record (turn_event (turn_became f.state) row (
      ("turn_id", id_json turn.id)
      ∷ ("latency_ms", opt_num f.latency_ms)
      ∷ ("input_tokens", num_json f.input_tokens)
      ∷ ("output_tokens", num_json f.output_tokens)
      ∷ ("total_tokens", num_json row.total_tokens)
      ∷ ("error", opt_text row.error)
      ∷ ("outcome", text (outcome_text outcome))
      ∷ ("rejection_reason", opt_text row.rejection_reason)
      ∷ ("session_type", session_type_json row.session_type)
      ∷ ("policy_snapshot", policy_json row.policy_snapshot)
      ∷ [])) { post_id = f.resulting_post_id }

-- The writes of `finish_turn`, for a turn that is not finished yet.
unfoldable pub close_turn : Python → Turn → Finish → TurnOutcome → Session Turn
unfolding ◌>>=◌ check_result utc_now finished_row put_turn add_event count_turn
close_turn py turn f outcome = do
  check_result f.resulting_post_id
  now ← utc_now
  let row = finished_row py turn f outcome now
  put_turn row
  add_event (finish_event turn f outcome row)
  count_turn row.run_id row.total_tokens
  pure row

abbrev pub given_or : Option TurnOutcome → Option TurnOutcome → Option TurnOutcome
given_or (some o) inferred = some o
given_or none inferred = inferred

-- `finish_turn`
unfoldable pub finish_turn : Python → RowId → Finish → Session Turn
unfolding ◌>>=◌ get_turn infer_turn_outcome close_turn
finish_turn py id f = do
  turn ← get_turn id
  raise_if (is_unfinished f.state) value_error
  outcome ← or_raise (given_or f.outcome (infer_turn_outcome py f.state f.error)) value_error
  if is_unfinished turn.state then close_turn py turn f outcome else pure turn
