-- ===== src/Models/Enums.antt =====
-- models.py: the enumerations, stored as their string values, and the types of audit events.
use swarmboard.Prelude.{String, Bool, true, false}

pub data RunState : Type 0 where
  created running paused stopped completed emergency_stopped failed : RunState

-- `unknown` is any other string: the column is not constrained.
pub data ThreadStatus : Type 0 where
  active dormant closed : ThreadStatus
  unknown : String → ThreadStatus

pub data AuthorType : Type 0 where
  human agent system : AuthorType

pub data StimulusState : Type 0 where
  pending claimed processing completed failed cancelled : StimulusState

pub data StimulusKind : Type 0 where
  human_post agent_post mention unanswered_question idle_revisit new_evidence : StimulusKind
  manual_step recovery : StimulusKind

pub data TurnState : Type 0 where
  selected calling completed passed failed : TurnState

pub data TurnOutcome : Type 0 where
  executed passed rejected_by_policy invalid_output provider_failure : TurnOutcome

-- The words that `control_run` accepts; `other` is any other word.
pub data ControlAction : Type 0 where
  start resume pause step stop emergency_stop : ControlAction
  other : String → ControlAction

-- The `event_type` strings that repository.py writes. `run_control a` is "run." with the word of
-- `a`, `run_became s` "run." with the value of `s`, and so for threads and turns.
pub data EventType : Type 0 where
  agent_created agent_updated run_created : EventType
  run_control : ControlAction → EventType
  run_became : RunState → EventType
  thread_created : EventType
  thread_became : ThreadStatus → EventType
  post_created : EventType
  stimulus_created stimulus_claimed stimulus_processing stimulus_completed : EventType
  stimulus_failed stimulus_requeued stimulus_recovered stimulus_cancelled : EventType
  turn_selected turn_calling turn_recovered_failed : EventType
  turn_became : TurnState → EventType
  memory_created : EventType

-- `_TERMINAL_RUN_STATES`
abbrev pub is_terminal : RunState → Bool
is_terminal created = false
is_terminal running = false
is_terminal paused = false
is_terminal stopped = true
is_terminal completed = true
is_terminal emergency_stopped = true
is_terminal failed = true

abbrev pub is_running : RunState → Bool
is_running running = true
is_running _ = false

-- `state in {CREATED, PAUSED}`
abbrev pub is_startable : RunState → Bool
is_startable created = true
is_startable paused = true
is_startable _ = false

abbrev pub is_paused : RunState → Bool
is_paused paused = true
is_paused _ = false

abbrev pub is_closed : ThreadStatus → Bool
is_closed closed = true
is_closed _ = false

abbrev pub is_dormant : ThreadStatus → Bool
is_dormant dormant = true
is_dormant _ = false

abbrev pub is_human : AuthorType → Bool
is_human human = true
is_human _ = false

abbrev pub same_author : AuthorType → AuthorType → Bool
same_author human human = true
same_author agent agent = true
same_author system system = true
same_author _ _ = false

abbrev pub is_pending : StimulusState → Bool
is_pending pending = true
is_pending _ = false

-- `state in {CLAIMED, PROCESSING}`
abbrev pub is_leased : StimulusState → Bool
is_leased claimed = true
is_leased processing = true
is_leased _ = false

-- `state in {PENDING, CLAIMED, PROCESSING}`
abbrev pub is_live : StimulusState → Bool
is_live pending = true
is_live claimed = true
is_live processing = true
is_live _ = false

abbrev pub is_done : StimulusState → Bool
is_done completed = true
is_done _ = false

-- `state in {SELECTED, CALLING}`
abbrev pub is_unfinished : TurnState → Bool
is_unfinished selected = true
is_unfinished calling = true
is_unfinished _ = false

-- `state in [SELECTED, CALLING, COMPLETED, PASSED]`
abbrev pub is_kept : TurnState → Bool
is_kept failed = false
is_kept _ = true

abbrev pub is_post_created : EventType → Bool
is_post_created post_created = true
is_post_created _ = false
