-- ===== src/Models/Rows.antt =====
-- models.py: the rows. Columns that no operation of repository.py reads or sets, beyond storing
-- what the caller passes, are collected in a row's `details`.
use swarmboard.Prelude.{ℕ, String, Bool, Option, List}
use swarmboard.Prelude.Int.{ℤ}
use swarmboard.Floats.{Float}
use swarmboard.Json.{Dict, Json}
use swarmboard.RunPolicy.{RunConfig, Policy, SessionType}
use swarmboard.Models.Enums.{
  RunState, ThreadStatus, AuthorType, StimulusState, StimulusKind, TurnState, TurnOutcome,
  EventType,
}

abbrev pub RowId : Type 0
RowId = ℕ

abbrev pub Time : Type 0
Time = ℕ

pub record Agent : Type 0 where
  pub id : RowId
  pub handle : String
  pub persona : String
  pub role : String
  pub provider : String
  pub model : String
  pub settings : Dict
  pub permissions : Dict
  pub cooldown_seconds : ℕ
  pub enabled : Bool
  pub last_spoke_at : Option Time

-- The budgets that a run is created with.
pub record Limits : Type 0 where
  pub max_rounds : ℕ
  pub max_posts : ℕ
  pub max_tokens : ℕ
  pub max_duration_seconds : ℕ
  pub per_agent_quota : ℕ
  pub per_thread_quota : ℕ
  pub max_cascade_depth : ℕ

-- `step_once` is the config key of that name, which `control_run` sets.
pub record Run : Type 0 where
  pub id : RowId
  pub state : RunState
  pub seed : ℤ
  pub continuous : Bool
  pub config : RunConfig
  pub step_once : Option Bool
  pub limits : Limits
  pub rounds_used : ℕ
  pub posts_used : ℕ
  pub tokens_used : ℕ
  pub model_calls : ℕ
  pub started_at : Option Time
  pub paused_at : Option Time
  pub stopped_at : Option Time
  pub finished_at : Option Time
  pub heartbeat_at : Option Time
  pub stop_reason : Option String

pub record Thread : Type 0 where
  pub id : RowId
  pub run_id : Option RowId
  pub title : String
  pub status : ThreadStatus
  pub current_sequence : ℕ
  pub summary : Option String
  pub latest_activity_at : Time
  pub dormant_at : Option Time
  pub closed_at : Option Time
  pub wake_reason : Option String

pub record Post : Type 0 where
  pub id : RowId
  pub thread_id : RowId
  pub parent_post_id : Option RowId
  pub author_type : AuthorType
  pub author_agent_id : Option RowId
  pub author_handle : String
  pub body : String
  pub sequence : ℕ
  pub intent : Option String
  pub idempotency_key : Option String
  pub metadata : Dict
  pub created_at : Time

-- The repository reads back the entry "operation" of the payload, and no other.
pub record Event : Type 0 where
  pub id : ℕ
  pub event_type : EventType
  pub run_id : Option RowId
  pub thread_id : Option RowId
  pub post_id : Option RowId
  pub agent_id : Option RowId
  pub stimulus_id : Option RowId
  pub actor_type : String
  pub actor_id : Option String
  pub payload : Dict

pub record Stimulus : Type 0 where
  pub id : RowId
  pub run_id : Option RowId
  pub thread_id : RowId
  pub triggering_event_id : Option ℕ
  pub source_post_id : Option RowId
  pub target_agent_id : Option RowId
  pub kind : StimulusKind
  pub state : StimulusState
  pub priority : ℤ
  pub payload : Dict
  pub cascade_depth : ℕ
  pub not_before : Time
  pub attempts : ℕ
  pub max_attempts : ℕ
  pub dedupe_key : Option String
  pub claim_token : Option RowId
  pub claimed_at : Option Time
  pub completed_at : Option Time
  pub last_error : Option String
  pub created_at : Time
  pub updated_at : Time

pub record Turn : Type 0 where
  pub id : RowId
  pub run_id : Option RowId
  pub thread_id : RowId
  pub agent_id : RowId
  pub stimulus_id : Option RowId
  pub resulting_post_id : Option RowId
  pub state : TurnState
  pub idempotency_key : String
  pub claim_token : Option RowId
  pub session_type : SessionType
  pub policy_snapshot : Policy
  pub outcome : Option TurnOutcome
  pub rejection_reason : Option String
  pub details : Dict
  pub retry_history : List Json
  pub raw_output : Option Json
  pub parsed_action : Option Json
  pub validated_action : Option Json
  pub error : Option String
  pub started_at : Time
  pub completed_at : Option Time
  pub latency_ms : Option ℕ
  pub input_tokens : ℕ
  pub output_tokens : ℕ
  pub total_tokens : ℕ

pub record Memory : Type 0 where
  pub id : RowId
  pub run_id : Option RowId
  pub thread_id : Option RowId
  pub agent_id : Option RowId
  pub claim : String
  pub source_post_ids : List RowId
  pub tags : List String
  pub confidence : Float
  pub active : Bool
