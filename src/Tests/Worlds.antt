-- ===== src/Tests/Worlds.antt =====
-- Small worlds, and text functions for them.
use swarmboard.Prelude.{str_eq, if◌then◌else◌, ◌+◌, true, false, none, some, [], ◌∷◌}
use swarmboard.Prelude.Int.{pos}
use swarmboard.Python.{Python}
use swarmboard.RunPolicy.{collaboration, production}
use swarmboard.Models.{
  Run, Limits, RunState, Thread, active, Stimulus, claimed, human_post, Turn, calling,
}
use swarmboard.Tables.{Tables, World}
use swarmboard.Runs.{new_run}

-- Text functions that suffice for texts without blanks.
abbrev pub plain : Python
plain = record {
  strip = λ s. s;
  lstrip_at = λ s. s;
  casefold = λ s. s;
  nocase = λ s. if str_eq s "Ada" then "ada" else s;
  clip = λ _ s. s;
  contains = λ _ _. false;
  id_text = λ _. "id";
}

abbrev pub empty_tables : Tables
empty_tables = record {
  agents = [];
  runs = [];
  threads = [];
  posts = [];
  events = [];
  stimuli = [];
  turns = [];
  memories = [];
}

abbrev pub on : Tables → World
on t = record { tables = t; clock = λ i. 1000 + i; reads = 0; uuid = λ i. 100 + i; drawn = 0 }

abbrev pub ten : Limits
ten = record {
  max_rounds = 10;
  max_posts = 10;
  max_tokens = 10;
  max_duration_seconds = 10;
  per_agent_quota = 10;
  per_thread_quota = 10;
  max_cascade_depth = 10;
}

abbrev pub run_in : RunState → Run
run_in s =
    new_run 7 s (pos 1) true
      (record { session_type = collaboration; policy = production; settings = [] }) ten

abbrev pub thread_one : Thread
thread_one = record {
  id = 1;
  run_id = some 7;
  title = "one";
  status = active;
  current_sequence = 0;
  summary = none;
  latest_activity_at = 0;
  dormant_at = none;
  closed_at = none;
  wake_reason = none;
}

-- A delivery under the lease of token 55.
abbrev pub leased_one : Stimulus
leased_one = record {
  id = 3;
  run_id = some 7;
  thread_id = 1;
  triggering_event_id = none;
  source_post_id = none;
  target_agent_id = none;
  kind = human_post;
  state = claimed;
  priority = pos 0;
  payload = [];
  cascade_depth = 0;
  not_before = 0;
  attempts = 1;
  max_attempts = 3;
  dedupe_key = none;
  claim_token = some 55;
  claimed_at = some 900;
  completed_at = none;
  last_error = none;
  created_at = 0;
  updated_at = 900;
}

-- The turn that answers it, while its model is called.
abbrev pub turn_one : Turn
turn_one = record {
  id = 9;
  run_id = some 7;
  thread_id = 1;
  agent_id = 2;
  stimulus_id = some 3;
  resulting_post_id = none;
  state = calling;
  idempotency_key = "t";
  claim_token = some 55;
  session_type = collaboration;
  policy_snapshot = production;
  outcome = none;
  rejection_reason = none;
  details = [];
  retry_history = [];
  raw_output = none;
  parsed_action = none;
  validated_action = none;
  error = none;
  started_at = 900;
  completed_at = none;
  latency_ms = none;
  input_tokens = 0;
  output_tokens = 0;
  total_tokens = 0;
}

abbrev pub board : RunState → World
board s = on (record empty_tables {
  runs = run_in s ∷ [];
  threads = thread_one ∷ [];
  stimuli = leased_one ∷ [];
  turns = turn_one ∷ [];
})
