-- ===== src/Tests/Agents.antt =====
-- Two agents, their posts, and arithmetic for them.
use swarmboard.Prelude.{
  ℕ, ◌+◌, ◌-◌, ◌*◌, ◌/◌, String, true, false, none, some, List, [], ◌∷◌, ltb, leb, str_eq,
  if◌then◌else◌,
}
use swarmboard.Floats.{Floats}
use swarmboard.Python.{Python}
use swarmboard.RunPolicy.{whole}
use swarmboard.Models.{RowId, Post, agent}
use swarmboard.Actions.{AgentAction, reply, clarify}
use swarmboard.Policies.{AgentView, TextTools}
use swarmboard.Scheduler.{RandomSource, SchedulerTools}
use swarmboard.Tests.Worlds.{plain}

-- Whole numbers: every literal but zero is 1.
abbrev pub whole_numbers : Floats
whole_numbers = record {
  literal = λ s. if str_eq s "0.0" then 0 else 1;
  of_nat = λ n. n;
  negate = λ x. 0;
  plus = λ a b. a + b;
  minus = λ a b. a - b;
  times = λ a b. a * b;
  divide = λ a b. a / b;
  below = ltb;
  at_most = leb;
  round = λ d x. x;
}

abbrev pub short_texts : TextTools
short_texts = record {
  nfkc = λ s. s;
  join_spaces = λ s. s;
  find_words = λ s. s ∷ [];
  sha256 = λ s. s;
  sequence_ratio = λ a b. 0;
}

-- Ids are told apart by their texts.
abbrev pub named : Python
named = record plain { id_text = λ n. if leb n 1 then "one" else "two" }

abbrev pub view : RowId → String → AgentView
view id handle = record {
  id = id;
  handle = handle;
  role = "critic";
  persona = "";
  enabled = true;
  settings = [];
  permissions = [];
  cooldown_seconds = whole 0;
  last_spoke_at = none;
}

abbrev pub both_agents : List AgentView
both_agents = view 1 "ada" ∷ view 2 "bo" ∷ []

abbrev pub post_by : RowId → ℕ → Post
post_by id sequence = record {
  id = sequence;
  thread_id = 1;
  parent_post_id = none;
  author_type = agent;
  author_agent_id = some id;
  author_handle = "x";
  body = "hello";
  sequence = sequence;
  intent = none;
  idempotency_key = none;
  metadata = [];
  created_at = sequence;
}

abbrev pub answer_yes : AgentAction
answer_yes = record {
  action = reply;
  parent_post_id = none;
  title = none;
  body = some "yes";
  intent = some clarify;
}

abbrev pub first_choice : RandomSource
first_choice = record {
  seeded = λ n. n;
  random = λ n. (n, n + 1);
  uniform = λ a b n. a;
  choice = λ ws n. some (0, n + 1);
}

abbrev pub no_words : SchedulerTools
no_words = record {
  find_words = λ s. [];
  has_mention = λ b h. false;
  digest = λ s. 5;
  json_text = λ j. "";
  nat_text = λ n. "1";
  int_text = λ n. "1";
  dashed = λ s. s;
  ceil_text = λ x. "1";
  to_float = λ j. none;
  sum = λ xs. 3;
}
