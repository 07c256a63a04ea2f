-- ===== src/Scheduler/Config.antt =====
-- scheduler.py: the settings of the scheduler, its scores and its decisions.
use swarmboard.Prelude.{ℕ, String, Bool, true, false, Option, none, List, ◌==◌, str_eq, not, ◌&&◌}
use swarmboard.Prelude.Int.{ℤ, pos, negsuc}
use swarmboard.Json.{Json, null, flag, int, float, text, array, object, nil, end}
use swarmboard.Floats.{Float, Floats}

pub record SchedulerConfig : Type 0 where
  pub max_selected : ℕ
  pub recent_window : ℕ
  pub domination_window : ℕ
  pub ping_pong_limit : ℕ
  pub allow_consecutive_posts : Bool
  pub mention_weight : Float
  pub question_weight : Float
  pub expertise_weight : Float
  pub novelty_weight : Float
  pub recent_penalty : Float
  pub domination_penalty : Float
  pub role_injection_weight : Float
  pub jitter : Float
  pub role_injection_probability : Float
  pub minimum_score : Float
  pub consecutive_turn_cap : Option ℕ
  pub cooldowns : Bool
  pub dormancy : Bool
  pub ada_opportunity_multiplier : Float

abbrev pub default_scheduler : Floats → SchedulerConfig
default_scheduler fl = record {
  max_selected = 2;
  recent_window = 8;
  domination_window = 20;
  ping_pong_limit = 4;
  allow_consecutive_posts = false;
  mention_weight = fl.literal "8.0";
  question_weight = fl.literal "2.5";
  expertise_weight = fl.literal "3.0";
  novelty_weight = fl.literal "1.4";
  recent_penalty = fl.literal "1.1";
  domination_penalty = fl.literal "4.0";
  role_injection_weight = fl.literal "4.5";
  jitter = fl.literal "0.20";
  role_injection_probability = fl.literal "0.24";
  minimum_score = fl.literal "0.05";
  consecutive_turn_cap = none;
  cooldowns = true;
  dormancy = true;
  ada_opportunity_multiplier = fl.literal "1.0";
}

pub record CandidateScore : Type 0 where
  pub agent_id : String
  pub handle : String
  pub role : String
  pub score : Float
  pub eligible : Bool
  pub components : List (String × Float)
  pub reasons : List String
  pub selection_weight : Option Float

pub record SchedulingDecision : Type 0 where
  pub selected_agent_ids : List String
  pub candidates : List CandidateScore
  pub reason : String
  pub seed : ℕ
  pub wake_allowed : Bool
  pub injected_role : Option String
  pub forced : Bool
  pub forced_by : Option String
  pub override_cooldown : Bool

-- What scheduler.py calls: `_WORD_RE.finditer`, the regular expression of `_contains_mention` on a
-- body and a handle, SHA-256 in `_stable_seed`, `str` of a JSON value or a number, `math.ceil`,
-- `s.replace("_", "-")`, `float` of a JSON value (`none` is `TypeError` or `ValueError`), and `sum` of floats.
pub record SchedulerTools : Type 0 where
  pub find_words : String → List String
  pub has_mention : String → String → Bool
  pub digest : String → ℕ
  pub json_text : Json → String
  pub nat_text : ℕ → String
  pub int_text : ℤ → String
  pub dashed : String → String
  pub ceil_text : Float → String
  pub to_float : Json → Option Float
  pub sum : List Float → Float

-- `random.Random`: a state, a number in [0, 1), one in an interval, and a weighted choice of an
-- index, which raises `ValueError` (`none`) where the total of the weights is no positive number.
pub record RandomSource : Type 0 where
  pub seeded : ℕ → ℕ
  pub random : ℕ → Float × ℕ
  pub uniform : Float → Float → ℕ → Float
  pub choice : List Float → ℕ → Option (ℕ × ℕ)

-- `bool(value)` of a JSON value.
abbrev pub is_truthy : Json → Bool
is_truthy null = false
is_truthy (flag b) = b
is_truthy (int (pos n)) = not (n == 0)
is_truthy (int (negsuc n)) = true
is_truthy (float x) = not (x == 0) && not (x == 9223372036854775808)
is_truthy (text s) = not (str_eq s "")
is_truthy (array nil) = false
is_truthy (array _) = true
is_truthy (object end) = false
is_truthy (object _) = true
