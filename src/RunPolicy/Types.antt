-- ===== src/RunPolicy/Types.antt =====
-- run_policy.py: policies and their presets, and when two policies have the same rules.
use swarmboard.Prelude.{ℕ, Bool, true, false, ◌&&◌, not, Option, none, some, ◌==◌}
use swarmboard.Json.{Dict}

pub data Profile : Type 0 where
  production_profile permissive_profile custom_profile : Profile

pub data SchemaMode : Type 0 where
  strict capture : SchemaMode

pub data SessionType : Type 0 where
  collaboration research : SessionType

-- A nonnegative number of seconds: an int, or a finite float.
pub data Seconds : Type 0 where
  whole : ℕ → Seconds
  real : ℕ → Seconds

-- A validated policy dict: its keys are those of `PRODUCTION`.
pub record Policy : Type 0 where
  pub profile : Profile
  pub dedup : Bool
  pub loop_prevention : Bool
  pub cooldowns : Bool
  pub cooldown_seconds : Option Seconds
  pub dormancy : Bool
  pub consecutive_turn_cap : Option ℕ
  pub schema_mode : SchemaMode

-- A normal run config: `session_type`, `policy`, and the run settings that normalization keeps.
pub record RunConfig : Type 0 where
  pub session_type : SessionType
  pub policy : Policy
  pub settings : Dict

unfoldable pub production : Policy
production = record {
  profile = production_profile;
  dedup = true;
  loop_prevention = true;
  cooldowns = true;
  cooldown_seconds = none;
  dormancy = true;
  consecutive_turn_cap = some 1;
  schema_mode = strict;
}

unfoldable pub permissive : Policy
permissive = record {
  profile = permissive_profile;
  dedup = false;
  loop_prevention = false;
  cooldowns = false;
  cooldown_seconds = none;
  dormancy = false;
  consecutive_turn_cap = none;
  schema_mode = capture;
}

-- `PRESETS.get(profile, PRODUCTION)`
unfoldable pub preset : Profile → Policy
unfolding production permissive
preset production_profile = production
preset permissive_profile = permissive
preset custom_profile = production

abbrev pub same_bool : Bool → Bool → Bool
same_bool true b = b
same_bool false b = not b

abbrev pub same_seconds : Option Seconds → Option Seconds → Bool
same_seconds none none = true
same_seconds (some (whole a)) (some (whole b)) = a == b
same_seconds (some (real a)) (some (real b)) = a == b
same_seconds _ _ = false

abbrev pub same_cap : Option ℕ → Option ℕ → Bool
same_cap none none = true
same_cap (some a) (some b) = a == b
same_cap _ _ = false

abbrev pub same_mode : SchemaMode → SchemaMode → Bool
same_mode strict strict = true
same_mode capture capture = true
same_mode _ _ = false

-- all(policy[key] == baseline[key] for key in policy if key != "profile")
unfoldable pub same_rules : Policy → Policy → Bool
same_rules p q =
    same_bool p.dedup q.dedup
    && same_bool p.loop_prevention q.loop_prevention
    && same_bool p.cooldowns q.cooldowns
    && same_seconds p.cooldown_seconds q.cooldown_seconds
    && same_bool p.dormancy q.dormancy
    && same_cap p.consecutive_turn_cap q.consecutive_turn_cap
    && same_mode p.schema_mode q.schema_mode

abbrev pub is_profile : Profile → Profile → Bool
is_profile production_profile production_profile = true
is_profile permissive_profile permissive_profile = true
is_profile custom_profile custom_profile = true
is_profile _ _ = false
