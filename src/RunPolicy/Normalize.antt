-- ===== src/RunPolicy/Normalize.antt =====
-- run_policy.py: `normalize_config`, and the stored form of a normal config.
use swarmboard.Prelude.{
  ltb, ◌+◌, ◌^◌, ℕ, String, Bool, true, false, ◌&&◌, ◌||◌, not, Option, none, some, [], ◌∷◌, str_eq,
  ◌==◌, if◌then◌else◌,
}
use swarmboard.Prelude.Int.{pos}
use swarmboard.Json.{
  Json, null, flag, int, float, text, object, Dict, entries, to_fields, get, without, is_finite,
  is_negative,
}
use swarmboard.Optional.{◌>>=◌}
use swarmboard.RunPolicy.Types.{
  Profile, production_profile, permissive_profile, custom_profile, SchemaMode, strict, capture,
  SessionType, collaboration, research, Seconds, whole, real, Policy, RunConfig, production,
  permissive, preset, same_rules, is_profile,
}

-- `session_type not in ("collaboration", "research")`
unfoldable pub read_session_type : Option Json → Option SessionType
read_session_type none = some collaboration
read_session_type (some (text s)) =
    if str_eq s "collaboration"
    then some collaboration
    else if str_eq s "research"
    then some research
    else none
read_session_type (some _) = none

unfoldable pub read_profile : Option Json → Option Profile
read_profile none = some production_profile
read_profile (some (text s)) =
    if str_eq s "production"
    then some production_profile
    else if str_eq s "permissive"
    then some permissive_profile
    else if str_eq s "custom"
    then some custom_profile
    else none
read_profile (some _) = none

-- `type(policy[key]) is not bool`; a missing key takes the baseline's value.
unfoldable pub read_bool : Bool → Option Json → Option Bool
read_bool base none = some base
read_bool base (some (flag b)) = some b
read_bool base (some _) = none

-- Does `math.isfinite` take the int? From 2 ^ 1024 - 2 ^ 970 on it raises `OverflowError`.
unfoldable pub fits_float : ℕ → Bool
fits_float n = ltb (n + 2 ^ 970) (2 ^ 1024)

-- `cooldown_seconds`: null, a nonnegative int, or a finite nonnegative float; an int beyond the
-- floats raises.
unfoldable pub read_seconds : Option Seconds → Option Json → Option (Option Seconds)
unfolding is_finite is_negative
read_seconds base none = some base
read_seconds base (some null) = some none
read_seconds base (some (int (pos n))) = if fits_float n then some (some (whole n)) else none
read_seconds base (some (float bits)) =
    if is_finite bits && not (is_negative bits) then some (some (real bits)) else none
read_seconds base (some _) = none

-- `consecutive_turn_cap`: null or a positive int.
unfoldable pub read_cap : Option ℕ → Option Json → Option (Option ℕ)
read_cap base none = some base
read_cap base (some null) = some none
read_cap base (some (int (pos n))) = if n == 0 then none else some (some n)
read_cap base (some _) = none

unfoldable pub read_schema_mode : SchemaMode → Option Json → Option SchemaMode
read_schema_mode base none = some base
read_schema_mode base (some (text s)) =
    if str_eq s "strict" then some strict else if str_eq s "capture" then some capture else none
read_schema_mode base (some _) = none

abbrev pub is_policy_key : String → Bool
is_policy_key k =
    str_eq k "profile"
    || str_eq k "dedup"
    || str_eq k "loop_prevention"
    || str_eq k "cooldowns"
    || str_eq k "cooldown_seconds"
    || str_eq k "dormancy"
    || str_eq k "consecutive_turn_cap"
    || str_eq k "schema_mode"

-- `set(supplied) - set(PRODUCTION)` is empty
unfoldable pub known_keys : Dict → Bool
known_keys [] = true
known_keys ((k, v) ∷ d) = is_policy_key k && known_keys d

-- `profile == "custom" or any(policy[key] != baseline[key] ...)`
unfoldable pub settle_profile : Profile → Policy → Policy
unfolding same_rules preset production permissive
settle_profile profile p =
    if is_profile profile custom_profile || not (same_rules p (preset profile))
    then record p { profile = custom_profile }
    else record p { profile = profile }

-- `{**baseline, **supplied}`, its profile settled and each value checked.
unfoldable pub read_known : Dict → Option Policy
unfolding ◌>>=◌ read_profile read_bool read_seconds read_cap read_schema_mode settle_profile get
    preset
read_known supplied = do
  profile ← read_profile (get "profile" supplied)
  dedup ← read_bool (preset profile).dedup (get "dedup" supplied)
  loops ← read_bool (preset profile).loop_prevention (get "loop_prevention" supplied)
  cooldowns ← read_bool (preset profile).cooldowns (get "cooldowns" supplied)
  dormancy ← read_bool (preset profile).dormancy (get "dormancy" supplied)
  seconds ← read_seconds (preset profile).cooldown_seconds (get "cooldown_seconds" supplied)
  cap ← read_cap (preset profile).consecutive_turn_cap (get "consecutive_turn_cap" supplied)
  mode ← read_schema_mode (preset profile).schema_mode (get "schema_mode" supplied)
  some (
      settle_profile profile (record {
        profile = profile;
        dedup = dedup;
        loop_prevention = loops;
        cooldowns = cooldowns;
        cooldown_seconds = seconds;
        dormancy = dormancy;
        consecutive_turn_cap = cap;
        schema_mode = mode;
      }))

-- A policy object, whose keys must be those of `PRODUCTION`.
unfoldable pub read_object : Dict → Option Policy
unfolding known_keys read_known
read_object supplied = if known_keys supplied then read_known supplied else none

-- A preset's name, or an object.
unfoldable pub read_policy : Option Json → Option Policy
unfolding read_object production permissive entries
read_policy none = some production
read_policy (some (text s)) =
    if str_eq s "production"
    then some production
    else if str_eq s "permissive"
    then some permissive
    else none
read_policy (some (object fs)) = read_object (entries fs)
read_policy (some _) = none

-- `policy == PRODUCTION`
unfoldable pub is_production : Policy → Bool
unfolding same_rules production
is_production p = is_profile p.profile production_profile && same_rules p production

unfoldable pub check_fence : SessionType → Policy → Bool
unfolding is_production
check_fence collaboration p = is_production p
check_fence research p = true

-- `normalize_config`; `none` is `ValueError`.
unfoldable pub normalize_entries : Dict → Option RunConfig
unfolding ◌>>=◌ read_session_type read_policy check_fence get without
normalize_entries d = do
  session_type ← read_session_type (get "session_type" d)
  policy ← read_policy (get "policy" d)
  if check_fence session_type policy
      then some (record {
        session_type = session_type;
        policy = policy;
        settings = without "policy" (without "session_type" d);
      })
      else none

unfoldable pub normalize_config : Json → Option RunConfig
unfolding normalize_entries entries
normalize_config null = normalize_entries []
normalize_config (object fs) = normalize_entries (entries fs)
normalize_config _ = none

abbrev pub profile_name : Profile → String
profile_name production_profile = "production"
profile_name permissive_profile = "permissive"
profile_name custom_profile = "custom"

abbrev pub mode_name : SchemaMode → String
mode_name strict = "strict"
mode_name capture = "capture"

abbrev pub session_type_name : SessionType → String
session_type_name collaboration = "collaboration"
session_type_name research = "research"

abbrev pub seconds_json : Option Seconds → Json
seconds_json none = null
seconds_json (some (whole n)) = int (pos n)
seconds_json (some (real bits)) = float bits

abbrev pub cap_json : Option ℕ → Json
cap_json none = null
cap_json (some n) = int (pos n)

-- The dict that is stored for a policy.
unfoldable pub policy_dict : Policy → Dict
policy_dict p =
    ("profile", text (profile_name p.profile))
    ∷ ("dedup", flag p.dedup)
    ∷ ("loop_prevention", flag p.loop_prevention)
    ∷ ("cooldowns", flag p.cooldowns)
    ∷ ("cooldown_seconds", seconds_json p.cooldown_seconds)
    ∷ ("dormancy", flag p.dormancy)
    ∷ ("consecutive_turn_cap", cap_json p.consecutive_turn_cap)
    ∷ ("schema_mode", text (mode_name p.schema_mode))
    ∷ []

unfoldable pub policy_json : Policy → Json
unfolding policy_dict to_fields
policy_json p = object (to_fields (policy_dict p))

unfoldable pub session_type_json : SessionType → Json
session_type_json t = text (session_type_name t)

-- The config that is stored in `Run.config`.
unfoldable pub to_json : RunConfig → Json
unfolding policy_dict to_fields
to_json c = object (
    to_fields (
      ("session_type", text (session_type_name c.session_type))
      ∷ ("policy", object (to_fields (policy_dict c.policy)))
      ∷ c.settings))

unfoldable pub is_research : RunConfig → Bool
is_research c = elim c.session_type [ collaboration ↦ false | research ↦ true ]
