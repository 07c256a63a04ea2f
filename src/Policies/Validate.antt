-- ===== src/Policies/Validate.antt =====
-- policies.py: `ActionPolicy.validate`, one early return after the other.
use Prim.Native.String.{count}
use swarmboard.Prelude.{
  ℕ, min, String, Bool, true, false, ◌&&◌, not, Option, none, some, List, [], ◌∷◌, keep_if, any_of,
  or_else, is_some, str_eq, ◌==◌, ltb, if◌then◌else◌,
}
use swarmboard.Json.{Json, flag, float, text, Dict, get}
use swarmboard.Floats.{Float, Floats, max_of}
use swarmboard.Python.{Python}
use swarmboard.Actions.{AgentAction, is_pass, is_new_thread}
use swarmboard.RunPolicy.{Seconds, whole, real}
use swarmboard.Models.{RowId, Time, Post, Thread, is_closed}
use swarmboard.Policies.Config.{
  PolicyConfig, PolicyDecision, TextTools, member, normalize_text, action_fingerprint,
  text_similarity,
}
use swarmboard.Policies.Streaks.{
  last, identity, is_text, violates_consecutive_cap, violates_ping_pong,
}

-- An agent as the policies see it: a row, or the view that `adapt_agent` makes of one.
pub record AgentView : Type 0 where
  pub id : RowId
  pub handle : String
  pub role : String
  pub persona : String
  pub enabled : Bool
  pub settings : Dict
  pub permissions : Dict
  pub cooldown_seconds : Seconds
  pub last_spoke_at : Option Time

-- `permissions.get(key, permissions.get(older, True)) is False`
abbrev pub is_false : Option Json → Bool
is_false (some (flag false)) = true
is_false _ = false

unfoldable pub denies : Dict → String → String → Bool
unfolding get
denies permissions key older = elim (get key permissions) [
  | some v ↦ is_false (some v)
  | none ↦ is_false (get older permissions)
]

abbrev pub thread_closed : Option Thread → Bool
thread_closed none = false
thread_closed (some t) = is_closed t.status

-- An early return: its reason and its metadata.
abbrev pub Refusal : Type 0
Refusal = String × Dict

-- `if test: return PolicyDecision(False, None, reason, fingerprint)`, one after the other.
unfoldable pub first_refusal : List (Bool × String) → Option Refusal
first_refusal [] = none
first_refusal ((test, reason) ∷ checks) = if test then some (reason, []) else first_refusal checks

-- What to do when the first check does not return.
infixr 3 ◌or_check◌
abbrev pub ◌or_check◌ : Option Refusal → Option Refusal → Option Refusal
some r or_check rest = some r
none or_check rest = rest

module _ (fl : Floats) where
  -- `max(0.0, float(seconds))`, of a validated number of seconds.
  abbrev pub seconds_of : Seconds → Float
  seconds_of (whole n) = max_of fl (fl.literal "0.0") (fl.of_nat n)
  seconds_of (real x) = max_of fl (fl.literal "0.0") x

  -- `(later - earlier).total_seconds()`
  abbrev pub elapsed : Time → Time → Float
  elapsed earlier later =
      fl.divide (fl.minus (fl.of_nat later) (fl.of_nat earlier)) (fl.literal "1000000.0")

  abbrev pub is_positive : Float → Bool
  is_positive x = fl.below (fl.literal "0.0") x

  -- The cooldown is truthy, and less than it has gone by.
  unfoldable pub is_cooling : Seconds → Option Time → Time → Bool
  is_cooling seconds none now = false
  is_cooling seconds (some spoke) now =
      is_positive (seconds_of seconds) && fl.below (elapsed spoke now) (seconds_of seconds)

-- `posts[-1]`
unfoldable pub newest : List Post → Option Post
newest [] = none
newest (post ∷ []) = some post
newest (post ∷ next ∷ posts) = newest (next ∷ posts)

abbrev pub title_too_long : ℕ → Option String → Bool
title_too_long n none = false
title_too_long n (some t) = ltb n (count t)

-- `list(posts)[-lookback:]`, which is the whole list for a lookback of 0.
abbrev pub looked_back : ℕ → List Post → List Post
looked_back n posts = if n == 0 then posts else last n posts

module _ (py : Python) where
  abbrev pub thread_text : Option Thread → Option String
  thread_text none = none
  thread_text (some t) = some (py.id_text t.id)

  abbrev pub is_by : Option Post → String → Bool
  unfolding identity
  is_by none agent_id = false
  is_by (some post) agent_id = is_text (identity py post) agent_id

  abbrev pub with_id : String → Post → Bool
  with_id id post = str_eq (py.id_text post.id) id

  -- `post_by_id.get(id)`: of posts with one id, the last counts.
  unfoldable pub parent_of : String → List Post → Option Post
  unfolding newest keep_if
  parent_of id posts = newest (keep_if (with_id id) posts)

module _ (py : Python) (tools : TextTools) (fl : Floats) (config : PolicyConfig) where
  -- A post that says the same, or nearly.
  unfoldable pub repeated : String → List Post → Option Refusal
  unfolding normalize_text text_similarity
  repeated normalized [] = none
  repeated normalized (post ∷ posts) =
      let rest = repeated normalized posts in
      let prior = normalize_text py tools config.exact_duplicate_case_sensitive post.body in
      let similarity = text_similarity py tools fl normalized prior in
      if str_eq normalized prior
      then some (
        "duplicate of an existing post",
        ("duplicate_post_id", text (py.id_text post.id))
            ∷ ("similarity", float (fl.literal "1.0"))
            ∷ [],
      )
      else if ltb (min (count normalized) (count prior)) config.min_similarity_chars
      then rest
      else if fl.at_most config.similarity_threshold similarity
      then some (
        "substantially repeats an existing post",
        ("duplicate_post_id", text (py.id_text post.id))
            ∷ ("similarity", float (fl.round 4 similarity))
            ∷ [],
      )
      else rest

  -- Whether the agent may speak in the thread.
  abbrev pub agent_checks : AgentView → Option Thread → Time → List (Bool × String)
  unfolding denies is_cooling
  agent_checks agent thread now =
      (not agent.enabled, "agent is disabled")
      ∷ (denies agent.permissions "speak" "can_post", "agent is not permitted to post")
      ∷ (thread_closed thread, "thread is closed")
      ∷ (
        config.enforce_cooldown && is_cooling fl agent.cooldown_seconds agent.last_spoke_at now,
        "agent cooldown has not elapsed",
      )
      ∷ []

  unfoldable pub check_agent : AgentView → Option Thread → Time → Option Refusal
  unfolding denies is_cooling first_refusal
  check_agent agent thread now = first_refusal (agent_checks agent thread now)

  abbrev pub text_checks : AgentAction → AgentView → List (Bool × String)
  unfolding denies
  text_checks action agent =
      (
        ltb config.max_body_chars (count (or_else action.body "")),
        "body exceeds configured character limit",
      )
      ∷ (
        title_too_long config.max_title_chars action.title,
        "title exceeds configured character limit",
      )
      ∷ (
        is_new_thread action.action && denies agent.permissions "new_thread" "can_create_threads",
        "agent is not permitted to create threads",
      )
      ∷ []

  unfoldable pub check_text : AgentAction → AgentView → Option Refusal
  unfolding denies first_refusal
  check_text action agent = first_refusal (text_checks action agent)

  abbrev pub parent_checks : String → List Post → String → List (Bool × String)
  unfolding parent_of identity
  parent_checks id posts agent_id =
      (
        not (is_some (parent_of py id posts)) && config.require_known_parent,
        "parent_post_id is not in the captured thread context",
      )
      ∷ (
        not config.allow_self_replies && is_by py (parent_of py id posts) agent_id,
        "immediate self-replies are not allowed",
      )
      ∷ []

  -- The parent, where one is named: known, and not by the agent itself.
  unfoldable pub check_parent : Option String → List Post → String → Option Refusal
  unfolding parent_of first_refusal identity
  check_parent none posts agent_id = none
  check_parent (some id) posts agent_id = first_refusal (parent_checks id posts agent_id)

  abbrev pub turn_checks : List Post → String → List (Bool × String)
  unfolding newest identity violates_consecutive_cap violates_ping_pong
  turn_checks posts agent_id =
      (
        not config.allow_consecutive_posts && is_by py (newest posts) agent_id,
        "agent cannot reply immediately after itself",
      )
      ∷ (
        violates_consecutive_cap py posts agent_id config.consecutive_turn_cap,
        "consecutive turn cap reached",
      )
      ∷ (
        violates_ping_pong py posts agent_id config.max_agent_ping_pong_posts,
        "two-agent ping-pong limit reached",
      )
      ∷ []

  unfoldable pub check_turns : List Post → String → Option Refusal
  unfolding newest identity violates_consecutive_cap violates_ping_pong first_refusal
  check_turns posts agent_id = first_refusal (turn_checks posts agent_id)

  -- The checks on repetition: the committed fingerprints, then the posts looked back at.
  unfoldable pub check_repeats : AgentAction → String → List Post → List String → Option Refusal
  unfolding repeated normalize_text any_of
  check_repeats action fingerprint posts known =
      if member fingerprint known
      then some ("identical action was already committed", [])
      else repeated
          (normalize_text py tools config.exact_duplicate_case_sensitive (or_else action.body ""))
          (looked_back config.duplicate_lookback posts)

  abbrev pub accept : AgentAction → String → String → PolicyDecision
  accept a why fingerprint = record {
    accepted = true;
    action = some a;
    reason = why;
    fingerprint = some fingerprint;
    metadata = [];
  }

  abbrev pub reject : Refusal → String → PolicyDecision
  reject r fingerprint = record {
    accepted = false;
    action = none;
    reason = r.0;
    fingerprint = some fingerprint;
    metadata = r.1;
  }

  -- The rules, then `allow_repeated_posts`, then the checks on repetition.
  abbrev pub decide : Option Refusal → Bool → Option Refusal → AgentAction → String → PolicyDecision
  decide (some r) lax repeats a fingerprint = reject r fingerprint
  decide none true repeats a fingerprint = accept a "autonomous board action" fingerprint
  decide none false (some r) a fingerprint = reject r fingerprint
  decide none false none a fingerprint = accept a "action satisfies execution policies" fingerprint

  -- The checks that no setting lifts as a whole, in their order.
  unfoldable pub check_rules :
      AgentAction → AgentView → Option Thread → List Post → Time → Option Refusal
  unfolding check_agent check_text check_parent check_turns
  check_rules action agent thread posts now =
      check_agent agent thread now
      or_check check_text action agent
      or_check check_parent action.parent_post_id posts (py.id_text agent.id)
      or_check check_turns posts (py.id_text agent.id)

  unfoldable pub validate :
      AgentAction → AgentView → Option Thread → List Post → List String → Time → PolicyDecision
  unfolding action_fingerprint check_rules check_repeats
  validate action agent thread posts known now =
      let fingerprint =
        action_fingerprint py tools action (some (py.id_text agent.id)) (thread_text py thread) in
      if is_pass action.action
      then accept action "agent chose to pass" fingerprint
      else decide (check_rules action agent thread posts now) config.allow_repeated_posts
          (check_repeats action fingerprint posts known) action fingerprint
