-- ===== src/Scheduler/Score.antt =====
-- scheduler.py: the score of an agent, and whether it is eligible.
use Prim.Native.String.{◌++◌ as then_text}
use swarmboard.Prelude.{
  min, max, String, Bool, true, false, ◌&&◌, ◌||◌, not, Option, none, some, List, [], ◌∷◌, ◌++◌,
  map, length, count_if, ltb, ◌==◌, if◌then◌else◌,
}
use swarmboard.Prelude.Int.{ℤ}
use swarmboard.Json.{Dict, get}
use swarmboard.Floats.{Float, Floats, max_of, min_of}
use swarmboard.Python.{Python}
use swarmboard.Models.{Time, Post}
use swarmboard.Policies.{
  is_text, shared, join, violates_ping_pong, violates_consecutive_cap, AgentView, denies,
  seconds_of, elapsed, is_positive, newest,
}
use swarmboard.Scheduler.Config.{SchedulerConfig, CandidateScore, SchedulerTools}
use swarmboard.Scheduler.Roles.{
  Finding, nothing_found, when_found, gather, quota_spent, posts_of, is_last_of, agent_role, words,
  contains_mention, item_texts, expertise_text, if_empty,
}

-- What one scheduling run knows of the thread.
pub record Scene : Type 0 where
  pub posts : List Post
  pub recent_posts : List Post
  pub domination_posts : List Post
  pub trigger_body : String
  pub topic_words : List String
  pub has_questions : Bool
  pub injected_role : Option String
  pub now : Time
  pub quota_remaining : Option (List (String × ℤ))

module _ (py : Python) (tools : SchedulerTools) (fl : Floats) (config : SchedulerConfig) where
  abbrev penalty : Float
  penalty = fl.negate (fl.literal "100.0")

  abbrev pub blocked : String → String → Finding
  blocked key reason = record {
    blocks = true;
    components = (key, penalty) ∷ [];
    reasons = reason ∷ [];
  }

  abbrev pub barred : String → Finding
  barred reason = record { blocks = true; components = []; reasons = reason ∷ [] }

  abbrev pub credit : String → Float → List String → Finding
  credit key x reasons = record { blocks = false; components = (key, x) ∷ []; reasons = reasons }

  -- `cooldown_seconds - (now - last_spoke).total_seconds()`
  abbrev pub remaining : AgentView → Time → Time → Float
  remaining agent spoke now = fl.minus (seconds_of fl agent.cooldown_seconds) (elapsed fl spoke now)

  unfoldable pub cooldown_finding : AgentView → Time → Finding
  cooldown_finding agent now = elim agent.last_spoke_at [
    | none ↦ nothing_found
    | some spoke ↦
        when_found
          (config.cooldowns
            && is_positive fl (seconds_of fl agent.cooldown_seconds)
            && is_positive fl (remaining agent spoke now))
          (blocked "cooldown" (
            then_text "cooldown has "
              (then_text (tools.ceil_text (remaining agent spoke now)) "s remaining")))
  ]

  -- The tests that make an agent ineligible, in their order.
  unfoldable pub fences : AgentView → Scene → List Finding
  unfolding denies quota_spent newest violates_ping_pong violates_consecutive_cap cooldown_finding
  fences agent scene =
      let id = py.id_text agent.id in
      when_found (not agent.enabled) (barred "disabled")
      ∷ when_found (denies agent.permissions "speak" "can_post")
          (barred "posting permission denied")
      ∷ when_found (quota_spent scene.quota_remaining id) (barred "agent quota exhausted")
      ∷ when_found (not config.allow_consecutive_posts && is_last_of py id (newest scene.posts))
          (blocked "self_reply" "would immediately self-reply")
      ∷ when_found (violates_ping_pong py scene.posts id config.ping_pong_limit)
          (blocked "ping_pong" "two-agent ping-pong limit")
      ∷ when_found (violates_consecutive_cap py scene.posts id config.consecutive_turn_cap)
          (blocked "consecutive_turn_cap" "consecutive turn cap reached")
      ∷ cooldown_finding agent scene.now
      ∷ []

  unfoldable pub expertise_finding : AgentView → List String → Finding
  unfolding words get item_texts join shared
  expertise_finding agent topic_words =
      let own = words py tools (
        join " " (expertise_text py tools (get "expertise" agent.settings) ∷ agent.persona ∷ [])) in
      let overlap =
        fl.divide (fl.of_nat (shared own topic_words))
          (fl.of_nat (max 1 (min (length topic_words) 12))) in
      let score = min_of fl config.expertise_weight (fl.times config.expertise_weight overlap) in
      when_found
        (ltb 0 (length own)
          && ltb 0 (length topic_words)
          && (is_positive fl score || fl.below score (fl.literal "0.0")))
        (credit "expertise" score ("topic matches expertise" ∷ []))

  -- New voices first, then voices absent from the recent discussion.
  unfoldable pub novelty_finding : String → Scene → Finding
  unfolding count_if
  novelty_finding id scene =
      if posts_of py id scene.posts == 0
      then credit "novelty" config.novelty_weight ("has not participated yet" ∷ [])
      else when_found (posts_of py id scene.recent_posts == 0) (
          credit "novelty" (fl.times config.novelty_weight (fl.literal "0.55"))
            ("voice absent from recent discussion" ∷ []))

  unfoldable pub recent_finding : String → Scene → Finding
  unfolding count_if
  recent_finding id scene =
      let recent = posts_of py id scene.recent_posts in
      when_found (ltb 0 recent) (
        credit "recent_participation"
          (fl.times (fl.negate config.recent_penalty) (fl.of_nat recent))
          (then_text "spoke " (then_text (tools.nat_text recent) " time(s) recently") ∷ []))

  unfoldable pub domination_finding : String → Scene → Finding
  unfolding count_if
  domination_finding id scene =
      let own = posts_of py id scene.domination_posts in
      let share = fl.divide (fl.of_nat own) (fl.of_nat (length scene.domination_posts)) in
      when_found (ltb 0 (length scene.domination_posts) && ltb 0 own) (
        credit "domination" (fl.times (fl.negate config.domination_penalty) share)
          (if fl.at_most (fl.literal "0.4") share then "high recent share" ∷ [] else []))

  -- `max(0.1, min(float(value), 5.0))`, and 1.0 where `float` raises.
  unfoldable pub weight_bonus : Dict → Float
  unfolding get
  weight_bonus settings = elim (get "scheduler_weight" settings) [
    | none ↦ bounded (fl.literal "1.0")
    | some v ↦ elim (tools.to_float v) [ none ↦ fl.literal "1.0" | some x ↦ bounded x ]
  ]
    where
      bounded : Float → Float
      bounded x = max_of fl (fl.literal "0.1") (min_of fl x (fl.literal "5.0"))

  -- The bonuses and costs, in their order.
  unfoldable pub bonuses : AgentView → Scene → List Finding
  unfolding contains_mention expertise_finding novelty_finding recent_finding domination_finding
      agent_role weight_bonus
  bonuses agent scene =
      let id = py.id_text agent.id in
      let role = agent_role py tools agent in
      when_found (contains_mention py tools scene.trigger_body (if_empty agent.handle id))
        (credit "direct_mention" config.mention_weight ("directly mentioned" ∷ []))
      ∷ when_found scene.has_questions
          (credit "unanswered_question" config.question_weight ("unanswered question" ∷ []))
      ∷ expertise_finding agent scene.topic_words
      ∷ novelty_finding id scene
      ∷ recent_finding id scene
      ∷ domination_finding id scene
      ∷ when_found (is_text scene.injected_role role) (
          credit "role_injection" config.role_injection_weight
            (then_text (tools.dashed role) " perspective requested" ∷ []))
      ∷ credit "configured_weight" (fl.minus (weight_bonus agent.settings) (fl.literal "1.0")) []
      ∷ []

  -- `_score_agent`, with the number that `jitter_rng` draws.
  unfoldable pub score_agent : AgentView → Scene → Float → CandidateScore
  unfolding gather fences bonuses agent_role
  score_agent agent scene drawn =
      let fenced = gather (fences agent scene) in
      let rest = gather (bonuses agent scene) in
      let components =
        ("base", fl.literal "1.0")
        ∷ (fenced.components ++ rest.components ++ (("seeded_jitter", drawn) ∷ [])) in
      let score = tools.sum (map (λ c. c.1) components) in
      let eligible = not fenced.blocks in
      record {
        agent_id = py.id_text agent.id;
        handle = if_empty agent.handle (py.id_text agent.id);
        role = agent_role py tools agent;
        score =
            fl.round 6 (if eligible then score else min_of fl score (fl.negate (fl.literal "1.0")));
        eligible = eligible;
        components = components;
        reasons = fenced.reasons ++ rest.reasons;
        selection_weight = none;
      }
