-- ===== src/Scheduler/Select.antt =====
-- scheduler.py: `WeightedFairScheduler.select`.
use Prim.Native.String.{compare, ◌++◌ as then_text}
use text.Mathlib.Text.{is_lt}
use swarmboard.Prelude.{
  ℕ, zero, suc, min, String, Bool, true, false, ◌&&◌, not, Option, none, some, List, [], ◌∷◌, map,
  length, take, keep_if, any_of, is_some, is_val, ltb, ◌==◌, str_eq, if◌then◌else◌,
}
use swarmboard.Prelude.Int.{ℤ}
use swarmboard.Optional.{◌>>=◌}
use swarmboard.Floats.{Float, Floats}
use swarmboard.Python.{Python}
use swarmboard.Models.{
  Time, Post, Thread, Stimulus, is_closed, is_dormant, StimulusKind, human_post, mention,
  unanswered_question, idle_revisit, new_evidence, manual_step,
}
use swarmboard.Deliveries.{kind_text}
use swarmboard.Policies.{AgentView, join, newest, parent_of, looked_back, is_positive}
use swarmboard.Scheduler.Config.{
  SchedulerConfig, CandidateScore, SchedulingDecision, SchedulerTools, RandomSource,
}
use swarmboard.Scheduler.Roles.{words, if_empty}
use swarmboard.Sorting.{sort_by}
use swarmboard.Scheduler.Pick.{fill, remove_candidate}
use swarmboard.Scheduler.Score.{Scene, score_agent}

-- `_WAKE_KINDS`
abbrev pub is_wake_kind : StimulusKind → Bool
is_wake_kind human_post = true
is_wake_kind mention = true
is_wake_kind unanswered_question = true
is_wake_kind idle_revisit = true
is_wake_kind new_evidence = true
is_wake_kind _ = false

abbrev pub kind_of : Option Stimulus → StimulusKind
kind_of none = manual_step
kind_of (some s) = s.kind

unfoldable pub chosen_text : String → List String → ℕ → String
chosen_text s [] i = s
chosen_text s (t ∷ ts) zero = s
chosen_text s (t ∷ ts) (suc i) = chosen_text t ts i

-- `_outstanding_questions`
unfoldable pub outstanding_questions : Python → List Post → List Post
unfolding keep_if any_of
outstanding_questions py posts =
    keep_if
      (λ post.
        py.contains post.body "?"
        && not (any_of (λ reply. is_val reply.parent_post_id post.id) posts))
      posts

-- `_latest_trigger_post`
unfoldable pub latest_trigger_post : Python → List Post → Option Stimulus → Option Post
unfolding newest parent_of
latest_trigger_post py posts none = newest posts
latest_trigger_post py posts (some s) = elim s.source_post_id [
  | none ↦ newest posts
  | some id ↦ elim (parent_of py (py.id_text id) posts) [
    | none ↦ newest posts
    | some post ↦ some post
  ]
]

abbrev pub body_of : Option Post → String
body_of none = ""
body_of (some post) = post.body

module _ (fl : Floats) (rs : RandomSource) (config : SchedulerConfig) where
  -- `_choose_injected_role`, with the state that the generator is left in.
  unfoldable pub choose_injected_role : ℕ → Bool → ℕ → Option (Option String × ℕ)
  unfolding ◌>>=◌ chosen_text
  choose_injected_role posts questions state =
      let (x, after) = rs.random state in
      if fl.at_most config.role_injection_probability x
      then some (none, after)
      else if questions
      then draw "fact_checker" "critic" "synthesizer" "0.50" "0.30" "0.20" after
      else if ltb 7 posts
      then draw "synthesizer" "critic" "fact_checker" "0.55" "0.30" "0.15" after
      else draw "critic" "fact_checker" "synthesizer" "0.50" "0.30" "0.20" after
    where
      draw : String → String → String → String → String → String → ℕ → Option (Option String × ℕ)
      draw a b c x y z after = do
        drawn ← rs.choice (fl.literal x ∷ fl.literal y ∷ fl.literal z ∷ []) after
        some (some (chosen_text a (b ∷ c ∷ []) drawn.0), drawn.1)

-- The candidates mentioned in the body that triggered the run.
abbrev pub is_mentioned : Floats → CandidateScore → Bool
is_mentioned fl c =
    any_of (λ entry. str_eq entry.0 "direct_mention" && is_positive fl entry.1) c.components

-- `-score`, then the handle, then the id.
abbrev pub precedes : Python → Floats → CandidateScore → CandidateScore → Bool
precedes py fl a b =
    if fl.below b.score a.score
    then true
    else if fl.below a.score b.score
    then false
    else if is_lt (compare (py.casefold a.handle) (py.casefold b.handle))
    then true
    else if is_lt (compare (py.casefold b.handle) (py.casefold a.handle))
    then false
    else is_lt (compare a.agent_id b.agent_id)

-- Its first three reasons, for each of the selected.
abbrev pub reason_bit : CandidateScore → String
unfolding join
reason_bit c = then_text "@" (then_text c.handle (then_text ": " (join ", " (take 3 c.reasons))))

abbrev pub no_selection :
    List CandidateScore → String → ℕ → Bool → Option String → SchedulingDecision
no_selection candidates why seed wake role = record {
  selected_agent_ids = [];
  candidates = candidates;
  reason = why;
  seed = seed;
  wake_allowed = wake;
  injected_role = role;
  forced = false;
  forced_by = none;
  override_cooldown = false;
}

-- `max_selected or self.config.max_selected`
abbrev pub or_default : Option ℕ → ℕ → ℕ
or_default none d = d
or_default (some zero) d = d
or_default (some (suc n)) d = suc n

module _ (py : Python) (tools : SchedulerTools) (fl : Floats) (rs : RandomSource)
    (config : SchedulerConfig) where
  -- The first place goes to the first mentioned candidate, the others by weight.
  unfoldable pub give_places :
      ℕ
      → List CandidateScore
      → List CandidateScore
      → List CandidateScore
      → ℕ
      → Option (List CandidateScore × List CandidateScore)
  unfolding ◌>>=◌ fill remove_candidate
  give_places zero mentioned eligible all state = some ([], all)
  give_places (suc k) [] eligible all state = fill fl rs config (suc k) eligible all state
  give_places (suc k) (c ∷ cs) eligible all state = do
    rest ← fill fl rs config k (remove_candidate c.agent_id eligible) all state
    some (c ∷ rest.0, rest.1)

  -- The draw of an agent's own generator, `jitter_rng`.
  unfoldable pub jitter_of : ℕ → AgentView → Float
  unfolding join
  jitter_of seed agent =
      rs.uniform (fl.literal "0.0") config.jitter
        (rs.seeded (tools.digest (join "\u{1f}" (tools.nat_text seed ∷ py.id_text agent.id ∷ []))))

  unfoldable pub score_all : ℕ → Scene → List AgentView → List CandidateScore
  unfolding score_agent jitter_of
  score_all seed scene agents =
      map (λ agent. score_agent py tools fl config agent scene (jitter_of seed agent)) agents

  abbrev pub decision_seed : ℤ → Thread → Option Stimulus → ℕ
  unfolding join
  decision_seed run_seed thread stimulus = tools.digest (
      join "\u{1f}" (
        tools.int_text run_seed
        ∷ py.id_text thread.id
        ∷ (elim stimulus [ none ↦ "manual" | some s ↦ py.id_text s.id ])
        ∷ []))

  unfoldable pub scene_of :
      Thread
      → List Post
      → Option Stimulus
      → Option String
      → Time
      → Option (List (String × ℤ))
      → Scene
  unfolding words join latest_trigger_post outstanding_questions keep_if
  scene_of thread posts stimulus role now quotas =
      let body = body_of (latest_trigger_post py posts stimulus) in
      record {
        posts = posts;
        recent_posts = looked_back config.recent_window posts;
        domination_posts =
            keep_if (λ post. is_some post.author_agent_id)
              (looked_back config.domination_window posts);
        trigger_body = body;
        topic_words = words py tools (join " " (thread.title ∷ body ∷ []));
        has_questions = ltb 0 (length (outstanding_questions py posts));
        injected_role = role;
        now = now;
        quota_remaining = quotas;
      }

  abbrev pub decided :
      Option String → ℕ → List CandidateScore → List CandidateScore → SchedulingDecision
  unfolding join
  decided role seed selected noted = record {
    selected_agent_ids = map (λ c. c.agent_id) selected;
    candidates = noted;
    reason = if_empty (join "; " (map reason_bit selected)) "seeded weighted-fair selection";
    seed = seed;
    wake_allowed = true;
    injected_role = role;
    forced = false;
    forced_by = none;
    override_cooldown = false;
  }

  abbrev pub places_for : Option ℕ → List CandidateScore → ℕ
  places_for max_selected eligible =
      min (min (or_default max_selected config.max_selected) config.max_selected) (length eligible)

  -- From the scores on.
  unfoldable pub settle :
      Option String → ℕ → ℕ → List CandidateScore → Option ℕ → Option SchedulingDecision
  unfolding ◌>>=◌ keep_if any_of give_places join
  settle role seed state candidates max_selected =
      let eligible = keep_if (λ c. c.eligible) candidates in
      let places = places_for max_selected eligible in
      if length eligible == 0
      then some (no_selection candidates "no agent is currently eligible" seed true role)
      else do
        filled ← give_places places (keep_if (is_mentioned fl) eligible) eligible candidates state
        some (decided role seed filled.0 filled.1)

  -- `select`; `none` is the `ValueError` of a weighted choice.
  unfoldable pub select :
      List AgentView
      → Thread
      → List Post
      → Option Stimulus
      → ℤ
      → Time
      → Option ℕ
      → Option (List (String × ℤ))
      → Option SchedulingDecision
  unfolding ◌>>=◌ choose_injected_role sort_by score_all scene_of settle outstanding_questions
  select agents thread posts stimulus run_seed now max_selected quotas =
      let seed = decision_seed run_seed thread stimulus in
      if is_closed thread.status
      then some (no_selection [] "thread is closed" seed false none)
      else if config.dormancy && is_dormant thread.status && not (is_wake_kind (kind_of stimulus))
      then some (
          no_selection []
            (then_text (kind_text (kind_of stimulus)) " is not permitted to wake a dormant thread")
            seed false none)
      else do
        role ←
            choose_injected_role fl rs config (length posts)
              (ltb 0 (length (outstanding_questions py posts))) (rs.seeded seed)
        settle role.0 seed role.1
            (sort_by (precedes py fl)
              (score_all seed (scene_of thread posts stimulus role.0 now quotas) agents))
            max_selected
