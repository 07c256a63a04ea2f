-- ===== src/Scheduler/Selected.antt =====
-- scheduler.py, `select`: whom it selects.
use swarmboard.Models.{Time, Post, Thread, Stimulus, is_closed, is_dormant}
use swarmboard.Prelude.Int.{ℤ}
use swarmboard.Prelude.{
  false, ltb, not, ◌&&◌, arith, Option, String, All-keep_if, keep_if, Bool-cases, length, ◌==◌, ℕ,
  zero, suc, ◌≡◌, ◌⊎◌, inl, inr, refl, subst, true, some, List, [], ◌∷◌, map, All, All-mono,
  All-trivial, some-inj, ap,
}
use swarmboard.Optional.{◌>>=◌, >>=-returns}
use swarmboard.Sorting.{sort_by, All-sort_by}
use swarmboard.Floats.{Float, Floats}
use swarmboard.Python.{Python}
use swarmboard.Policies.{AgentView}
use swarmboard.Scheduler.Config.{
  SchedulingDecision, SchedulerConfig, CandidateScore, SchedulerTools, RandomSource,
}
use swarmboard.Scheduler.Score.{Scene, score_agent}
use swarmboard.Scheduler.Pick.{remove_candidate, fill}
use swarmboard.Scheduler.Select.{
  select, decision_seed, scene_of, choose_injected_role, outstanding_questions, precedes,
  is_wake_kind, kind_of, places_for, decided, is_mentioned, settle, jitter_of, give_places,
  score_all,
}
use swarmboard.Scheduler.Fair.{MaySpeak, score_agent-MaySpeak, All-remove_candidate, fill-picks}

abbrev pub Any : {A : Type 0} → (A → Type 0) → List A → Type 0
Any P [] = ⊥
Any P (x ∷ xs) = P x ⊎ Any P xs

-- A candidate, when it is eligible, stands for one of the agents that satisfies `Q`.
abbrev Stands : Python → (AgentView → Type 0) → List AgentView → CandidateScore → Type 0
Stands py Q agents c =
    c.eligible ≡ true → Any (λ agent. (c.agent_id ≡ py.id_text agent.id) × Q agent) agents

-- An eligible candidate that stands for such an agent.
abbrev Fits : Python → (AgentView → Type 0) → List AgentView → CandidateScore → Type 0
Fits py Q agents c = Any (λ agent. (c.agent_id ≡ py.id_text agent.id) × Q agent) agents

All-map :
    {A B : Type 0} (P : B → Type 0) (f : A → B) (xs : List A)
    → All (λ x. P (f x)) xs
    → All P (map f xs)
All-map P f [] a = tt
All-map P f (x ∷ xs) a = (a.0, All-map P f xs a.1)

-- Each element stands for itself.
All-Any :
    {A : Type 0} (P : A → A → Type 0) (xs : List A)
    → All (λ x. P x x) xs
    → All (λ x. Any (P x) xs) xs
All-Any P [] a = tt
All-Any P (x ∷ xs) a = (
  inl a.0,
  All-mono (λ y. Any (P y) xs) (λ y. Any (P y) (x ∷ xs)) xs (λ y m. inr m) (All-Any P xs a.1),
)

Any-mono :
    {A : Type 0} (P Q : A → Type 0) (xs : List A) → ((x : A) → P x → Q x) → Any P xs → Any Q xs
Any-mono P Q [] f a = absurd a
Any-mono P Q (x ∷ xs) f (inl p) = inl (f x p)
Any-mono P Q (x ∷ xs) f (inr a) = inr (Any-mono P Q xs f a)

module _ (py : Python) (tools : SchedulerTools) (fl : Floats) (rs : RandomSource)
    (config : SchedulerConfig) where
  score_all-Stands :
      (seed : ℕ) (scene : Scene) (agents : List AgentView)
      → All
          (Stands py
            (MaySpeak py tools fl config scene.posts scene.quota_remaining scene.now)
            agents)
          (score_all py tools fl rs config seed scene agents)
  unfolding score_agent score_all
  score_all-Stands seed scene agents = All-map _ _ agents (
      All-mono _ _ agents (λ agent m e. Any-mono _ _ agents (λ other k. k e) m)
        (All-Any
          (λ agent other.
            (score_agent py tools fl config agent scene (drawn agent)).eligible ≡ true
            → ((score_agent py tools fl config agent scene (drawn agent)).agent_id
                ≡ py.id_text other.id)
              × MaySpeak py tools fl config scene.posts scene.quota_remaining scene.now other)
          agents
          (All-trivial _ agents (λ agent e.
            (refl, score_agent-MaySpeak py tools fl config agent scene (drawn agent) e)))))
    where
      drawn : AgentView → Float
      drawn = jitter_of py tools fl rs config seed

  module _ (Q : AgentView → Type 0) (agents : List AgentView) where
    give_places-picks :
        (k : ℕ) (mentioned eligible all : List CandidateScore) (state : ℕ)
        (picked noted : List CandidateScore)
        → give_places py tools fl rs config k mentioned eligible all state ≡ some (picked, noted)
        → All (Fits py Q agents) mentioned
        → All (Fits py Q agents) eligible
        → All (Fits py Q agents) picked
    unfolding give_places
    give_places-picks zero mentioned eligible all state picked noted h m a =
        subst (All (Fits py Q agents)) (ap (λ r. r.0) (some-inj h)) tt
    give_places-picks (suc k) [] eligible all state picked noted h m a =
        fill-picks (Fits py Q agents) fl rs config (λ c x p. p) (suc k) eligible all state picked
          noted h a
    give_places-picks (suc k) (c ∷ cs) eligible all state picked noted h m a =
        let ((rest, marked), f, h1) =
          >>=-returns (fill fl rs config k (remove_candidate c.agent_id eligible) all state)
            (λ rest. some (c ∷ rest.0, rest.1)) (picked, noted) h in
        subst (All (Fits py Q agents)) (ap (λ r. r.0) (some-inj h1)) (
          m.0,
          fill-picks (Fits py Q agents) fl rs config (λ c x p. p) k _ all state rest marked f
              (All-remove_candidate (Fits py Q agents) c.agent_id eligible a),
        )

    -- What a decision may select.
    abbrev pub Chosen : SchedulingDecision → Type 0
    Chosen d =
        All (λ id. Any (λ agent. (id ≡ py.id_text agent.id) × Q agent) agents) d.selected_agent_ids

    settle-Chosen :
        (role : Option String) (seed state : ℕ) (candidates : List CandidateScore)
        (max_selected : Option ℕ) (d : SchedulingDecision)
        → settle py tools fl rs config role seed state candidates max_selected ≡ some d
        → All (Stands py Q agents) candidates
        → Chosen d
    unfolding settle
    settle-Chosen role seed state candidates max_selected d h a =
        let eligible = keep_if (λ c. c.eligible) candidates in
        let fits =
          All-keep_if (Stands py Q agents) (Fits py Q agents) (λ c. c.eligible) candidates
            (λ c e s. s e) a in
        elim (Bool-cases (length eligible == 0)) [
          | inl e ↦ subst Chosen (some-inj (rw e at h)) tt
          | inr e ↦
              let (filled, f, h1) =
                >>=-returns
                  (give_places py tools fl rs config
                    (places_for py tools fl rs config max_selected eligible)
                    (keep_if (is_mentioned fl) eligible) eligible candidates state)
                  (λ filled. some (decided py tools fl rs config role seed filled.0 filled.1)) d
                  (rw e at h) in
              subst Chosen (some-inj h1) (
                All-map _ (λ c. c.agent_id) filled.0
                  (give_places-picks _ _ eligible candidates state filled.0 filled.1 f
                    (All-keep_if _ _ (is_mentioned fl) eligible (λ c m p. p) fits) fits))
        ]

-- The thread may be worked on: it is open and, where dormancy counts, it is not dormant or the
-- stimulus is of a kind that wakes it.
pub record IsAwake (config : SchedulerConfig) (thread : Thread) (stimulus : Option Stimulus)
    : Type 0 where
  pub still_open : is_closed thread.status ≡ false
  pub woken :
      config.dormancy ≡ true
      → is_dormant thread.status ≡ true
      → is_wake_kind (kind_of stimulus) ≡ true

module _ (py : Python) (tools : SchedulerTools) (fl : Floats) (rs : RandomSource)
    (config : SchedulerConfig) where
  -- Each agent that `select` selects is one of the given agents, may speak after these posts under
  -- the configuration, and is selected only in a thread that may be worked on.
  pub select-MaySpeak :
      (agents : List AgentView) (thread : Thread) (posts : List Post) (stimulus : Option Stimulus)
      (run_seed : ℤ) (now : Time) (max_selected : Option ℕ) (quotas : Option (List (String × ℤ)))
      (d : SchedulingDecision)
      → select py tools fl rs config agents thread posts stimulus run_seed now max_selected quotas
        ≡ some d
      → All
          (λ id.
            IsAwake config thread stimulus
            × Any
                (λ agent.
                  (id ≡ py.id_text agent.id) × MaySpeak py tools fl config posts quotas now agent)
                agents)
          d.selected_agent_ids
  unfolding select scene_of
  select-MaySpeak agents thread posts stimulus run_seed now max_selected quotas d h =
      elim (Bool-cases (is_closed thread.status)) [
        | inl c ↦ subst Good (some-inj (rw c at h)) tt
        | inr o ↦
            elim (Bool-cases (
              config.dormancy
              && is_dormant thread.status
              && not (is_wake_kind (kind_of stimulus)))) [
                | inl s ↦ subst Good (some-inj (rw s at (rw o at h))) tt
                | inr a ↦
                    All-mono _ _ d.selected_agent_ids
                      (λ id m. (record { still_open = o; woken = λ e f. ground arith }, m))
                      (picked (rw a at (rw o at h)))
              ]
      ]
    where
      Good : SchedulingDecision → Type 0
      Good d =
          All
            (λ id.
              IsAwake config thread stimulus
              × Any
                  (λ agent.
                    (id ≡ py.id_text agent.id) × MaySpeak py tools fl config posts quotas now agent)
                  agents)
            d.selected_agent_ids

      seed : ℕ
      seed = decision_seed py tools fl rs config run_seed thread stimulus

      scored : Option String → List CandidateScore
      scored role =
          score_all py tools fl rs config seed
            (scene_of py tools fl rs config thread posts stimulus role now quotas) agents

      drawn : Option (Option String × ℕ)
      drawn =
          choose_injected_role fl rs config (length posts)
            (ltb 0 (length (outstanding_questions py posts))) (rs.seeded seed)

      rest : Option String × ℕ → Option SchedulingDecision
      rest role =
          settle py tools fl rs config role.0 seed role.1 (sort_by (precedes py fl) (scored role.0))
            max_selected

      picked :
          (drawn >>= rest) ≡ some d
          → Chosen py tools fl rs config (MaySpeak py tools fl config posts quotas now) agents d
      picked e =
          let (role, f, g) = >>=-returns drawn rest d e in
          settle-Chosen py tools fl rs config (MaySpeak py tools fl config posts quotas now) agents
            role.0 seed role.1 (sort_by (precedes py fl) (scored role.0)) max_selected d g
            (All-sort_by _ (precedes py fl) (scored role.0) (
              score_all-Stands py tools fl rs config seed
                (scene_of py tools fl rs config thread posts stimulus role.0 now quotas) agents))
