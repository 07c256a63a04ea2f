-- ===== src/Scheduler/Fair.antt =====
-- scheduler.py, `_score_agent` and the sampling loop: who is eligible, and whom the loop picks.
use swarmboard.Prelude.{
  ℕ, zero, suc, String, ◌≡◌, inl, inr, refl, subst, Bool, true, false, ◌&&◌, not, Option, some,
  List, [], ◌∷◌, map, All, arith, Bool-cases, some-inj, ap, str_eq,
}
use swarmboard.Prelude.Int.{ℤ}
use swarmboard.Optional.{◌>>=◌, >>=-returns}
use swarmboard.Floats.{Float, Floats}
use swarmboard.Python.{Python}
use swarmboard.Models.{Time, Post}
use swarmboard.Policies.{
  AgentView, denies, newest, seconds_of, is_positive, violates_ping_pong, violates_consecutive_cap,
}
use swarmboard.Scheduler.Config.{SchedulerConfig, CandidateScore, SchedulerTools, RandomSource}
use swarmboard.Scheduler.Roles.{Finding, when_found, gather, quota_spent, is_last_of}
use swarmboard.Scheduler.Score.{Scene, remaining, cooldown_finding, fences, score_agent}
use swarmboard.Scheduler.Pick.{
  remove_candidate, chosen, weigh, weight_of, note_weights, least_score, weighted_pick, fill,
}

when_found-blocks :
    (b : Bool) (f : Finding) → f.blocks ≡ true → (when_found b f).blocks ≡ false → b ≡ false
when_found-blocks true f t h = absurd (ground arith)
when_found-blocks false f t h = refl

gather-blocks : (fs : List Finding) → (gather fs).blocks ≡ false → All (λ f. f.blocks ≡ false) fs
unfolding gather
gather-blocks [] h = tt
gather-blocks (f ∷ fs) h = (ground arith, gather-blocks fs (ground arith))

module _ (py : Python) (tools : SchedulerTools) (fl : Floats) (config : SchedulerConfig) where
  -- What makes an agent eligible.
  pub record MaySpeak (posts : List Post) (quotas : Option (List (String × ℤ))) (now : Time)
      (agent : AgentView) : Type 0 where
    pub enabled : agent.enabled ≡ true
    pub may_post : denies agent.permissions "speak" "can_post" ≡ false
    pub quota_left : quota_spent quotas (py.id_text agent.id) ≡ false
    pub not_last :
        config.allow_consecutive_posts ≡ false
        → is_last_of py (py.id_text agent.id) (newest posts) ≡ false
    pub no_ping_pong :
        violates_ping_pong py posts (py.id_text agent.id) config.ping_pong_limit ≡ false
    pub below_cap :
        violates_consecutive_cap py posts (py.id_text agent.id) config.consecutive_turn_cap ≡ false
    pub rested :
        (spoke : Time)
        → agent.last_spoke_at ≡ some spoke
        → config.cooldowns ≡ true
        → is_positive fl (seconds_of fl agent.cooldown_seconds) ≡ true
        → is_positive fl (remaining py tools fl config agent spoke now) ≡ false

  cooldown_finding-rested :
      (agent : AgentView) (now spoke : Time)
      → (cooldown_finding py tools fl config agent now).blocks ≡ false
      → agent.last_spoke_at ≡ some spoke
      → config.cooldowns ≡ true
      → is_positive fl (seconds_of fl agent.cooldown_seconds) ≡ true
      → is_positive fl (remaining py tools fl config agent spoke now) ≡ false
  unfolding cooldown_finding
  cooldown_finding-rested agent now spoke h e c p = ground (
    arith,
    when_found-blocks
        (config.cooldowns
          && is_positive fl (seconds_of fl agent.cooldown_seconds)
          && is_positive fl (remaining py tools fl config agent spoke now))
        _ refl (rw e at h),
  )

  -- A score is eligible only where nothing bars the agent.
  pub score_agent-MaySpeak :
      (agent : AgentView) (scene : Scene) (drawn : Float)
      → (score_agent py tools fl config agent scene drawn).eligible ≡ true
      → MaySpeak scene.posts scene.quota_remaining scene.now agent
  unfolding score_agent fences
  score_agent-MaySpeak agent scene drawn h =
      let free = gather-blocks (fences py tools fl config agent scene) (ground arith) in
      let (f1, (f2, (f3, (f4, (f5, (f6, (f7, u))))))) = free in
      record {
        enabled = ground (arith, when_found-blocks (not agent.enabled) _ refl f1);
        may_post = when_found-blocks _ _ refl f2;
        quota_left = when_found-blocks _ _ refl f3;
        not_last = λ e. ground (
          arith,
          when_found-blocks
              (not config.allow_consecutive_posts
                && is_last_of py (py.id_text agent.id) (newest scene.posts))
              _ refl f4,
        );
        no_ping_pong = when_found-blocks _ _ refl f5;
        below_cap = when_found-blocks _ _ refl f6;
        rested = λ spoke e c p. cooldown_finding-rested agent scene.now spoke f7 e c p;
      }

module _ (P : CandidateScore → Type 0) where
  pub All-remove_candidate :
      (id : String) (cs : List CandidateScore) → All P cs → All P (remove_candidate id cs)
  unfolding remove_candidate
  All-remove_candidate id [] a = tt
  All-remove_candidate id (c ∷ cs) a = elim (Bool-cases (str_eq c.agent_id id)) [
    | inl e ↦ rw e a.1
    | inr e ↦ rw e (a.0, All-remove_candidate id cs a.1)
  ]

  chosen-holds :
      (c : CandidateScore) (cs : List CandidateScore) (i : ℕ) → P c → All P cs → P (chosen c cs i)
  unfolding chosen
  chosen-holds c [] i p a = p
  chosen-holds c (d ∷ ds) zero p a = p
  chosen-holds c (d ∷ ds) (suc i) p a = chosen-holds d ds i a.0 a.1

  module _ (fl : Floats) (rs : RandomSource) (config : SchedulerConfig)
      (weightless : (c : CandidateScore) (x : Option Float)
        → P c
        → P (record c { selection_weight = x })) where
    All-weigh : (m : Float) (cs : List CandidateScore) → All P cs → All P (weigh fl rs config m cs)
    unfolding weigh
    All-weigh m [] a = tt
    All-weigh m (c ∷ cs) a = (weightless c _ a.0, All-weigh m cs a.1)

    weighted_pick-holds :
        (c : CandidateScore) (cs : List CandidateScore) (state after : ℕ) (picked : CandidateScore)
        → weighted_pick fl rs config c cs state ≡ some (picked, after)
        → P c
        → All P cs
        → P picked
    unfolding weighted_pick
    weighted_pick-holds c cs state after picked h p a =
        let minimum = least_score fl rs config c.score cs in
        let ((i, later), e, k) =
          >>=-returns (rs.choice (map (weight_of fl rs config minimum) (c ∷ cs)) state)
            (λ drawn. some (chosen c cs drawn.0, drawn.1)) (picked, after) h in
        subst P (ap (λ r. r.0) (some-inj k)) (chosen-holds c cs i p a)

    -- Only candidates of the pool are picked.
    pub fill-picks :
        (k : ℕ) (pool all : List CandidateScore) (state : ℕ) (picked noted : List CandidateScore)
        → fill fl rs config k pool all state ≡ some (picked, noted)
        → All P pool
        → All P picked
    unfolding fill
    fill-picks zero pool all state picked noted h a = subst (All P) (ap (λ r. r.0) (some-inj h)) tt
    fill-picks (suc k) [] all state picked noted h a = subst (All P) (ap (λ r. r.0) (some-inj h)) tt
    fill-picks (suc k) (c ∷ cs) all state picked noted h a =
        let weighed = weigh fl rs config (least_score fl rs config c.score cs) (c ∷ cs) in
        let next = λ (pick : CandidateScore × ℕ).
          fill fl rs config k (remove_candidate pick.0.agent_id weighed)
            (note_weights fl rs config weighed all) pick.1 in
        let ((d, after), e, h1) =
          >>=-returns (weighted_pick fl rs config c cs state)
            (λ pick. next pick >>= (λ rest. some (pick.0 ∷ rest.0, rest.1))) (picked, noted) h in
        let ((rest, marked), f, h2) =
          >>=-returns (next (d, after)) (λ rest. some (d ∷ rest.0, rest.1)) (picked, noted) h1 in
        subst (All P) (ap (λ r. r.0) (some-inj h2)) (
          weighted_pick-holds c cs state after d e a.0 a.1,
          fill-picks k _ _ after rest marked f
              (All-remove_candidate d.agent_id weighed (All-weigh _ (c ∷ cs) a)),
        )
