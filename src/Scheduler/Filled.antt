-- ===== src/Scheduler/Filled.antt =====
-- scheduler.py: how many places the sampling loop of `select` fills.
use swarmboard.Prelude.{
  ℕ, zero, suc, ◌+◌, ◌<◌, ◌≤◌, min, String, ◌≡◌, refl, true, some, List, [], ◌∷◌, map, All, arith,
  Bool-cases, inl, inr, length, any_of, str_eq, eq_iff,
}
use swarmboard.Optional.{◌>>=◌}
use swarmboard.Floats.{Float, Floats, max_of}
use swarmboard.Policies.{is_positive}
use swarmboard.Scheduler.Config.{SchedulerConfig, CandidateScore, RandomSource}
use swarmboard.Scheduler.Fair.{All-remove_candidate}
use swarmboard.Scheduler.Pick.{
  is_candidate, remove_candidate, chosen, least_score, weight_of, weigh, note_weights,
  weighted_pick, fill,
}

length-remove_candidate :
    (id : String) (cs : List CandidateScore)
    → any_of (is_candidate id) cs ≡ true
    → length (remove_candidate id cs) + 1 ≡ length cs
unfolding remove_candidate any_of
length-remove_candidate id [] h = absurd (ground arith)
length-remove_candidate id (c ∷ cs) h = elim (Bool-cases (str_eq c.agent_id id)) [
  | inl e ↦ rw e (omega arith)
  | inr e ↦ rw e (omega (arith, length-remove_candidate id cs (ground arith)))
]

length-map : {A B : Type 0} (f : A → B) (xs : List A) → length (map f xs) ≡ length xs
length-map f [] = refl
length-map f (x ∷ xs) = omega (arith, length-map f xs)

module _ (fl : Floats) (rs : RandomSource) (config : SchedulerConfig) where
  length-weigh :
      (m : Float) (cs : List CandidateScore) → length (weigh fl rs config m cs) ≡ length cs
  unfolding weigh
  length-weigh m [] = refl
  length-weigh m (c ∷ cs) = omega (arith, length-weigh m cs)

  -- The chosen candidate is in the pool, also once the pool is weighed.
  any_of-chosen :
      (m : Float) (c : CandidateScore) (cs : List CandidateScore) (i : ℕ)
      → any_of (is_candidate (chosen c cs i).agent_id) (weigh fl rs config m (c ∷ cs)) ≡ true
  unfolding chosen weigh any_of
  any_of-chosen m c [] i = ground (arith, eq_iff c.agent_id c.agent_id)
  any_of-chosen m c (d ∷ ds) zero = ground (arith, eq_iff c.agent_id c.agent_id)
  any_of-chosen m c (d ∷ ds) (suc i) = ground (arith, any_of-chosen m d ds i)

  length-remove_weighed :
      (m : Float) (c : CandidateScore) (cs : List CandidateScore) (i : ℕ)
      → length (remove_candidate (chosen c cs i).agent_id (weigh fl rs config m (c ∷ cs)))
        ≡ length cs
  length-remove_weighed m c cs i = omega (
    arith,
    length-weigh m (c ∷ cs),
    length-remove_candidate _ (weigh fl rs config m (c ∷ cs)) (any_of-chosen m c cs i),
  )

-- The magnitudes of a configuration: scores lie between `lowest` and `highest`, their weights
-- before the multiplier up to `heaviest`, and after it up to `bound`.
pub record Magnitudes : Type 0 where
  pub lowest : Float
  pub highest : Float
  pub heaviest : Float
  pub bound : Float

module _ (fl : Floats) (rs : RandomSource) (config : SchedulerConfig) (mag : Magnitudes) where
  abbrev pub IsScore : Float → Type 0
  IsScore x = (fl.at_most mag.lowest x ≡ true) × (fl.at_most x mag.highest ≡ true)

  abbrev pub IsWeight : Float → Type 0
  IsWeight x = (is_positive fl x ≡ true) × (fl.at_most x mag.bound ≡ true)

  -- What the loop relies on: at most `most` weights up to the bound have a finite total, which
  -- `random.choices` accepts; `<` is transitive and stricter than `<=`; the minimum score is
  -- positive; and the arithmetic on scores and weights stays within the magnitudes.
  pub record IsSound (most : ℕ) : Type 0 where
    pub accepts :
        (ws : List Float) (state : ℕ)
        → 0 < length ws
        → length ws ≤ most
        → All IsWeight ws
        → (drawn : ℕ × ℕ) × (rs.choice ws state ≡ some drawn)
    pub rises : (a b c : Float) → fl.below a b ≡ true → fl.below b c ≡ true → fl.below a c ≡ true
    pub weakens : (a b : Float) → fl.below a b ≡ true → fl.at_most a b ≡ true
    pub floor : is_positive fl config.minimum_score ≡ true
    pub reflects : fl.at_most config.minimum_score config.minimum_score ≡ true
    pub floor_light : fl.at_most config.minimum_score mag.heaviest ≡ true
    pub light :
        (a b : Float)
        → IsScore a
        → IsScore b
        → fl.at_most (fl.plus (fl.minus a b) config.minimum_score) mag.heaviest ≡ true
    pub within : (x : Float) → fl.at_most x mag.heaviest ≡ true → fl.at_most x mag.bound ≡ true
    pub multiplied :
        (x : Float)
        → fl.at_most config.minimum_score x ≡ true
        → fl.at_most x mag.heaviest ≡ true
        → IsWeight (fl.times x config.ada_opportunity_multiplier)

  abbrev pub AreScores : List CandidateScore → Type 0
  AreScores cs = All (λ c. IsScore c.score) cs

  AreScores-weigh :
      (m : Float) (cs : List CandidateScore) → AreScores cs → AreScores (weigh fl rs config m cs)
  unfolding weigh
  AreScores-weigh m [] a = tt
  AreScores-weigh m (c ∷ cs) a = (a.0, AreScores-weigh m cs a.1)

  least_score-IsScore :
      (m : Float) (cs : List CandidateScore)
      → IsScore m
      → AreScores cs
      → IsScore (least_score fl rs config m cs)
  unfolding least_score
  least_score-IsScore m [] i a = i
  least_score-IsScore m (c ∷ cs) i a = elim (Bool-cases (fl.below c.score m)) [
    | inl e ↦ rw e (least_score-IsScore c.score cs a.0 a.1)
    | inr e ↦ rw e (least_score-IsScore m cs i a.1)
  ]

  module _ (most : ℕ) (sound : IsSound most) where
    -- A weight before the multiplier.
    abbrev IsPlain : Float → Type 0
    IsPlain x =
        (is_positive fl x ≡ true)
        × (fl.at_most config.minimum_score x ≡ true)
        × (fl.at_most x mag.heaviest ≡ true)

    above_floor :
        (x : Float) → fl.at_most x mag.heaviest ≡ true → IsPlain (max_of fl config.minimum_score x)
    above_floor x l = elim (Bool-cases (fl.below config.minimum_score x)) [
      | inl e ↦ rw e (sound.rises _ _ _ sound.floor e, sound.weakens _ _ e, l)
      | inr e ↦ rw e (sound.floor, sound.reflects, sound.floor_light)
    ]

    weight_of-IsWeight :
        (m : Float) (c : CandidateScore)
        → IsScore m
        → IsScore c.score
        → IsWeight (weight_of fl rs config m c)
    weight_of-IsWeight m c i j =
        let plain = above_floor _ (sound.light c.score m j i) in
        elim (Bool-cases (str_eq c.handle "ada")) [
          | inl e ↦ rw e (sound.multiplied _ plain.1 plain.2)
          | inr e ↦ rw e (plain.0, sound.within _ plain.2)
        ]

    weights-AreWeights :
        (m : Float) (cs : List CandidateScore)
        → IsScore m
        → AreScores cs
        → All IsWeight (map (weight_of fl rs config m) cs)
    weights-AreWeights m [] i a = tt
    weights-AreWeights m (c ∷ cs) i a =
        (weight_of-IsWeight m c i a.0, weights-AreWeights m cs i a.1)

    -- Where the arithmetic on scores is sound up to `most` candidates and the pool has at most so
    -- many, with scores in range, filling `k` places returns, with as many candidates as there are
    -- places, or as the pool has where it has fewer.
    pub fill-length :
        (k : ℕ) (pool all : List CandidateScore) (state : ℕ)
        → AreScores pool
        → length pool ≤ most
        → (picked : List CandidateScore) × (noted : List CandidateScore) × (fill fl rs config k pool
              all state
            ≡ some (picked, noted))
          × (length picked ≡ min k (length pool))
    unfolding fill weighted_pick
    fill-length zero pool all state a b = ([], all, refl, omega arith)
    fill-length (suc k) [] all state a b = ([], all, refl, omega arith)
    fill-length (suc k) (c ∷ cs) all state a b =
        let m = least_score fl rs config c.score cs in
        let i0 = least_score-IsScore c.score cs a.0 a.1 in
        let ws = map (weight_of fl rs config m) (c ∷ cs) in
        let ((i, after), e) =
          sound.accepts ws state (omega arith)
            (omega (arith, b, length-map (weight_of fl rs config m) (c ∷ cs)))
            (weights-AreWeights m (c ∷ cs) i0 a) in
        let weighed = weigh fl rs config m (c ∷ cs) in
        let pool = remove_candidate (chosen c cs i).agent_id weighed in
        let n = length-remove_weighed fl rs config m c cs i in
        let (rest, noted, f, l) =
          fill-length k pool (note_weights fl rs config weighed all) after
            (All-remove_candidate (λ x. IsScore x.score) _ weighed (AreScores-weigh m (c ∷ cs) a))
            (omega (arith, n, b)) in
        (chosen c cs i ∷ rest, noted, rw (e, ◌>>=◌) (rw (f, ◌>>=◌) refl), omega (arith, l, n))
