-- ===== src/Scheduler/Pick.antt =====
-- scheduler.py: the weighted choice of candidates from a pool, and the loop that fills places.
use swarmboard.Prelude.{
  ℕ, zero, suc, String, Bool, Option, none, some, List, [], ◌∷◌, map, find, str_eq, if◌then◌else◌,
}
use swarmboard.Optional.{◌>>=◌}
use swarmboard.Floats.{Float, Floats, max_of, min_of}
use swarmboard.Scheduler.Config.{SchedulerConfig, CandidateScore, RandomSource}

abbrev pub is_candidate : String → CandidateScore → Bool
is_candidate id c = str_eq c.agent_id id

-- `pool.remove(picked)`: candidates of different agents differ in `agent_id`.
unfoldable pub remove_candidate : String → List CandidateScore → List CandidateScore
remove_candidate id [] = []
remove_candidate id (c ∷ cs) =
    let rest = remove_candidate id cs in if is_candidate id c then cs else c ∷ rest

-- `population[min(i, len(population) - 1)]`
unfoldable pub chosen : CandidateScore → List CandidateScore → ℕ → CandidateScore
chosen c [] i = c
chosen c (d ∷ ds) zero = c
chosen c (d ∷ ds) (suc i) = chosen d ds i

module _ (fl : Floats) (rs : RandomSource) (config : SchedulerConfig) where
  -- `min(candidate.score for candidate in candidates)`
  unfoldable pub least_score : Float → List CandidateScore → Float
  least_score m [] = m
  least_score m (c ∷ cs) = least_score (min_of fl m c.score) cs

  abbrev pub weight_of : Float → CandidateScore → Float
  weight_of minimum c =
      let weight =
        max_of fl config.minimum_score (fl.plus (fl.minus c.score minimum) config.minimum_score) in
      if str_eq c.handle "ada" then fl.times weight config.ada_opportunity_multiplier else weight

  -- `candidate.selection_weight = weight`, for each.
  unfoldable pub weigh : Float → List CandidateScore → List CandidateScore
  weigh minimum [] = []
  weigh minimum (c ∷ cs) =
      (record c { selection_weight = some (weight_of minimum c) }) ∷ weigh minimum cs

  -- The candidates are shared: the pool's weights show in the whole list.
  unfoldable pub note_weights : List CandidateScore → List CandidateScore → List CandidateScore
  unfolding find
  note_weights pool [] = []
  note_weights pool (c ∷ cs) =
      (elim (find (is_candidate c.agent_id) pool) [ none ↦ c | some weighed ↦ weighed ])
      ∷ note_weights pool cs

  -- `_weighted_pick` from a pool `c ∷ cs`.
  unfoldable pub weighted_pick :
      CandidateScore → List CandidateScore → ℕ → Option (CandidateScore × ℕ)
  unfolding ◌>>=◌ least_score weigh chosen
  weighted_pick c cs state =
      let minimum = least_score c.score cs in
      do
        drawn ← rs.choice (map (weight_of minimum) (c ∷ cs)) state
        some (chosen c cs drawn.0, drawn.1)

  -- The loop that fills `k` more places: the picked candidates, and all with their weights.
  unfoldable pub fill :
      ℕ
      → List CandidateScore
      → List CandidateScore
      → ℕ
      → Option (List CandidateScore × List CandidateScore)
  unfolding ◌>>=◌ weighted_pick remove_candidate weigh note_weights least_score
  fill zero pool all state = some ([], all)
  fill (suc k) [] all state = some ([], all)
  fill (suc k) (c ∷ cs) all state = do
    pick ← weighted_pick c cs state
    let weighed = weigh (least_score c.score cs) (c ∷ cs)
    rest ← fill k (remove_candidate pick.0.agent_id weighed) (note_weights weighed all) pick.1
    some (pick.0 ∷ rest.0, rest.1)
