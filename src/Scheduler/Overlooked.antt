-- ===== src/Scheduler/Overlooked.antt =====
-- scheduler.py: `overlooked_participant`, the participant most overdue for a turn.
use Prim.Native.String.{compare}
use text.Mathlib.Text.{is_lt}
use swarmboard.Prelude.{
  ℕ, ◌+◌, ◌-◌, ◌*◌, Bool, true, false, Option, none, some, List, [], ◌∷◌, length, ltb, leb, ◌==◌,
  str_eq, if◌then◌else◌,
}
use swarmboard.Models.{RowId}
use swarmboard.Policies.{AgentView}

-- `{agent_id: index for index, agent_id in enumerate(...)}`, from the index `i` on.
unfoldable pub last_turn : RowId → List RowId → ℕ → Option ℕ
last_turn id [] i = none
last_turn id (x ∷ xs) i = elim (last_turn id xs (i + 1)) [
  | some j ↦ some j
  | none ↦ if x == id then some i else none
]

-- How many turns went to others since; `-1` stands for no turn at all.
unfoldable pub wait_of : RowId → List RowId → ℕ
unfolding last_turn
wait_of id turns = elim (last_turn id turns 0) [
  | none ↦ length turns
  | some i ↦ length turns - i - 1
]

abbrev pub threshold_of : AgentView → ℕ
threshold_of agent = if str_eq agent.handle "ada" then 2 else 3

pub record Overdue : Type 0 where
  pub agent : AgentView
  pub wait : ℕ
  pub threshold : ℕ

unfoldable pub overdue_among : List RowId → List AgentView → List Overdue
unfolding wait_of
overdue_among turns [] = []
overdue_among turns (agent ∷ agents) =
    let rest = overdue_among turns agents in
    let wait = wait_of agent.id turns in
    if leb (threshold_of agent) wait
    then record { agent = agent; wait = wait; threshold = threshold_of agent } ∷ rest
    else rest

-- The key `(wait / threshold, wait, handle, id)` of `a` is less than that of `b`. The quotients are
-- compared as fractions, which the floats agree with for fewer than 2 ^ 50 turns.
abbrev pub less_overdue : Overdue → Overdue → Bool
less_overdue a b =
    if ltb (a.wait * b.threshold) (b.wait * a.threshold)
    then true
    else if ltb (b.wait * a.threshold) (a.wait * b.threshold)
    then false
    else if ltb a.wait b.wait
    then true
    else if ltb b.wait a.wait
    then false
    else if is_lt (compare a.agent.handle b.agent.handle)
    then true
    else if is_lt (compare b.agent.handle a.agent.handle)
    then false
    else ltb a.agent.id b.agent.id

-- `max(overdue, key=...)`: the first of the greatest.
unfoldable pub most_overdue : Overdue → List Overdue → Overdue
most_overdue best [] = best
most_overdue best (o ∷ os) = most_overdue (if less_overdue best o then o else best) os

unfoldable pub greatest : List Overdue → Option Overdue
unfolding most_overdue
greatest [] = none
greatest (o ∷ os) = some (most_overdue o os)

unfoldable pub overlooked_participant : List AgentView → List RowId → Option Overdue
unfolding overdue_among greatest
overlooked_participant agents turns = greatest (overdue_among turns agents)
