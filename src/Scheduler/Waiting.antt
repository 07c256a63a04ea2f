-- ===== src/Scheduler/Waiting.antt =====
-- scheduler.py, `overlooked_participant` after three or more turns.
use swarmboard.Prelude.{
  ℕ, ◌+◌, ◌≤◌, ◌<◌, ◌≡◌, refl, true, false, some, List, [], ◌∷◌, ◌++◌, length, length-append, All,
  arith, ltb, ◌==◌, Option-cases, inl, inr,
}
use swarmboard.Models.{RowId}
use swarmboard.Policies.{AgentView}
use swarmboard.Scheduler.Overlooked.{
  last_turn, wait_of, threshold_of, Overdue, overdue_among, greatest, most_overdue,
  overlooked_participant,
}
use swarmboard.Scheduler.Selected.{Any}

last_turn-append :
    (id : RowId) (turns others : List RowId) (i : ℕ)
    → All (λ x. (x == id) ≡ false) others
    → last_turn id (turns ++ others) i ≡ last_turn id turns i
unfolding last_turn
last_turn-append id [] [] i a = refl
last_turn-append id [] (y ∷ ys) i a = rw (last_turn-append id [] ys (i + 1) a.1, a.0) refl
last_turn-append id (x ∷ xs) others i a = rw (last_turn-append id xs others (i + 1) a) refl

last_turn-below :
    (id : RowId) (turns : List RowId) (i j : ℕ)
    → last_turn id turns i ≡ some j
    → j < i + length turns
unfolding last_turn
last_turn-below id [] i j h = absurd (ground arith)
last_turn-below id (x ∷ xs) i j h = ground (arith, last_turn-below id xs (i + 1) j)

-- Each turn of another participant makes a wait longer by one.
wait_of-append :
    (id : RowId) (turns others : List RowId)
    → All (λ x. (x == id) ≡ false) others
    → wait_of id (turns ++ others) ≡ wait_of id turns + length others
unfolding wait_of
wait_of-append id turns others a = elim (Option-cases (last_turn id turns 0)) [
  | inl n ↦ ground (arith, last_turn-append id turns others 0 a, n, length-append turns others)
  | inr (j, e) ↦ ground (
    arith,
    last_turn-append id turns others 0 a,
    e,
    length-append turns others,
    last_turn-below id turns 0 j e,
  )
]

threshold_of-le : (agent : AgentView) → threshold_of agent ≤ 3
threshold_of-le agent = ground arith

overdue_among-some :
    (turns : List RowId) (agents : List AgentView)
    → Any (λ agent. threshold_of agent ≤ wait_of agent.id turns) agents
    → ltb 0 (length (overdue_among turns agents)) ≡ true
unfolding overdue_among
overdue_among-some turns [] a = absurd a
overdue_among-some turns (agent ∷ agents) (inl h) = ground arith
overdue_among-some turns (agent ∷ agents) (inr a) =
    ground (arith, overdue_among-some turns agents a)

Any-mono :
    {A : Type 0} (P Q : A → Type 0) (xs : List A) → ((x : A) → P x → Q x) → Any P xs → Any Q xs
Any-mono P Q [] f a = absurd a
Any-mono P Q (x ∷ xs) f (inl p) = inl (f x p)
Any-mono P Q (x ∷ xs) f (inr a) = inr (Any-mono P Q xs f a)

greatest-some :
    (os : List Overdue) → ltb 0 (length os) ≡ true → (m : Overdue) × (greatest os ≡ some m)
unfolding greatest
greatest-some [] h = absurd (ground arith)
greatest-some (o ∷ os) h = (most_overdue o os, refl)

-- When one of the agents had no turn among the last three or more, whatever came before, some
-- participant is found overdue.
pub overlooked_participant-waiting :
    (agents : List AgentView) (turns others : List RowId)
    → 3 ≤ length others
    → Any (λ agent. All (λ x. (x == agent.id) ≡ false) others) agents
    → (m : Overdue) × (overlooked_participant agents (turns ++ others) ≡ some m)
unfolding overlooked_participant
overlooked_participant-waiting agents turns others n waiting =
    greatest-some (overdue_among (turns ++ others) agents) (
      overdue_among-some (turns ++ others) agents (
        Any-mono _ _ agents
          (λ agent a.
            omega (arith, n, wait_of-append agent.id turns others a, threshold_of-le agent))
          waiting))
