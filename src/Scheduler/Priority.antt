-- ===== src/Scheduler/Priority.antt =====
-- scheduler.py, `overlooked_participant`: the one that is found, against the others.
use swarmboard.Prelude.{
  ℕ, ◌*◌, ◌≤◌, ◌≡◌, ◌⊎◌, ◌∙◌, refl, subst, sym, Bool, true, false, some, List, [], ◌∷◌, All, arith,
  Bool-cases, inl, inr, some-inj, if◌then◌else◌, leb, str_eq,
}
use swarmboard.Models.{RowId}
use swarmboard.Policies.{AgentView}
use swarmboard.Scheduler.Overlooked.{
  wait_of, threshold_of, Overdue, overdue_among, less_overdue, most_overdue, greatest,
  overlooked_participant,
}

-- An entry of the list of overdue agents.
record IsEntry (turns : List RowId) (o : Overdue) : Type 0 where
  wait_is : o.wait ≡ wait_of o.agent.id turns
  threshold_is : o.threshold ≡ threshold_of o.agent
  overdue : o.threshold ≤ o.wait

-- As overdue as `b` at most.
abbrev AtMost : Overdue → Overdue → Type 0
AtMost a b = a.wait * b.threshold ≤ b.wait * a.threshold

threshold_of-cases : (agent : AgentView) → (threshold_of agent ≡ 2) ⊎ (threshold_of agent ≡ 3)
threshold_of-cases agent = elim (Bool-cases (str_eq agent.handle "ada")) [
  | inl e ↦ inl (rw e refl)
  | inr e ↦ inr (rw e refl)
]

fraction_trans :
    (a b c p q r : ℕ)
    → (p ≡ 2) ⊎ (p ≡ 3)
    → (q ≡ 2) ⊎ (q ≡ 3)
    → (r ≡ 2) ⊎ (r ≡ 3)
    → a * q ≤ b * p
    → b * r ≤ c * q
    → a * r ≤ c * p
fraction_trans a b c p q r hp hq hr h k = ground (arith, hp, hq, hr)

module _ (turns : List RowId) where
  cases : (o : Overdue) → IsEntry turns o → (o.threshold ≡ 2) ⊎ (o.threshold ≡ 3)
  cases o e = elim (threshold_of-cases o.agent) [
    | inl t ↦ inl (e.threshold_is ∙ t)
    | inr t ↦ inr (e.threshold_is ∙ t)
  ]

  AtMost-trans :
      (a b c : Overdue)
      → IsEntry turns a
      → IsEntry turns b
      → IsEntry turns c
      → AtMost a b
      → AtMost b c
      → AtMost a c
  AtMost-trans a b c ea eb ec h k =
      fraction_trans a.wait b.wait c.wait a.threshold b.threshold c.threshold (cases a ea)
        (cases b eb) (cases c ec) h k

  -- `m` is an entry, and `best` and each of `os` are as overdue at most.
  abbrev Tops : Overdue → List Overdue → Overdue → Type 0
  Tops best os m = IsEntry turns m × AtMost best m × All (λ o. AtMost o m) os

  most_overdue-Tops :
      (best : Overdue) (os : List Overdue)
      → IsEntry turns best
      → All (IsEntry turns) os
      → Tops best os (most_overdue best os)
  unfolding most_overdue
  most_overdue-Tops best [] e a = (e, omega arith, tt)
  most_overdue-Tops best (o ∷ os) e a =
      step (λ next f. most_overdue-Tops next os f a.1) (less_overdue best o) refl
    where
      step :
          ((next : Overdue) → IsEntry turns next → Tops next os (most_overdue next os))
          → (b : Bool) → less_overdue best o ≡ b
          → Tops best (o ∷ os) (most_overdue (if b then o else best) os)
      step tops true l =
          let (m, le, rest) = tops o a.0 in
          (m, AtMost-trans best o _ e a.0 m (ground arith) le, (le, rest))
      step tops false l =
          let (m, le, rest) = tops best e in
          (m, le, (AtMost-trans o best _ a.0 e m (ground arith) le, rest))

  overdue_among-IsEntry :
      (agents : List AgentView) → All (IsEntry turns) (overdue_among turns agents)
  unfolding overdue_among
  overdue_among-IsEntry [] = tt
  overdue_among-IsEntry (agent ∷ agents) =
      elim (Bool-cases (leb (threshold_of agent) (wait_of agent.id turns))) [
        | inl e ↦ rw e (
          record { wait_is = refl; threshold_is = refl; overdue = ground arith },
          overdue_among-IsEntry agents,
        )
        | inr e ↦ rw e (overdue_among-IsEntry agents)
      ]

  -- An overdue agent is bounded by whatever bounds the entries.
  overdue_among-bounded :
      (m : Overdue) (agents : List AgentView)
      → All (λ o. AtMost o m) (overdue_among turns agents)
      → All
          (λ agent.
            threshold_of agent ≤ wait_of agent.id turns
            → wait_of agent.id turns * m.threshold ≤ m.wait * threshold_of agent)
          agents
  unfolding overdue_among
  overdue_among-bounded m [] a = tt
  overdue_among-bounded m (agent ∷ agents) a =
      elim (Bool-cases (leb (threshold_of agent) (wait_of agent.id turns))) [
        | inl e ↦ ((λ l. (rw e at a).0), overdue_among-bounded m agents (rw e at a).1)
        | inr e ↦ ((λ l. absurd (ground arith)), overdue_among-bounded m agents (rw e at a))
      ]

-- The participant that is found is overdue, and no other overdue one has waited longer, each wait
-- taken by its own threshold.
pub overlooked_participant-most :
    (agents : List AgentView) (turns : List RowId) (m : Overdue)
    → overlooked_participant agents turns ≡ some m
    → (m.wait ≡ wait_of m.agent.id turns)
      × (m.threshold ≡ threshold_of m.agent)
      × (m.threshold ≤ m.wait)
      × All
          (λ agent.
            threshold_of agent ≤ wait_of agent.id turns
            → wait_of agent.id turns * m.threshold ≤ m.wait * threshold_of agent)
          agents
unfolding overlooked_participant greatest
overlooked_participant-most agents turns m h = from (overdue_among turns agents) refl h
  where
    from :
        (os : List Overdue)
        → overdue_among turns agents ≡ os
        → greatest os ≡ some m
        → (m.wait ≡ wait_of m.agent.id turns)
          × (m.threshold ≡ threshold_of m.agent)
          × (m.threshold ≤ m.wait)
          × All
              (λ agent.
                threshold_of agent ≤ wait_of agent.id turns
                → wait_of agent.id turns * m.threshold ≤ m.wait * threshold_of agent)
              agents
    from [] e g = absurd (ground arith)
    from (o ∷ os) e g =
        let entries = subst (All (IsEntry turns)) e (overdue_among-IsEntry turns agents) in
        let (i, le, rest) =
          subst (Tops turns o os) (some-inj g) (most_overdue-Tops turns o os entries.0 entries.1) in
        (
          i.wait_is,
          i.threshold_is,
          i.overdue,
          overdue_among-bounded turns m agents (subst (All (λ x. AtMost x m)) (sym e) (le, rest)),
        )
