-- ===== src/Stimuli/Overlap.antt =====
-- stimuli.py, `plan_reactive_stimuli`: the targets of one post's deliveries against each other.
use swarmboard.Prelude.{
  ◌≡◌, ◌≢◌, inl, inr, refl, sym, ◌∙◌, subst, ap, String, Bool, true, false, ◌||◌, Option, none,
  some, List, [], ◌∷◌, map, All, All-mono, any_of, arith, str_eq, eq_iff, Bool-cases, some-inj,
}
use swarmboard.Floats.{Float, Floats}
use swarmboard.Python.{Python}
use swarmboard.Models.{StimulusKind}
use swarmboard.Policies.{AgentView, member}
use swarmboard.Stimuli.{
  StimulusPlan, new_handles, mentioned_handles, agent_by_handle, is_excluded, mention_plans,
  add_mention, fallback_plans, unless_empty, addressed, plan_reactive_stimuli,
}
use swarmboard.Stimuli.Plans.{
  Listed, Under, IsAddressed, mention_plans-Under, agent_by_handle-Listed,
}

-- No text twice.
abbrev NoRepeats : List String → Type 0
NoRepeats [] = Unit
NoRepeats (x ∷ xs) = (member x xs ≡ false) × NoRepeats xs

new_handles-unseen :
    (s : String) (seen hs : List String)
    → member s seen ≡ true
    → member s (new_handles seen hs) ≡ false
unfolding new_handles any_of
new_handles-unseen s seen [] h = refl
new_handles-unseen s seen (x ∷ xs) h = elim (Bool-cases (member x seen)) [
  | inl m ↦ rw m (new_handles-unseen s seen xs h)
  | inr n ↦ ground (arith, n, eq_iff s x, new_handles-unseen s (x ∷ seen) xs (ground (arith, h)))
]

new_handles-NoRepeats : (seen hs : List String) → NoRepeats (new_handles seen hs)
unfolding new_handles any_of
new_handles-NoRepeats seen [] = tt
new_handles-NoRepeats seen (x ∷ xs) = elim (Bool-cases (member x seen)) [
  | inl m ↦ rw m (new_handles-NoRepeats seen xs)
  | inr n ↦ rw n (
    new_handles-unseen x (x ∷ seen) xs (ground (arith, eq_iff x x)),
    new_handles-NoRepeats (x ∷ seen) xs,
  )
]

-- No two plans have the same target.
abbrev pub NoOverlap : List StimulusPlan → Type 0
NoOverlap [] = Unit
NoOverlap (p ∷ ps) = All (λ q. p.target_agent_id ≢ q.target_agent_id) ps × NoOverlap ps

-- Ids are keys: the agents with one id have one handle.
abbrev pub IsKeyed : Python → (String → String) → List AgentView → Type 0
IsKeyed py handle_of agents = All (λ a. handle_of (py.id_text a.id) ≡ py.casefold a.handle) agents

Listed-handle :
    (py : Python) (handle_of : String → String) (agents : List AgentView) (handle id : String)
    → IsKeyed py handle_of agents
    → Listed py agents handle id
    → handle_of id ≡ handle
Listed-handle py handle_of [] handle id k l = absurd l
Listed-handle py handle_of (a ∷ agents) handle id k (inl (e, h, i)) =
    subst (λ x. handle_of x ≡ handle) i (k.0 ∙ h)
Listed-handle py handle_of (a ∷ agents) handle id k (inr l) =
    Listed-handle py handle_of agents handle id k.1 l

module _ (py : Python) (fl : Floats) (boost : Float) (agents : List AgentView)
    (excluded : Option String) (handle_of : String → String)
    (keyed : IsKeyed py handle_of agents) where
  add_mention-NoOverlap :
      (h : String) (hs : List String) (o : Option AgentView) (rest : List StimulusPlan)
      → ((a : AgentView) → o ≡ some a → Listed py agents h (py.id_text a.id))
      → member h hs ≡ false
      → All (Under py fl boost agents excluded hs) rest
      → NoOverlap rest
      → NoOverlap (add_mention py fl boost excluded h o rest)
  unfolding add_mention
  add_mention-NoOverlap h hs none rest l n u r = r
  add_mention-NoOverlap h hs (some a) rest l n u r =
      elim (Bool-cases (str_eq (py.id_text a.id) "" || is_excluded excluded (py.id_text a.id))) [
        | inl x ↦ rw x r
        | inr x ↦ rw x (
          All-mono (Under py fl boost agents excluded hs) _ rest (λ q v e. clash q v.0 v.1 e) u,
          r,
        )
      ]
    where
      clash :
          (q : StimulusPlan) (b : IsAddressed py fl boost agents excluded q)
          → member b.handle hs ≡ true
          → some (py.id_text a.id) ≡ q.target_agent_id
          → ⊥
      clash q b m e =
          let same = some-inj (e ∙ b.target) in
          let mine = Listed-handle py handle_of agents h (py.id_text a.id) keyed (l a refl) in
          let other = Listed-handle py handle_of agents b.handle b.id keyed b.listed in
          ground (arith, sym mine ∙ (ap handle_of same ∙ other))

  mention_plans-NoOverlap :
      (hs : List String) → NoRepeats hs → NoOverlap (mention_plans py fl boost agents excluded hs)
  unfolding mention_plans
  mention_plans-NoOverlap [] n = tt
  mention_plans-NoOverlap (h ∷ hs) n =
      add_mention-NoOverlap h hs (agent_by_handle py h agents) _
        (λ a e. agent_by_handle-Listed py h agents a e) n.0
        (mention_plans-Under py fl boost agents excluded hs) (mention_plans-NoOverlap hs n.1)

  fallback_plans-NoOverlap :
      (o : Option String) (question : Bool) (kind : StimulusKind) (priority : Float)
      → NoOverlap (fallback_plans py fl boost o question kind priority)
  unfolding fallback_plans
  fallback_plans-NoOverlap (some id) question kind priority = (tt, tt)
  fallback_plans-NoOverlap none true kind priority = (tt, tt)
  fallback_plans-NoOverlap none false kind priority = (tt, tt)

  unless_empty-NoOverlap :
      (plans rest : List StimulusPlan)
      → NoOverlap plans
      → NoOverlap rest
      → NoOverlap (unless_empty plans rest)
  unless_empty-NoOverlap [] rest a b = b
  unless_empty-NoOverlap (p ∷ ps) rest a b = a

  -- Where ids are keys, the deliveries of a post have different targets, however often an agent is
  -- mentioned in it.
  pub plan_reactive_stimuli-NoOverlap :
      (find_mentions : String → List String) (body : String) (kind : StimulusKind)
      (priority : Float) (reply_to : Option String)
      → NoOverlap (
          plan_reactive_stimuli py fl boost find_mentions body agents kind priority excluded
            reply_to)
  unfolding plan_reactive_stimuli mentioned_handles
  plan_reactive_stimuli-NoOverlap find_mentions body kind priority reply_to =
      unless_empty-NoOverlap (mention_plans py fl boost agents excluded handles)
        (fallback_plans py fl boost to (py.contains body "?") kind priority)
        (mention_plans-NoOverlap handles
          (new_handles-NoRepeats [] (map py.casefold (find_mentions body))))
        (fallback_plans-NoOverlap to (py.contains body "?") kind priority)
    where
      handles : List String
      handles = mentioned_handles py find_mentions body

      to : Option String
      to = addressed py agents reply_to excluded
