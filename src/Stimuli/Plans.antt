-- ===== src/Stimuli/Plans.antt =====
-- stimuli.py, `plan_reactive_stimuli`: to whom a post's deliveries are addressed.
use swarmboard.Prelude.{
  ◌<◌, ◌≡◌, ◌⊎◌, inl, inr, refl, subst, ap, String, Bool, true, false, ◌&&◌, ◌||◌, not, Option,
  none, some, List, [], ◌∷◌, length, All, All-mono, any_of, arith, str_eq, eq_iff, Bool-cases,
  Option-cases, some-inj,
}
use swarmboard.Floats.{Float, Floats}
use swarmboard.Python.{Python}
use swarmboard.Models.{StimulusKind}
use swarmboard.Policies.{AgentView, member}
use swarmboard.Stimuli.{
  StimulusPlan, mentioned_handles, agent_by_handle, is_excluded, reply_plan, mention_plans,
  add_mention, fallback_plans, unless_empty, has_id, is_listed, addressed, plan_reactive_stimuli,
}

-- An enabled agent of the list with this id, under this handle.
abbrev pub Listed : Python → List AgentView → String → String → Type 0
Listed py [] handle id = ⊥
Listed py (a ∷ agents) handle id =
    ((a.enabled ≡ true) × (py.casefold a.handle ≡ handle) × (py.id_text a.id ≡ id))
    ⊎ Listed py agents handle id

module _ (py : Python) where
  pub agent_by_handle-Listed :
      (handle : String) (agents : List AgentView) (a : AgentView)
      → agent_by_handle py handle agents ≡ some a
      → Listed py agents handle (py.id_text a.id)
  unfolding agent_by_handle
  agent_by_handle-Listed handle [] a h = absurd (ground arith)
  agent_by_handle-Listed handle (b ∷ agents) a h =
      elim (Option-cases (agent_by_handle py handle agents)) [
        | inl n ↦ elim (Bool-cases (b.enabled && str_eq (py.casefold b.handle) handle)) [
          | inl e ↦ inl (
            ground arith,
            ground (arith, eq_iff (py.casefold b.handle) handle),
            ap (λ x. py.id_text x.id) (some-inj (rw e at (rw n at h))),
          )
          | inr e ↦ absurd (ground (arith, rw e at (rw n at h)))
        ]
        | inr (c, f) ↦ inr (
            subst (λ x. Listed py agents handle (py.id_text x.id)) (some-inj (rw f at h))
              (agent_by_handle-Listed handle agents c f))
      ]

  is_listed-Listed :
      (agents rest : List AgentView) (id : String)
      → is_listed py agents rest id ≡ true
      → (handle : String) × Listed py agents handle id
  unfolding is_listed
  is_listed-Listed agents [] id h = absurd (ground arith)
  is_listed-Listed agents (a ∷ rest) id h =
      elim (Bool-cases (has_id py (agent_by_handle py (py.casefold a.handle) agents) id)) [
        | inl e ↦
            (py.casefold a.handle, found (agent_by_handle py (py.casefold a.handle) agents) refl e)
        | inr e ↦ is_listed-Listed agents rest id (ground arith)
      ]
    where
      found :
          (o : Option AgentView)
          → agent_by_handle py (py.casefold a.handle) agents ≡ o
          → has_id py o id ≡ true
          → Listed py agents (py.casefold a.handle) id
      found none f e = absurd (ground arith)
      found (some b) f e =
          subst (Listed py agents (py.casefold a.handle))
            (ground (arith, eq_iff (py.id_text b.id) id))
            (agent_by_handle-Listed (py.casefold a.handle) agents b f)

  module _ (fl : Floats) (boost : Float) (agents : List AgentView) (excluded : Option String) where
    -- The plan is addressed to an enabled agent of the list, and not to the excluded one.
    pub record IsAddressed (p : StimulusPlan) : Type 0 where
      pub id : String
      pub handle : String
      pub target : p.target_agent_id ≡ some id
      pub listed : Listed py agents handle id
      pub kept : is_excluded excluded id ≡ false

    -- Addressed under one of these handles.
    abbrev pub Under : List String → StimulusPlan → Type 0
    Under hs p = (a : IsAddressed p) × (member a.handle hs ≡ true)

    add_mention-Under :
        (h : String) (hs : List String) (o : Option AgentView) (rest : List StimulusPlan)
        → ((a : AgentView) → o ≡ some a → Listed py agents h (py.id_text a.id))
        → All (Under hs) rest
        → All (Under (h ∷ hs)) (add_mention py fl boost excluded h o rest)
    unfolding add_mention any_of
    add_mention-Under h hs o rest l u = go o l
      where
        later : All (Under (h ∷ hs)) rest
        later = All-mono (Under hs) (Under (h ∷ hs)) rest (λ p v. (v.0, ground (arith, v.1))) u

        go :
            (o : Option AgentView)
            → ((a : AgentView) → o ≡ some a → Listed py agents h (py.id_text a.id))
            → All (Under (h ∷ hs)) (add_mention py fl boost excluded h o rest)
        go none l = later
        go (some a) l =
            elim (Bool-cases
              (str_eq (py.id_text a.id) "" || is_excluded excluded (py.id_text a.id))) [
                | inl x ↦ rw x later
                | inr x ↦ rw x (
                  (
                    record {
                      id = py.id_text a.id;
                      handle = h;
                      target = refl;
                      listed = l a refl;
                      kept = ground arith;
                    },
                    ground (arith, eq_iff h h),
                  ),
                  later,
                )
              ]

    pub mention_plans-Under :
        (hs : List String) → All (Under hs) (mention_plans py fl boost agents excluded hs)
    unfolding mention_plans
    mention_plans-Under [] = tt
    mention_plans-Under (h ∷ hs) =
        add_mention-Under h hs (agent_by_handle py h agents) _
          (λ a e. agent_by_handle-Listed h agents a e) (mention_plans-Under hs)

    -- A delivery without a target, or an addressed one.
    abbrev Fair : StimulusPlan → Type 0
    Fair p = (p.target_agent_id ≡ none) ⊎ IsAddressed p

    addressed-IsAddressed :
        (reply_to : Option String) (id : String)
        → addressed py agents reply_to excluded ≡ some id
        → IsAddressed (reply_plan py fl boost id)
    unfolding addressed
    addressed-IsAddressed none id h = absurd (ground arith)
    addressed-IsAddressed (some x) id h =
        elim (Bool-cases
          (not (str_eq x "") && not (is_excluded excluded x) && is_listed py agents agents x)) [
            | inl e ↦
                let (handle, l) = is_listed-Listed agents agents x (ground arith) in
                subst (λ i. IsAddressed (reply_plan py fl boost i)) (some-inj (rw e at h))
                  (record {
                    id = x;
                    handle = handle;
                    target = refl;
                    listed = l;
                    kept = ground arith;
                  })
            | inr e ↦ absurd (ground (arith, rw e at h))
          ]

    fallback_plans-Fair :
        (o : Option String) (question : Bool) (kind : StimulusKind) (priority : Float)
        → ((id : String) → o ≡ some id → IsAddressed (reply_plan py fl boost id))
        → (0 < length (fallback_plans py fl boost o question kind priority))
          × All Fair (fallback_plans py fl boost o question kind priority)
    unfolding fallback_plans
    fallback_plans-Fair (some id) question kind priority h = (omega arith, (inr (h id refl), tt))
    fallback_plans-Fair none true kind priority h = (omega arith, (inl refl, tt))
    fallback_plans-Fair none false kind priority h = (omega arith, (inl refl, tt))

    unless_empty-Fair :
        (plans rest : List StimulusPlan)
        → All Fair plans
        → (0 < length rest) × All Fair rest
        → (0 < length (unless_empty plans rest)) × All Fair (unless_empty plans rest)
    unless_empty-Fair [] rest a b = b
    unless_empty-Fair (p ∷ ps) rest a b = (omega arith, a)

    -- Every post causes a delivery, and a delivery with a target is addressed to an enabled agent
    -- of the list that is not excluded.
    pub plan_reactive_stimuli-IsAddressed :
        (find_mentions : String → List String) (body : String) (kind : StimulusKind)
        (priority : Float) (reply_to : Option String)
        → (0
            < length (
                plan_reactive_stimuli py fl boost find_mentions body agents kind priority excluded
                  reply_to))
          × All
              (λ p. (p.target_agent_id ≡ none) ⊎ IsAddressed p)
              (plan_reactive_stimuli py fl boost find_mentions body agents kind priority excluded
                reply_to)
    unfolding plan_reactive_stimuli
    plan_reactive_stimuli-IsAddressed find_mentions body kind priority reply_to =
        unless_empty-Fair _ _
          (All-mono (Under (mentioned_handles py find_mentions body)) Fair _ (λ p u. inr u.0)
            (mention_plans-Under (mentioned_handles py find_mentions body)))
          (fallback_plans-Fair (addressed py agents reply_to excluded) (py.contains body "?") kind
            priority (addressed-IsAddressed reply_to))
