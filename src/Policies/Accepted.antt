-- ===== src/Policies/Accepted.antt =====
-- policies.py, `ActionPolicy.validate`: which actions it accepts.
use Prim.Native.String.{count}
use swarmboard.Prelude.{
  ◌≤◌, min, String, ◌≡◌, ◌≢◌, ◌↔◌, inl, inr, refl, Bool, true, false, not, ◌&&◌, Option, none, some,
  List, [], ◌∷◌, All, arith, str_eq, eq_iff, or_else, is_some, Bool-cases, ltb, subst, some-inj,
}
use swarmboard.Floats.{Floats}
use swarmboard.Python.{Python}
use swarmboard.Actions.{AgentAction, is_pass, is_new_thread}
use swarmboard.Models.{Time, Post, Thread}
use swarmboard.Policies.Config.{
  PolicyConfig, TextTools, member, normalize_text, action_fingerprint, text_similarity,
}
use swarmboard.Policies.Streaks.{violates_consecutive_cap, violates_ping_pong}
use swarmboard.Policies.Validate.{
  AgentView, Refusal, denies, thread_closed, first_refusal, is_cooling, repeated, looked_back,
  newest, is_by, check_agent, title_too_long, check_text, parent_of, check_parent, check_turns,
  check_repeats, check_rules, agent_checks, text_checks, turn_checks, parent_checks, thread_text,
  validate, ◌or_check◌, decide,
}

-- No check refuses exactly when every test is false.
first_refusal-none :
    (checks : List (Bool × String)) → (first_refusal checks ≡ none) ↔ All (λ c. c.0 ≡ false) checks
unfolding first_refusal
first_refusal-none [] = ((λ h. tt), (λ h. refl))
first_refusal-none ((true, reason) ∷ checks) = ((λ h. absurd (cc)), (λ h. absurd (cc)))
first_refusal-none ((false, reason) ∷ checks) =
    let rest = first_refusal-none checks in ((λ h. (refl, rest.0 h)), (λ h. rest.1 h.1))

known_or_lax : (a b : Bool) → (b ≡ true → a ≡ true) → (not a && b) ≡ false
known_or_lax true b h = refl
known_or_lax false true h = absurd (ground (arith, h refl))
known_or_lax false false h = refl

or_check-only : {a b : Option Refusal} → (a or_check b) ≡ none → (a ≡ none) × (b ≡ none)
or_check-only {a = none} h = (refl, h)
or_check-only {a = some r} h = absurd (cc)

or_check-if : {a b : Option Refusal} → a ≡ none → b ≡ none → (a or_check b) ≡ none
or_check-if {a = none} e h = h
or_check-if {a = some r} e h = absurd (cc)

and-false : (a b : Bool) → (a ≡ true → b ≡ false) → (a && b) ≡ false
and-false true b h = h refl
and-false false b h = refl

not_and-false : (a b : Bool) → (a ≡ false → b ≡ false) → (not a && b) ≡ false
not_and-false true b h = refl
not_and-false false b h = h refl

module _ (py : Python) (tools : TextTools) (fl : Floats) (config : PolicyConfig) where
  abbrev cased : String → String
  cased = normalize_text py tools config.exact_duplicate_case_sensitive

  -- The post neither says the same nor, where both texts are long enough, nearly the same.
  pub record IsFresh (normalized : String) (post : Post) : Type 0 where
    pub differs : normalized ≢ cased post.body
    pub unlike :
        config.min_similarity_chars ≤ min (count normalized) (count (cased post.body))
        → fl.at_most config.similarity_threshold
            (text_similarity py tools fl normalized (cased post.body))
          ≡ false

  repeated-none :
      (normalized : String) (posts : List Post)
      → (repeated py tools fl config normalized posts ≡ none) ↔ All (IsFresh normalized) posts
  unfolding repeated
  repeated-none normalized [] = ((λ h. tt), (λ h. refl))
  repeated-none normalized (post ∷ posts) = (
    (λ h. (
      record {
        differs = λ e. ground (arith, eq_iff normalized (cased post.body));
        unlike = λ l. ground arith;
      },
      (repeated-none normalized posts).0 (ground arith),
    )),
    (λ h. elim (Bool-cases (str_eq normalized (cased post.body))) [
      | inl e ↦ absurd (h.0.differs (ground (arith, eq_iff normalized (cased post.body))))
      | inr d ↦
          elim (Bool-cases
            (ltb (min (count normalized) (count (cased post.body))) config.min_similarity_chars)) [
              | inl s ↦ ground (arith, (repeated-none normalized posts).1 h.1)
              | inr l ↦
                  ground (arith, (repeated-none normalized posts).1 h.1, h.0.unlike (ground arith))
            ]
    ]),
  )

  decide-accepted :
      (rules : Option Refusal) (lax : Bool) (repeats : Option Refusal) (a : AgentAction)
      (fingerprint : String)
      → ((decide py tools fl config rules lax repeats a fingerprint).accepted ≡ true)
        ↔ ((rules ≡ none) × (lax ≡ false → repeats ≡ none))
  decide-accepted (some r) lax repeats a fingerprint =
      ((λ h. absurd (ground arith)), (λ h. absurd (ground (arith, h.0))))
  decide-accepted none true repeats a fingerprint =
      ((λ h. (refl, λ l. absurd (ground arith))), (λ h. refl))
  decide-accepted none false none a fingerprint = ((λ h. (refl, λ l. refl)), (λ h. refl))
  decide-accepted none false (some r) a fingerprint =
      ((λ h. absurd (ground arith)), (λ h. absurd (ground (arith, h.1 refl))))

  check_repeats-none :
      (action : AgentAction) (fingerprint : String) (posts : List Post) (known : List String)
      → (check_repeats py tools fl config action fingerprint posts known ≡ none) ↔ (
          (member fingerprint known ≡ false)
          × All
              (IsFresh (cased (or_else action.body "")))
              (looked_back config.duplicate_lookback posts))
  unfolding check_repeats
  check_repeats-none action fingerprint posts known = elim (Bool-cases (member fingerprint known)) [
    | inl m ↦ ((λ h. absurd (ground arith)), (λ h. absurd (ground (arith, h.0))))
    | inr n ↦
        let fresh =
          repeated-none (cased (or_else action.body ""))
            (looked_back config.duplicate_lookback posts) in
        ((λ h. (n, fresh.0 (ground arith))), (λ h. ground (arith, fresh.1 h.1)))
  ]

  module _ (agent : AgentView) (thread : Option Thread) (posts : List Post) (now : Time) where
    abbrev me : String
    me = py.id_text agent.id

    -- What the rules ask of an action, of its agent, of the thread and of the posts before it.
    pub record IsPermitted (action : AgentAction) : Type 0 where
      pub enabled : agent.enabled ≡ true
      pub may_post : denies agent.permissions "speak" "can_post" ≡ false
      pub thread_open : thread_closed thread ≡ false
      pub rested :
          config.enforce_cooldown ≡ true
          → is_cooling fl agent.cooldown_seconds agent.last_spoke_at now ≡ false
      pub short_body : count (or_else action.body "") ≤ config.max_body_chars
      pub short_title : title_too_long config.max_title_chars action.title ≡ false
      pub may_open :
          is_new_thread action.action ≡ true
          → denies agent.permissions "new_thread" "can_create_threads" ≡ false
      pub parent_known :
          (id : String)
          → action.parent_post_id ≡ some id
          → config.require_known_parent ≡ true
          → is_some (parent_of py id posts) ≡ true
      pub not_own_parent :
          (id : String)
          → action.parent_post_id ≡ some id
          → config.allow_self_replies ≡ false
          → is_by py (parent_of py id posts) me ≡ false
      pub not_last : config.allow_consecutive_posts ≡ false → is_by py (newest posts) me ≡ false
      pub below_cap : violates_consecutive_cap py posts me config.consecutive_turn_cap ≡ false
      pub no_ping_pong : violates_ping_pong py posts me config.max_agent_ping_pong_posts ≡ false

    check_parent-none :
        (parent : Option String)
        → (check_parent py tools fl config parent posts me ≡ none) ↔ (
            ((id : String)
              → parent ≡ some id
              → config.require_known_parent ≡ true
              → is_some (parent_of py id posts) ≡ true)
            × ((id : String)
                → parent ≡ some id
                → config.allow_self_replies ≡ false
                → is_by py (parent_of py id posts) me ≡ false))
    unfolding check_parent
    check_parent-none none = ((λ h. ((λ id e. absurd (cc)), (λ id e. absurd (cc)))), (λ h. refl))
    check_parent-none (some id) = (
      (λ h.
          let (k, (o, u)) =
            (first_refusal-none (parent_checks py tools fl config id posts me)).0 h in
          (
            (λ id' e l.
                subst (λ i. is_some (parent_of py i posts) ≡ true) (some-inj e) (ground arith)),
            (λ id' e l.
                subst (λ i. is_by py (parent_of py i posts) me ≡ false) (some-inj e)
                  (ground arith)),
          )),
      (λ (k, o). (first_refusal-none (parent_checks py tools fl config id posts me)).1 (
        known_or_lax (is_some (parent_of py id posts)) config.require_known_parent (k id refl),
        (not_and-false _ _ (λ e. o id refl e), tt),
      )),
    )

    -- The rules refuse nothing exactly when all that they ask holds.
    check_rules-IsPermitted :
        (action : AgentAction)
        → (check_rules py tools fl config action agent thread posts now ≡ none) ↔ IsPermitted action
    unfolding check_rules check_agent check_text check_turns
    check_rules-IsPermitted action = (
      (λ h.
          let (a, h1) = or_check-only h in
          let (b, h2) = or_check-only h1 in
          let (c, d) = or_check-only h2 in
          let (a1, (a2, (a3, (a4, u)))) =
            (first_refusal-none (agent_checks py tools fl config agent thread now)).0 a in
          let (b1, (b2, (b3, v))) =
            (first_refusal-none (text_checks py tools fl config action agent)).0 b in
          let (d1, (d2, (d3, x))) =
            (first_refusal-none (turn_checks py tools fl config posts me)).0 d in
          let (c1, c2) = (check_parent-none action.parent_post_id).0 c in
          record {
            enabled = ground arith;
            may_post = a2;
            thread_open = a3;
            rested = λ e. ground arith;
            short_body = ground arith;
            short_title = b2;
            may_open = λ e. ground arith;
            parent_known = c1;
            not_own_parent = c2;
            not_last = λ e. ground arith;
            below_cap = d2;
            no_ping_pong = d3;
          }),
      (λ p.
          or_check-if
            ((first_refusal-none (agent_checks py tools fl config agent thread now)).1 (
              ground (arith, p.enabled),
              (p.may_post, (p.thread_open, (and-false _ _ p.rested, tt))),
            ))
            (or_check-if
              ((first_refusal-none (text_checks py tools fl config action agent)).1
                (ground (arith, p.short_body), (p.short_title, (and-false _ _ p.may_open, tt))))
              (or_check-if
                ((check_parent-none action.parent_post_id).1 (p.parent_known, p.not_own_parent))
                ((first_refusal-none (turn_checks py tools fl config posts me)).1
                  (not_and-false _ _ p.not_last, (p.below_cap, (p.no_ping_pong, tt))))))),
    )

    -- An action that is not a pass is accepted exactly when the rules permit it and, unless
    -- repetition is allowed, it was not committed before and is fresh against each post looked
    -- back at.
    pub validate-accepts :
        (action : AgentAction) (known : List String)
        → is_pass action.action ≡ false
        → ((validate py tools fl config action agent thread posts known now).accepted ≡ true) ↔ (
            IsPermitted action
            × (config.allow_repeated_posts ≡ false
                → (member
                      (action_fingerprint py tools action (some me) (thread_text py thread))
                      known
                    ≡ false)
                  × All
                      (IsFresh (cased (or_else action.body "")))
                      (looked_back config.duplicate_lookback posts)))
    unfolding validate
    validate-accepts action known e = rw e (
        let done =
          decide-accepted (check_rules py tools fl config action agent thread posts now)
            config.allow_repeated_posts (check_repeats py tools fl config action print posts known)
            action print in
        let rules = check_rules-IsPermitted action in
        let repeats = check_repeats-none action print posts known in
        (
          (λ h. (rules.0 (done.0 h).0, λ l. repeats.0 ((done.0 h).1 l))),
          (λ (p, f). done.1 (rules.1 p, λ l. repeats.1 (f l))),
        ))
      where
        print : String
        print = action_fingerprint py tools action (some me) (thread_text py thread)
