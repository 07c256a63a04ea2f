-- ===== src/Adapters/Effects.antt =====
-- run_policy.py and policies.py: the adapters of a permissive research run.
use Prim.Native.String.{count}
use swarmboard.Prelude.{
  ◌≤◌, String, ◌≡◌, ◌↔◌, refl, true, false, Option, none, some, List, All, arith, or_else, is_some,
}
use swarmboard.Optional.{◌>>=◌}
use swarmboard.Json.{Json}
use swarmboard.Floats.{Floats}
use swarmboard.Python.{Python}
use swarmboard.Actions.{AgentAction, is_pass, is_new_thread}
use swarmboard.RunPolicy.{normalize_config, is_research, permissive}
use swarmboard.RunPolicy.Normal.{normalize_config_stable}
use swarmboard.Models.{Run, Post, Thread, Time}
use swarmboard.Policies.{
  AgentView, PolicyConfig, TextTools, denies, thread_closed, title_too_long, parent_of, validate,
  action_fingerprint, thread_text, normalize_text, looked_back, member, violates_consecutive_cap,
  violates_ping_pong,
}
use swarmboard.Policies.Accepted.{IsPermitted, IsFresh, validate-accepts}
use swarmboard.Adapters.{policy_for, fenced_actions, effective_action_config, cooled, adapt_agent}

-- The policy of a run is the one that its config was normalized to.
policy_for-normal :
    (j : Json) (run : Run)
    → normalize_config j ≡ some run.config
    → policy_for run ≡ some run.config.policy
unfolding policy_for
policy_for-normal j run h = rw (normalize_config_stable j run.config h, ◌>>=◌) refl

-- What every run asks of an action: permissions, an open thread, lengths, and a known parent.
pub record IsSound (base : PolicyConfig) (agent : AgentView) (thread : Option Thread) (py : Python)
    (posts : List Post) (action : AgentAction) : Type 0 where
  pub enabled : agent.enabled ≡ true
  pub may_post : denies agent.permissions "speak" "can_post" ≡ false
  pub thread_open : thread_closed thread ≡ false
  pub short_body : count (or_else action.body "") ≤ base.max_body_chars
  pub short_title : title_too_long base.max_title_chars action.title ≡ false
  pub may_open :
      is_new_thread action.action ≡ true
      → denies agent.permissions "new_thread" "can_create_threads" ≡ false
  pub parent_known :
      (id : String)
      → action.parent_post_id ≡ some id
      → base.require_known_parent ≡ true
      → is_some (parent_of py id posts) ≡ true

module _ (py : Python) (tools : TextTools) (fl : Floats) where
  no_cap : (posts : List Post) (me : String) → violates_consecutive_cap py posts me none ≡ false
  unfolding violates_consecutive_cap
  no_cap posts me = refl

  no_limit : (posts : List Post) (me : String) → violates_ping_pong py posts me 0 ≡ false
  unfolding violates_ping_pong
  no_limit posts me = ground arith

  -- In a research run under the permissive policy, the adapters return, and then exactly the sound
  -- actions that are no passes are accepted: cooldowns, repetition and turn-taking do not count.
  pub permissive-accepts :
      (base : PolicyConfig) (agent : AgentView) (thread : Option Thread) (posts : List Post)
      (known : List String) (now : Time) (action : AgentAction) (j : Json) (run : Run)
      → normalize_config j ≡ some run.config
      → is_research run.config ≡ true
      → run.config.policy ≡ permissive
      → is_pass action.action ≡ false
      → (config : PolicyConfig) × (view : AgentView) × (effective_action_config run base
          ≡ some config)
        × (adapt_agent run agent ≡ some view)
        × (((validate py tools fl config action view thread posts known now).accepted ≡ true)
            ↔ IsSound base agent thread py posts action)
  unfolding effective_action_config adapt_agent fenced_actions cooled permissive
  permissive-accepts base agent thread posts known now action j run h r p n = (
    fenced_actions permissive base,
    cooled permissive agent,
    rw (r, policy_for-normal j run h, p, ◌>>=◌) refl,
    rw (r, policy_for-normal j run h, p, ◌>>=◌) refl,
    both (
        validate-accepts py tools fl (fenced_actions permissive base) (cooled permissive agent)
          thread posts now action known n),
  )
    where
      me : String
      me = py.id_text agent.id

      both :
          ((validate py tools fl
                (fenced_actions permissive base)
                action
                (cooled permissive agent)
                thread
                posts
                known
                now).accepted
              ≡ true)
            ↔ (IsPermitted py tools fl
                  (fenced_actions permissive base)
                  (cooled permissive agent)
                  thread
                  posts
                  now
                  action
                × (true ≡ false
                    → (member
                          (action_fingerprint py tools action (some me) (thread_text py thread))
                          known
                        ≡ false)
                      × All
                          (IsFresh py tools fl (fenced_actions permissive base) (
                            normalize_text py tools base.exact_duplicate_case_sensitive
                              (or_else action.body "")))
                          (looked_back base.duplicate_lookback posts)))
          → ((validate py tools fl
                (fenced_actions permissive base)
                action
                (cooled permissive agent)
                thread
                posts
                known
                now).accepted
              ≡ true)
            ↔ IsSound base agent thread py posts action
      both (only, if_so) = (
        (λ a.
            let q = (only a).0 in
            record {
              enabled = q.enabled;
              may_post = q.may_post;
              thread_open = q.thread_open;
              short_body = q.short_body;
              short_title = q.short_title;
              may_open = q.may_open;
              parent_known = q.parent_known;
            }),
        (λ q. if_so (
          record {
            enabled = q.enabled;
            may_post = q.may_post;
            thread_open = q.thread_open;
            rested = λ e. absurd (ground arith);
            short_body = q.short_body;
            short_title = q.short_title;
            may_open = q.may_open;
            parent_known = q.parent_known;
            not_own_parent = λ id e l. absurd (ground arith);
            not_last = λ l. absurd (ground arith);
            below_cap = no_cap posts me;
            no_ping_pong = no_limit posts me;
          },
          λ l. absurd (ground arith),
        )),
      )
