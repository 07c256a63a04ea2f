-- ===== src/Tests/PoliciesAt.antt =====
-- The theorems on actions and policies at concrete inputs.
use swarmboard.Prelude.{
  ◌+◌, ◌<◌, ◌≤◌, ◌≡◌, ◌≢◌, ◌↔◌, String, refl, true, false, some, [], ◌∷◌, ◌++◌, All, length, take,
  arith,
}
use swarmboard.Json.{Json, object, field, text, end}
use swarmboard.RunPolicy.{RunConfig, research, permissive, normalize_config}
use swarmboard.Models.{Run, running}
use swarmboard.Actions.{validate_action_fields}
use swarmboard.Actions.WellFormed.{IsWellFormed, validate_action_fields-IsWellFormed}
use swarmboard.Policies.{
  AgentView, PolicyConfig, default_config, validate, member, action_fingerprint, thread_text,
  normalize_text, looked_back, last, identities, identity, violates_ping_pong,
  violates_consecutive_cap, reversed,
}
use swarmboard.Policies.Accepted.{IsPermitted, IsFresh, validate-accepts}
use swarmboard.Policies.PingPong.{zigzag, violates_ping_pong-zigzag}
use swarmboard.Policies.Cap.{violates_consecutive_cap-streak}
use swarmboard.Adapters.{effective_action_config, adapt_agent}
use swarmboard.Adapters.Effects.{IsSound, permissive-accepts}
use swarmboard.Tests.Worlds.{plain, run_in, thread_one}
use swarmboard.Tests.Agents.{whole_numbers, short_texts, named, view, post_by, answer_yes}

validate-accepts_example :
    ((validate named short_texts whole_numbers
        (default_config whole_numbers)
        answer_yes
        (view 1 "ada")
        (some thread_one)
        (post_by 2 1 ∷ [])
        []
        9).accepted
      ≡ true)
    ↔ (IsPermitted named short_texts whole_numbers
          (default_config whole_numbers)
          (view 1 "ada")
          (some thread_one)
          (post_by 2 1 ∷ [])
          9
          answer_yes
        × (false ≡ false
            → (member
                  (action_fingerprint named short_texts answer_yes
                    (some "one")
                    (thread_text named (some thread_one)))
                  []
                ≡ false)
              × All
                  (IsFresh named short_texts whole_numbers
                    (default_config whole_numbers)
                    (normalize_text named short_texts false "yes"))
                  (looked_back 40 (post_by 2 1 ∷ []))))
validate-accepts_example =
    validate-accepts named short_texts whole_numbers (default_config whole_numbers) (view 1 "ada")
      (some thread_one) (post_by 2 1 ∷ []) 9 answer_yes [] refl

violates_ping_pong-zigzag_example :
    (violates_ping_pong named (post_by 1 1 ∷ post_by 2 2 ∷ []) "one" 2 ≡ true) ↔ (
      (0 < 2)
      × (x : String) × (y : String) × (x ≢ y)
      × (last (2 + 1) (identities named (post_by 1 1 ∷ post_by 2 2 ∷ []) ++ ("one" ∷ []))
          ≡ zigzag (2 + 1) x y))
violates_ping_pong-zigzag_example =
    violates_ping_pong-zigzag named (post_by 1 1 ∷ post_by 2 2 ∷ []) "one" 2

violates_consecutive_cap-streak_example :
    (violates_consecutive_cap named (post_by 2 1 ∷ post_by 1 2 ∷ []) "one" (some 1) ≡ true) ↔ (
      (1 ≤ length (post_by 2 1 ∷ post_by 1 2 ∷ []))
      × All
          (λ post. identity named post ≡ some "one")
          (take 1 (reversed (post_by 2 1 ∷ post_by 1 2 ∷ []))))
violates_consecutive_cap-streak_example =
    violates_consecutive_cap-streak named "one" (post_by 2 1 ∷ post_by 1 2 ∷ []) 1 (omega arith)

validate_action_fields-IsWellFormed_example : IsWellFormed plain answer_yes
unfolding validate_action_fields
validate_action_fields-IsWellFormed_example =
    validate_action_fields-IsWellFormed plain answer_yes answer_yes refl

-- The config of a permissive research run, as it is supplied.
abbrev supplied : Json
supplied = object (field "session_type" (text "research") (field "policy" (text "permissive") end))

abbrev permissive_run : Run
permissive_run = record (run_in running) {
  config = record { session_type = research; policy = permissive; settings = [] };
}

permissive-accepts_example :
    (config : PolicyConfig) × (adapted : AgentView) × (effective_action_config permissive_run
        (default_config whole_numbers)
      ≡ some config)
    × (adapt_agent permissive_run (view 1 "ada") ≡ some adapted)
    × (((validate named short_texts whole_numbers config answer_yes adapted
            (some thread_one)
            (post_by 1 1 ∷ [])
            []
            9).accepted
          ≡ true)
        ↔ IsSound
            (default_config whole_numbers)
            (view 1 "ada")
            (some thread_one)
            named
            (post_by 1 1 ∷ [])
            answer_yes)
unfolding normalize_config swarmboard.RunPolicy.is_research
permissive-accepts_example =
    permissive-accepts named short_texts whole_numbers (default_config whole_numbers) (view 1 "ada")
      (some thread_one) (post_by 1 1 ∷ []) [] 9 answer_yes supplied permissive_run refl refl refl
      refl
