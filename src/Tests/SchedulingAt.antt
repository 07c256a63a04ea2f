-- ===== src/Tests/SchedulingAt.antt =====
-- The theorems on scheduling and on planned deliveries at concrete inputs.
use swarmboard.Prelude.{
  if◌then◌else◌, str_eq, ◌+◌, ◌*◌, ◌<◌, ◌≤◌, ◌≡◌, ◌⊎◌, refl, true, none, some, List, [], ◌∷◌, ◌++◌,
  All, length, min, arith, inl, inr,
}
use swarmboard.Prelude.Int.{pos}
use swarmboard.Models.{agent_post}
use swarmboard.Scheduler.{
  CandidateScore, default_scheduler, fill, select, Overdue, overlooked_participant, wait_of,
  threshold_of,
}
use swarmboard.Scheduler.Fair.{MaySpeak}
use swarmboard.Scheduler.Selected.{Any, IsAwake, select-MaySpeak}
use swarmboard.Scheduler.Filled.{Magnitudes, IsSound, fill-length}
use swarmboard.Scheduler.Waiting.{overlooked_participant-waiting}
use swarmboard.Scheduler.Priority.{overlooked_participant-most}
use swarmboard.Stimuli.{plan_reactive_stimuli}
use swarmboard.Stimuli.Plans.{IsAddressed, plan_reactive_stimuli-IsAddressed}
use swarmboard.Stimuli.Overlap.{NoOverlap, plan_reactive_stimuli-NoOverlap}
use swarmboard.Tests.Worlds.{thread_one}
use swarmboard.Tests.Agents.{
  whole_numbers, named, view, both_agents, post_by, first_choice, no_words,
}

-- After a post of the first agent, the second is selected.
select-MaySpeak_example :
    All
      (λ id.
        IsAwake (default_scheduler whole_numbers) thread_one none
        × Any
            (λ agent.
              (id ≡ named.id_text agent.id)
              × MaySpeak named no_words whole_numbers
                  (default_scheduler whole_numbers)
                  (post_by 1 1 ∷ [])
                  none
                  9
                  agent)
            both_agents)
      ("two" ∷ [])
unfolding select
select-MaySpeak_example =
    select-MaySpeak named no_words whole_numbers first_choice (default_scheduler whole_numbers)
      both_agents thread_one (post_by 1 1 ∷ []) none (pos 1) 9 none none _ refl

abbrev candidate_one : CandidateScore
candidate_one = record {
  agent_id = "one";
  handle = "ada";
  role = "critic";
  score = 3;
  eligible = true;
  components = [];
  reasons = [];
  selection_weight = none;
}

-- Scores up to ten, and at most five of them.
abbrev small : Magnitudes
small = record { lowest = 0; highest = 10; heaviest = 11; bound = 11 }

small-IsSound : IsSound whole_numbers first_choice (default_scheduler whole_numbers) small 5
small-IsSound = record {
  accepts = λ ws state l m a. ((0, state + 1), refl);
  rises = λ a b c h k. ground arith;
  weakens = λ a b h. ground arith;
  floor = refl;
  reflects = refl;
  floor_light = refl;
  light = λ a b i j. ground (arith, i.1);
  within = λ x h. h;
  multiplied = λ x h k. (ground arith, ground arith);
}

fill-length_example :
    (picked : List CandidateScore) × (noted : List CandidateScore) × (fill whole_numbers
        first_choice
        (default_scheduler whole_numbers)
        2
        (candidate_one ∷ [])
        (candidate_one ∷ [])
        4
      ≡ some (picked, noted))
    × (length picked ≡ min 2 (length (candidate_one ∷ [])))
fill-length_example =
    fill-length whole_numbers first_choice (default_scheduler whole_numbers) small 5 small-IsSound 2
      (candidate_one ∷ []) (candidate_one ∷ []) 4 ((refl, refl), tt) (omega arith)

overlooked_participant-waiting_example :
    (m : Overdue) × (overlooked_participant both_agents ((2 ∷ []) ++ (1 ∷ 1 ∷ 1 ∷ [])) ≡ some m)
overlooked_participant-waiting_example =
    overlooked_participant-waiting both_agents (2 ∷ []) (1 ∷ 1 ∷ 1 ∷ []) (omega arith)
      (inr (inl (refl, (refl, (refl, tt)))))

abbrev overdue_two : Overdue
overdue_two = record { agent = view 2 "bo"; wait = 3; threshold = 3 }

overlooked_participant-most_example :
    (3 ≡ wait_of 2 (2 ∷ 1 ∷ 1 ∷ 1 ∷ []))
    × (3 ≡ threshold_of (view 2 "bo"))
    × (3 ≤ 3)
    × All
        (λ agent.
          threshold_of agent ≤ wait_of agent.id (2 ∷ 1 ∷ 1 ∷ 1 ∷ [])
          → wait_of agent.id (2 ∷ 1 ∷ 1 ∷ 1 ∷ []) * 3 ≤ 3 * threshold_of agent)
        both_agents
unfolding overlooked_participant
overlooked_participant-most_example =
    overlooked_participant-most both_agents (2 ∷ 1 ∷ 1 ∷ 1 ∷ []) overdue_two refl

plan_reactive_stimuli-IsAddressed_example :
    (0
      < length (
          plan_reactive_stimuli named whole_numbers 0
            (λ body. "bo" ∷ "bo" ∷ [])
            "@bo @bo"
            both_agents
            agent_post
            2
            (some "one")
            none))
    × All
        (λ p.
          (p.target_agent_id ≡ none) ⊎ IsAddressed named whole_numbers 0 both_agents (some "one") p)
        (plan_reactive_stimuli named whole_numbers 0
          (λ body. "bo" ∷ "bo" ∷ [])
          "@bo @bo"
          both_agents
          agent_post
          2
          (some "one")
          none)
plan_reactive_stimuli-IsAddressed_example =
    plan_reactive_stimuli-IsAddressed named whole_numbers 0 both_agents (some "one")
      (λ body. "bo" ∷ "bo" ∷ []) "@bo @bo" agent_post 2 none

plan_reactive_stimuli-NoOverlap_example : NoOverlap (
    plan_reactive_stimuli named whole_numbers 0
      (λ body. "bo" ∷ "bo" ∷ [])
      "@bo @bo"
      both_agents
      agent_post
      2
      (some "one")
      none)
plan_reactive_stimuli-NoOverlap_example =
    plan_reactive_stimuli-NoOverlap named whole_numbers 0 both_agents (some "one")
      (λ id. if str_eq id "one" then "ada" else "bo") (refl, (refl, tt)) (λ body. "bo" ∷ "bo" ∷ [])
      "@bo @bo" agent_post 2 none
