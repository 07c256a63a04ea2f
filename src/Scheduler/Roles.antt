-- ===== src/Scheduler/Roles.antt =====
-- scheduler.py: the tests behind a score, and the role and the words of an agent.
use swarmboard.Prelude.{
  ℕ, String, Bool, true, false, ◌&&◌, ◌||◌, Option, none, some, List, [], ◌∷◌, ◌++◌, map, count_if,
  any_of, ◌==◌, str_eq, if◌then◌else◌,
}
use swarmboard.Prelude.Int.{ℤ, pos, negsuc}
use swarmboard.Json.{Json, text, array, Items, nil, cons, Dict, get}
use swarmboard.Floats.{Float}
use swarmboard.Python.{Python}
use swarmboard.Models.{Post}
use swarmboard.Policies.{is_text, distinct, join, AgentView}
use swarmboard.Scheduler.Config.{SchedulerTools, is_truthy}

-- Components and reasons that one test adds, or none.
pub record Finding : Type 0 where
  pub blocks : Bool
  pub components : List (String × Float)
  pub reasons : List String

abbrev pub nothing_found : Finding
nothing_found = record { blocks = false; components = []; reasons = [] }

abbrev pub when_found : Bool → Finding → Finding
when_found true f = f
when_found false f = nothing_found

-- Findings in the order of the tests.
unfoldable pub gather : List Finding → Finding
gather [] = nothing_found
gather (f ∷ fs) =
    let rest = gather fs in
    record {
      blocks = f.blocks || rest.blocks;
      components = f.components ++ rest.components;
      reasons = f.reasons ++ rest.reasons;
    }

-- `quota_remaining.get(agent_id, 1) <= 0`
abbrev pub is_exhausted : Option ℤ → Bool
is_exhausted none = false
is_exhausted (some (pos n)) = n == 0
is_exhausted (some (negsuc n)) = true

unfoldable pub quota_of : String → List (String × ℤ) → Option ℤ
quota_of id [] = none
quota_of id ((k, q) ∷ rest) = if str_eq k id then some q else quota_of id rest

unfoldable pub quota_spent : Option (List (String × ℤ)) → String → Bool
unfolding quota_of
quota_spent none id = false
quota_spent (some quotas) id = is_exhausted (quota_of id quotas)

-- `a or b`
abbrev pub if_empty : String → String → String
if_empty a b = if str_eq a "" then b else a

module _ (py : Python) where
  -- `_post_agent_id`
  abbrev pub post_agent_id : Post → Option String
  post_agent_id post = elim post.author_agent_id [ none ↦ none | some a ↦ some (py.id_text a) ]

  abbrev pub posts_of : String → List Post → ℕ
  unfolding count_if
  posts_of id posts = count_if (λ post. is_text (post_agent_id post) id) posts

  abbrev pub is_last_of : String → Option Post → Bool
  is_last_of id none = false
  is_last_of id (some post) = is_text (post_agent_id post) id

module _ (py : Python) (tools : SchedulerTools) where
  -- `settings.get("scheduler_role") or settings.get("role")`, as a text.
  unfoldable pub configured_role : Dict → Option String
  unfolding get
  configured_role settings = elim (get "scheduler_role" settings) [
    | some v ↦ if is_truthy v then some (tools.json_text v) else second (get "role" settings)
    | none ↦ second (get "role" settings)
  ]
    where
      second : Option Json → Option String
      second none = none
      second (some v) = if is_truthy v then some (tools.json_text v) else none

  abbrev pub role_aliases : List (String × List String)
  role_aliases =
      ("fact_checker", "receipts" ∷ "evidence checker" ∷ "source checker" ∷ [])
      ∷ ("synthesizer", "synthesizer" ∷ "thread weaver" ∷ "recapper" ∷ "connector" ∷ [])
      ∷ ("moderator", "moderator" ∷ "community host" ∷ "host" ∷ [])
      ∷ ("critic", "critic" ∷ "friendly skeptic" ∷ "skeptic" ∷ "sideeye" ∷ [])
      ∷ ("proposer", "proposer" ∷ "conversation starter" ∷ "starter" ∷ "spark" ∷ [])
      ∷ ("specialist", "specialist" ∷ "practical regular" ∷ "neighbor" ∷ [])
      ∷ []

  unfoldable pub role_in : String → List (String × List String) → String
  unfolding any_of
  role_in source [] = "specialist"
  role_in source ((role, aliases) ∷ rest) =
      if any_of (py.contains source) aliases then role else role_in source rest

  unfoldable pub agent_role : AgentView → String
  unfolding configured_role role_in
  agent_role agent =
      let source = py.casefold (elim (configured_role agent.settings) [
        | some r ↦ r
        | none ↦ if_empty agent.role (if_empty agent.persona agent.handle)
      ]) in
      if py.contains source "fact" && (py.contains source "check" || py.contains source "verify")
      then "fact_checker"
      else role_in source role_aliases

  unfoldable pub words : String → List String
  unfolding distinct
  words s = distinct (map py.casefold (tools.find_words s))

  unfoldable pub contains_mention : String → String → Bool
  contains_mention body handle = if str_eq handle "" then false else tools.has_mention body handle

  unfoldable pub item_texts : Items → List String
  item_texts nil = []
  item_texts (cons v rest) = tools.json_text v ∷ item_texts rest

  -- `expertise` in the settings: a text, or a list of texts.
  abbrev pub expertise_text : Option Json → String
  unfolding item_texts join
  expertise_text (some (text s)) = s
  expertise_text (some (array items)) = join " " (item_texts items)
  expertise_text _ = ""
