-- ===== src/Stimuli.antt =====
-- swarmboard/stimuli.py: the deliveries that a post causes.
pub mod Plans
pub mod Overlap
use Prim.Native.String.{◌++◌ as then_text}
use swarmboard.Prelude.{
  ℕ, String, Bool, true, false, ◌&&◌, ◌||◌, not, Option, none, some, List, [], ◌∷◌, map, any_of,
  str_eq, if◌then◌else◌,
}
use swarmboard.Json.{Dict, text}
use swarmboard.Floats.{Float, Floats, max_of}
use swarmboard.Python.{Python}
use swarmboard.Models.{
  StimulusKind, human_post, agent_post, mention, unanswered_question, idle_revisit, new_evidence,
  manual_step, recovery,
}
use swarmboard.Deliveries.{kind_text}
use swarmboard.Policies.{AgentView}

pub record StimulusPlan : Type 0 where
  pub kind : StimulusKind
  pub target_agent_id : Option String
  pub priority : Float
  pub payload : Dict
  pub dedupe_label : String

-- `kind.replace("_", "-")`
abbrev pub dashed_kind : StimulusKind → String
dashed_kind human_post = "human-post"
dashed_kind agent_post = "agent-post"
dashed_kind mention = "mention"
dashed_kind unanswered_question = "unanswered-question"
dashed_kind idle_revisit = "idle-revisit"
dashed_kind new_evidence = "new-evidence"
dashed_kind manual_step = "manual-step"
dashed_kind recovery = "recovery"

-- `mentioned_handles`, from the handles seen so far on: the first occurrence of each handle.
unfoldable pub new_handles : List String → List String → List String
unfolding any_of
new_handles seen [] = []
new_handles seen (h ∷ hs) =
    let later = new_handles (h ∷ seen) hs in
    if any_of (str_eq h) seen then new_handles seen hs else h ∷ later

-- The handles that `_MENTION_RE.finditer` matches in a body are a parameter.
unfoldable pub mentioned_handles : Python → (String → List String) → String → List String
unfolding new_handles
mentioned_handles py find_mentions body = new_handles [] (map py.casefold (find_mentions body))

-- `by_handle.get(handle)`: of enabled agents with one handle, the last counts.
unfoldable pub agent_by_handle : Python → String → List AgentView → Option AgentView
agent_by_handle py handle [] = none
agent_by_handle py handle (a ∷ agents) = elim (agent_by_handle py handle agents) [
  | some b ↦ some b
  | none ↦ if a.enabled && str_eq (py.casefold a.handle) handle then some a else none
]

abbrev pub is_excluded : Option String → String → Bool
is_excluded none id = false
is_excluded (some x) id = str_eq id x

-- `if plans: return plans`
abbrev pub unless_empty : List StimulusPlan → List StimulusPlan → List StimulusPlan
unless_empty [] rest = rest
unless_empty (p ∷ ps) rest = p ∷ ps

module _ (py : Python) where
  abbrev pub has_id : Option AgentView → String → Bool
  has_id none id = false
  has_id (some a) id = str_eq (py.id_text a.id) id

  -- Whether an agent of `by_handle` has this id: the one that its handle leads to.
  unfoldable pub is_listed : List AgentView → List AgentView → String → Bool
  unfolding agent_by_handle
  is_listed agents [] id = false
  is_listed agents (a ∷ rest) id =
      let later = is_listed agents rest id in
      if has_id (agent_by_handle py (py.casefold a.handle) agents) id then true else later

  unfoldable pub addressed : List AgentView → Option String → Option String → Option String
  unfolding is_listed
  addressed agents none excluded = none
  addressed agents (some id) excluded =
      if not (str_eq id "") && not (is_excluded excluded id) && is_listed agents agents id
      then some id
      else none

module _ (py : Python) (fl : Floats) (boost : Float) where
  abbrev pub mention_plan : String → String → StimulusPlan
  mention_plan id handle = record {
    kind = mention;
    target_agent_id = some id;
    priority = fl.plus (fl.literal "10.0") boost;
    payload = ("reason", text "direct_mention") ∷ ("mentioned_handle", text handle) ∷ [];
    dedupe_label = then_text "mention:" id;
  }

  abbrev pub reply_plan : String → StimulusPlan
  reply_plan id = record {
    kind = mention;
    target_agent_id = some id;
    priority = fl.plus (fl.literal "9.0") boost;
    payload = ("reason", text "reply_to_author") ∷ [];
    dedupe_label = then_text "reply:" id;
  }

  -- One handle of the loop, with the agent that it leads to.
  unfoldable pub add_mention :
      Option String → String → Option AgentView → List StimulusPlan → List StimulusPlan
  add_mention excluded h none rest = rest
  add_mention excluded h (some a) rest =
      if str_eq (py.id_text a.id) "" || is_excluded excluded (py.id_text a.id)
      then rest
      else mention_plan (py.id_text a.id) h ∷ rest

  -- The loop over the mentioned handles.
  unfoldable pub mention_plans : List AgentView → Option String → List String → List StimulusPlan
  unfolding agent_by_handle add_mention
  mention_plans agents excluded [] = []
  mention_plans agents excluded (h ∷ hs) =
      add_mention excluded h (agent_by_handle py h agents) (mention_plans agents excluded hs)

  abbrev pub question_plan : Float → StimulusPlan
  question_plan priority = record {
    kind = unanswered_question;
    target_agent_id = none;
    priority = max_of fl priority (fl.literal "6.0");
    payload = ("reason", text "unanswered_question") ∷ [];
    dedupe_label = "unanswered-question";
  }

  abbrev pub generic_plan : StimulusKind → Float → StimulusPlan
  generic_plan kind priority = record {
    kind = kind;
    target_agent_id = none;
    priority = priority;
    payload = ("reason", text (kind_text kind)) ∷ [];
    dedupe_label = dashed_kind kind;
  }

  -- The answer where nobody is mentioned: to the author replied to, to a question, to the post.
  unfoldable pub fallback_plans : Option String → Bool → StimulusKind → Float → List StimulusPlan
  fallback_plans (some id) question kind priority = reply_plan id ∷ []
  fallback_plans none question kind priority =
      if question then question_plan priority ∷ [] else generic_plan kind priority ∷ []

  unfoldable pub plan_reactive_stimuli :
      (String → List String)
      → String
      → List AgentView
      → StimulusKind
      → Float
      → Option String
      → Option String
      → List StimulusPlan
  unfolding mentioned_handles mention_plans addressed fallback_plans
  plan_reactive_stimuli find_mentions body agents default_kind default_priority excluded reply_to =
      unless_empty (mention_plans agents excluded (mentioned_handles py find_mentions body)) (
        fallback_plans (addressed py agents reply_to excluded) (py.contains body "?") default_kind
          default_priority)
