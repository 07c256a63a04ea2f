-- ===== src/Actions.antt =====
-- swarmboard/gateways.py: `AgentAction`, the one shape that an agent's answer may have.
pub mod WellFormed
use Prim.Native.String.{count}
use swarmboard.Prelude.{
  ℕ, String, Bool, true, false, ◌||◌, ◌&&◌, not, Option, none, some, is_some, or_else, str_eq, leb,
  if◌then◌else◌,
}
use swarmboard.Python.{Python}

pub data ActionName : Type 0 where
  reply new_thread pass propose_close : ActionName

pub data IntentName : Type 0 where
  challenge clarify support synthesize : IntentName

pub record AgentAction : Type 0 where
  pub action : ActionName
  pub parent_post_id : Option String
  pub title : Option String
  pub body : Option String
  pub intent : Option IntentName

abbrev pub is_pass : ActionName → Bool
is_pass pass = true
is_pass _ = false

abbrev pub is_new_thread : ActionName → Bool
is_new_thread new_thread = true
is_new_thread _ = false

-- `max_length` of a field that may be None.
abbrev pub within : ℕ → Option String → Bool
within n none = true
within n (some s) = leb (count s) n

module _ (py : Python) where
  -- `value is None or not value.strip()`
  abbrev pub is_blank : Option String → Bool
  is_blank none = true
  is_blank (some s) = str_eq (py.strip s) ""

  abbrev pub stripped : Option String → Option String
  stripped none = none
  stripped (some s) = some (py.strip s)

  -- The rules on titles and parents.
  unfoldable pub validate_place : AgentAction → Option AgentAction
  validate_place a =
      if is_new_thread a.action
      then if is_blank a.title || is_some a.parent_post_id
        then none
        else some (record a { title = stripped a.title })
      else if is_some a.title
      then none
      else some a

  unfoldable pub require_intent : AgentAction → Option AgentAction
  require_intent a = if is_some a.intent then some a else none

  -- `validate_action_fields`; `none` is `ValueError`.
  unfoldable pub validate_action_fields : AgentAction → Option AgentAction
  unfolding validate_place require_intent
  validate_action_fields a =
      if is_pass a.action
      then if is_some a.parent_post_id || is_some a.title || is_some a.body || is_some a.intent
        then none
        else some a
      else if is_blank a.body
      then none
      else elim (validate_place (record a { body = stripped a.body })) [
        | none ↦ none
        | some b ↦ require_intent b
      ]

  -- The lengths are those of the fields as given.
  unfoldable pub validate_action : AgentAction → Option AgentAction
  unfolding validate_action_fields
  validate_action a =
      if within 240 a.title && within 50000 a.body then validate_action_fields a else none
