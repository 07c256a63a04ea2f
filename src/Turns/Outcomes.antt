-- ===== src/Turns/Outcomes.antt =====
-- models.py, `infer_turn_outcome`: the outcome of a terminal turn from its state and error.
use swarmboard.Prelude.{
  String, Bool, Option, none, some, List, [], ◌∷◌, any_of, or_else, if◌then◌else◌,
}
use swarmboard.Python.{Python}
use swarmboard.Models.{
  TurnState, selected, calling, completed, passed, failed, TurnOutcome, executed,
  rejected_by_policy, invalid_output, provider_failure,
}

abbrev pub outcome_text : TurnOutcome → String
outcome_text executed = "executed"
outcome_text TurnOutcome.passed = "passed"
outcome_text rejected_by_policy = "rejected_by_policy"
outcome_text invalid_output = "invalid_output"
outcome_text provider_failure = "provider_failure"

abbrev pub invalid_markers : List String
invalid_markers =
    "invalid json" ∷ "invalid agent action" ∷ "bare json object" ∷ "duplicate json key"
    ∷ "model returned an empty response" ∷ "model response must" ∷ "structuredoutputerror"
    ∷ "schema validation" ∷ []

abbrev pub policy_markers : List String
policy_markers =
    "policy" ∷ "budget" ∷ "quota" ∷ "not permitted" ∷ "permission" ∷ "no longer permitted"
    ∷ "disabled" ∷ "closed thread" ∷ "thread is closed" ∷ "run became" ∷ "emergency stop"
    ∷ "run stopped" ∷ "run completed" ∷ "cooldown" ∷ "ping-pong" ∷ []

-- `any(marker in reason for marker in markers)`
unfoldable pub mentions : Python → String → List String → Bool
unfolding any_of
mentions py reason markers = any_of (py.contains reason) markers

unfoldable pub failure_outcome : Python → String → TurnOutcome
unfolding mentions
failure_outcome py reason =
    if mentions py reason invalid_markers
    then invalid_output
    else if mentions py reason policy_markers
    then rejected_by_policy
    else provider_failure

unfoldable pub infer_turn_outcome : Python → TurnState → Option String → Option TurnOutcome
unfolding failure_outcome
infer_turn_outcome py completed error = some executed
infer_turn_outcome py passed error = some TurnOutcome.passed
infer_turn_outcome py failed error = some (failure_outcome py (py.casefold (or_else error "")))
infer_turn_outcome py selected error = none
infer_turn_outcome py calling error = none
