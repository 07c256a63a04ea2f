-- ===== src/Tests/TurnsAt.antt =====
-- The theorems on turns and recovery at concrete inputs.
use swarmboard.Prelude.{◌≡◌, refl, false, none, some, All}
use swarmboard.Exec.{ok, ◌>>◌}
use swarmboard.Models.{Turn, executed, TurnState, running}
use swarmboard.Tables.{run_by, World}
use swarmboard.Turns.{Finish, check_result, finish_turn}
use swarmboard.Turns.Outcomes.{infer_turn_outcome}
use swarmboard.Turns.Counting.{finish_turn-counts}
use swarmboard.Blind.Primitives.{counted}
use swarmboard.Turns.Once.{finish_turn-once}
use swarmboard.Recovery.{RecoveryResult, is_stale, stale_stimuli, recover_inflight_work}
use swarmboard.Recovery.Settled.{is_orphan, cleaned, recover_inflight_work-settled}
use swarmboard.Tests.Worlds.{plain, board, turn_one, run_in}

abbrev done : Finish
done = record {
  state = TurnState.completed;
  resulting_post_id = none;
  raw_output = none;
  parsed_action = none;
  validated_action = none;
  error = none;
  latency_ms = some 20;
  input_tokens = 5;
  output_tokens = 6;
  total_tokens = none;
  outcome = none;
  rejection_reason = none;
}

finish_turn-once_example :
    (finish_turn plain 9 done >> finish_turn plain 9 done) (board running)
    ≡ finish_turn plain 9 done (board running)
finish_turn-once_example = finish_turn-once plain 9 done (board running)

recover_inflight_work-settled_example :
    (result : RecoveryResult) × (w' : World) × (recover_inflight_work
        (some 5000)
        none
        (board running)
      ≡ ok result w')
    × All (λ s. is_stale 5000 none s ≡ false) w'.stimuli
    × All
        (λ t. is_orphan none (stale_stimuli 5000 none (cleaned none (board running))) t ≡ false)
        w'.turns
recover_inflight_work-settled_example =
    recover_inflight_work-settled (some 5000) none (board running)

finish_turn-counts_example :
    (row : Turn) × (w' : World) × (finish_turn plain 9 done (board running) ≡ ok row w')
    × (run_by 7 w'.runs ≡ some (counted (run_in running) 1 0 11 1 1001))
unfolding swarmboard.Prelude.find infer_turn_outcome check_result
finish_turn-counts_example =
    finish_turn-counts plain 9 done (board running) turn_one executed 7 (run_in running) refl refl
      refl refl refl refl refl
