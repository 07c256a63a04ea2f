-- ===== src/Tests/RunsAt.antt =====
-- The theorems on runs and configs at concrete inputs.
use swarmboard.Prelude.{
  ◌*◌, ◌+◌, ◌<◌, ◌≡◌, ◌≢◌, ◌↔◌, refl, Bool, true, false, Option, none, some, List, [], ◌∷◌, arith,
  All, ap,
}
use swarmboard.Json.{null}
use swarmboard.Exec.{Error, ok, raise}
use swarmboard.RunPolicy.{
  RunConfig, normalize_config, to_json, collaboration, production, custom_profile, preset,
}
use swarmboard.RunPolicy.Normal.{normalize_config_stable, normalize_config-preset}
use swarmboard.Models.{Run, running, paused, stopped, pause, resume}
use swarmboard.Tables.{World, run_by}
use swarmboard.Runs.{duration_reached, control_run, run_budget_exhaustion}
use swarmboard.Runs.Cleanup.{cleanup_terminal_run_work}
use swarmboard.Runs.Cancelled.{due_stimulus, due_turn, cleanup_complete}
use swarmboard.Runs.Control.{ticked, control_run-allowed, control_run-forbidden}
use swarmboard.Runs.Budget.{run_budget_exhaustion-none}
use swarmboard.Tests.Worlds.{run_in, board}

control_run-allowed_example :
    (saved : Run) × (w' : World) × (control_run 7 pause none (board running) ≡ ok saved w')
    × (saved.state ≡ paused)
    × (run_by 7 w'.runs ≡ some saved)
unfolding swarmboard.Prelude.find
control_run-allowed_example =
    control_run-allowed 7 pause none (board running) (run_in running) refl paused refl

control_run-forbidden_example :
    (e : Error) × (control_run 7 resume none (board stopped) ≡ raise e (ticked (board stopped)))
unfolding swarmboard.Prelude.find
control_run-forbidden_example =
    control_run-forbidden 7 resume none (board stopped) (run_in stopped) refl refl

cleanup_complete_example :
    (w' : World) × (cleanup_terminal_run_work (some 7) (board stopped)
      ≡ ok (record { stimuli_cancelled = 1; turns_failed = 1 }) w')
    × (w'.runs ≡ (board stopped).runs)
    × All (λ s. due_stimulus (some 7) (board stopped).runs s ≡ false) w'.stimuli
    × All (λ t. due_turn (some 7) (board stopped).runs t ≡ false) w'.turns
unfolding swarmboard.Prelude.count_if swarmboard.Runs.Cleanup.in_ended_run swarmboard.Prelude.find
cleanup_complete_example = cleanup_complete (some 7) (board stopped)

abbrev started_run : Run
started_run = record (run_in running) { started_at = some 0 }

-- The last microsecond before the budget of ten seconds is spent, and the first after it.
last_moment : run_budget_exhaustion started_run 9999999 ≡ none
unfolding run_budget_exhaustion
last_moment = refl

time_spent : run_budget_exhaustion started_run 10000000 ≡ some duration_reached
unfolding run_budget_exhaustion
time_spent = refl

run_budget_exhaustion-none_example :
    (run_budget_exhaustion started_run 1000005 ≡ none)
    ↔ ((0 < 10) × (0 < 10) × (0 < 10) × (1000005 < 0 + 10 * 1000000))
run_budget_exhaustion-none_example = run_budget_exhaustion-none started_run 1000005

abbrev plain_config : RunConfig
plain_config = record { session_type = collaboration; policy = production; settings = [] }

normal_null : normalize_config null ≡ some plain_config
unfolding normalize_config
normal_null = refl

normalize_config_stable_example : normalize_config (to_json plain_config) ≡ some plain_config
normalize_config_stable_example = normalize_config_stable null plain_config normal_null

normalize_config-preset_example :
    (plain_config.session_type ≡ collaboration → plain_config.policy ≡ production)
    × (plain_config.policy.profile ≢ custom_profile
        → plain_config.policy ≡ preset plain_config.policy.profile)
normalize_config-preset_example = normalize_config-preset null plain_config normal_null
