-- ===== src/Tests/DeliveriesAt.antt =====
-- The theorems on deliveries and fences at concrete inputs.
use swarmboard.Prelude.{
  ℕ, ◌≤◌, String, ◌≡◌, refl, Bool, true, false, Option, none, some, List, [], ◌∷◌, arith, All,
  length, or_else, if◌then◌else◌,
}
use swarmboard.Prelude.Int.{pos}
use swarmboard.Exec.{ok, raise, claim_conflict, invalid_state}
use swarmboard.Models.{
  pending, RowId, Stimulus, running, stopped, stop, human, human_post, dormant, is_done,
}
use swarmboard.Tables.{stimulus_by, World}
use swarmboard.Threads.{wake_thread, set_thread_status}
use swarmboard.Threads.Fence.{ended_run-fenced}
use swarmboard.Posts.{PostArgs, create_post}
use swarmboard.Deliveries.{StimulusArgs, add_stimulus}
use swarmboard.Leases.{claim_stimuli, mark_stimulus_processing, complete_stimulus, release_stimulus}
use swarmboard.Leases.Claims.{IsAbsent, IsClaimed, claim_stimuli-claims, stale_token-refused}
use swarmboard.History.{
  Call, call_control_run, call_add_stimulus, call_claim_stimuli, call_recover_inflight_work,
  history,
}
use swarmboard.Safety.Ledger.{IsLedger}
use swarmboard.Safety.Histories.{history-IsLedger}
use swarmboard.Tests.Worlds.{empty_tables, on, plain, run_in, thread_one, leased_one, board}

abbrev call_one : StimulusArgs
call_one = record {
  thread_id = 1;
  kind = human_post;
  run_id = none;
  triggering_event_id = none;
  source_post_id = none;
  target_agent_id = none;
  priority = pos 1;
  payload = [];
  cascade_depth = 0;
  not_before = some 0;
  max_attempts = 3;
  dedupe_key = some "k";
}

abbrev post_one : PostArgs
post_one = record {
  thread_id = 1;
  body = "hello";
  author_type = human;
  author_handle = "ann";
  author_agent_id = none;
  parent_post_id = none;
  intent = none;
  idempotency_key = none;
  stimulus_id = none;
  metadata = [];
  event_payload = [];
  operation = "post";
  allow_cross_thread = false;
}

-- A delivery is made and claimed, then the run is stopped.
abbrev calls : List Call
calls =
    call_add_stimulus call_one
    ∷ call_claim_stimuli none 5 none
    ∷ call_control_run 7 stop none
    ∷ call_recover_inflight_work none none
    ∷ []

board-IsLedger : IsLedger (board running).tables
unfolding swarmboard.Prelude.find
board-IsLedger = record {
  rows = (
    record {
      token = refl;
      attempts = refl;
      retry = λ p. absurd (ground arith);
      fenced = λ _. refl;
    },
    tt,
  );
}

history-IsLedger_example : IsLedger (history plain calls (board running)).tables
history-IsLedger_example = history-IsLedger plain calls (board running) board-IsLedger

-- One delivery is leased, another waits.
abbrev one_waits : World
one_waits = on (record empty_tables {
  stimuli =
      leased_one
      ∷ (record leased_one { id = 4; state = pending; claim_token = none; attempts = 0 })
      ∷ [];
})

claim_stimuli-claims_example :
    (rows : List Stimulus) × (w' : World) × (claim_stimuli none 5 (some 2000) one_waits
      ≡ ok rows w')
    × (length rows ≡ 1)
    × All (IsClaimed none 2000 one_waits.stimuli w'.stimuli) rows
    × ((id : RowId)
        → IsAbsent id rows
        → stimulus_by id w'.stimuli ≡ stimulus_by id one_waits.stimuli)
unfolding swarmboard.Prelude.count_if
claim_stimuli-claims_example =
    claim_stimuli-claims none 5 (some 2000) one_waits ((refl, tt), (tt, tt))

stale_token-refused_example :
    (mark_stimulus_processing 3 54 (board running) ≡ raise claim_conflict (board running))
    × (release_stimulus plain 3 54 "late" 0 (board running) ≡ raise claim_conflict (board running))
    × (complete_stimulus 3 (some 54) (board running) ≡ (
        if is_done leased_one.state
        then ok leased_one (board running)
        else raise claim_conflict (board running)))
unfolding swarmboard.Prelude.find
stale_token-refused_example =
    stale_token-refused plain 3 54 "late" 0 (board running) leased_one refl refl

ended_run-fenced_example :
    (create_post plain post_one (board stopped) ≡ raise invalid_state (board stopped))
    × (add_stimulus call_one (board stopped) ≡ raise invalid_state (board stopped))
    × (wake_thread 1 "again" "human" none (board stopped) ≡ raise invalid_state (board stopped))
    × (set_thread_status 1 dormant (some "again") "human" none (board stopped)
        ≡ raise invalid_state (board stopped))
unfolding swarmboard.Prelude.find swarmboard.Posts.Keys.post_for_key
ended_run-fenced_example =
    ended_run-fenced (board stopped) thread_one 7 (run_in stopped) plain post_one call_one dormant
      "again" "human" none (record { thread = refl; run_id = refl; run_row = refl; ended = refl })
      refl refl refl refl refl refl
