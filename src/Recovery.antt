-- ===== src/Recovery.antt =====
-- repository.py, `recover_inflight_work`: stale leases are requeued or failed after a crash, and
-- the turns of those leases are closed.
pub mod Settled
use swarmboard.Prelude.{
  ℕ, ◌+◌, ◌-◌, Bool, true, false, ◌&&◌, Option, none, some, List, [], ◌∷◌, leb, ◌==◌, keep_if,
  any_of, is_some, is_val, or_else, if◌then◌else◌,
}
use swarmboard.Json.{flag, text}
use swarmboard.Exec.{◌>>=◌, ◌>>◌, pure, gets, for_each, skip}
use swarmboard.RunPolicy.{policy_json, session_type_json}
use swarmboard.Models.{
  RowId, Time, Stimulus, Turn, TurnState, provider_failure, stimulus_failed, stimulus_recovered,
  turn_recovered_failed, is_leased, is_unfinished,
}
use swarmboard.Tables.{
  World, Session, utc_now, put_turn, save_stimulus, add_event, id_json, num_json, opt_text,
}
use swarmboard.Runs.Cleanup.{cleanup_terminal_run_work}
use swarmboard.Deliveries.{stimulus_event}
use swarmboard.Leases.{released_row, in_run}
use swarmboard.Turns.{turn_event}

-- `RecoveryResult`
pub record RecoveryResult : Type 0 where
  pub stimuli_requeued : ℕ
  pub stimuli_failed : ℕ
  pub turns_failed : ℕ

-- A lease that nobody has refreshed since the cutoff.
abbrev pub is_stale : Time → Option RowId → Stimulus → Bool
is_stale cutoff run_id s =
    is_leased s.state && is_some s.claimed_at && leb s.updated_at cutoff && in_run run_id s

unfoldable pub stale_stimuli : Time → Option RowId → World → List Stimulus
unfolding keep_if
stale_stimuli cutoff run_id w = keep_if (is_stale cutoff run_id) w.stimuli

-- The attempts are used up.
abbrev pub is_spent : Stimulus → Bool
is_spent s = leb s.max_attempts s.attempts

unfoldable pub recover_stimulus : Time → Stimulus → Session (Unit {0})
unfolding ◌>>=◌ released_row save_stimulus add_event
recover_stimulus now s = do
  let row = released_row s "recovered after interrupted worker" now now
  save_stimulus row
  add_event (
      stimulus_event (if is_spent s then stimulus_failed else stimulus_recovered) row
        (("attempts", num_json row.attempts) ∷ ("reason", opt_text row.last_error) ∷ []))
  skip

abbrev pub turn_in_run : Option RowId → Turn → Bool
turn_in_run none t = true
turn_in_run (some id) t = is_val t.run_id id

-- `Turn.stimulus_id.in_(stale_ids)`
unfoldable pub of_stale : List Stimulus → Option RowId → Bool
unfolding any_of
of_stale stale none = false
of_stale stale (some id) = any_of (λ s. s.id == id) stale

unfoldable pub interrupted_turns : List Stimulus → Option RowId → World → List Turn
unfolding keep_if of_stale
interrupted_turns stale run_id w =
    keep_if (λ t. is_unfinished t.state && of_stale stale t.stimulus_id && turn_in_run run_id t)
      w.turns

unfoldable pub interrupted_row : Time → Turn → Turn
interrupted_row now t = record t {
  state = TurnState.failed;
  error = some "model call interrupted by process restart";
  outcome = some provider_failure;
  rejection_reason = some "model call interrupted by process restart";
  completed_at = some now;
}

unfoldable pub interrupt_turn : Time → Turn → Session (Unit {0})
unfolding ◌>>=◌ interrupted_row put_turn add_event
interrupt_turn now t = do
  let row = interrupted_row now t
  put_turn row
  add_event (
      turn_event turn_recovered_failed row (
        ("turn_id", id_json t.id)
        ∷ ("stimulus_recovered", flag true)
        ∷ ("outcome", text "provider_failure")
        ∷ ("rejection_reason", opt_text row.rejection_reason)
        ∷ ("session_type", session_type_json row.session_type)
        ∷ ("policy_snapshot", policy_json row.policy_snapshot)
        ∷ []))
  skip

abbrev pub count : {A : Type 0} → (A → Bool) → List A → ℕ
count p [] = 0
count p (x ∷ xs) = (if p x then 1 else 0) + count p xs

abbrev pub not_spent : Stimulus → Bool
not_spent s = if is_spent s then false else true

-- `recover_inflight_work`; the default cutoff is two minutes ago.
unfoldable pub recover_inflight_work : Option Time → Option RowId → Session RecoveryResult
unfolding ◌>>=◌ utc_now stale_stimuli recover_stimulus interrupted_turns interrupt_turn for_each
recover_inflight_work stale_before run_id = do
  cleanup_terminal_run_work run_id
  default_now ← utc_now
  let cutoff = or_else stale_before (default_now - 120000000)
  now ← utc_now
  stale ← gets (stale_stimuli cutoff run_id)
  for_each stale (recover_stimulus now)
  turns ← gets (interrupted_turns stale run_id)
  for_each turns (interrupt_turn now)
  let result : RecoveryResult = record {
    stimuli_requeued = count not_spent stale;
    stimuli_failed = count is_spent stale;
    turns_failed = count (λ _. true) turns;
  }
  pure result
