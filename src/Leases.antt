-- ===== src/Leases.antt =====
-- repository.py, the leases of stimuli: claim, processing, completion and release.
pub mod Keyed
pub mod Claims
use swarmboard.Prelude.{
  ℕ, ◌+◌, String, Bool, true, false, not, ◌&&◌, Option, none, some, List, [], ◌∷◌, ltb, leb, find,
  keep_if, take, is_val, or_else, if◌then◌else◌,
}
use swarmboard.Prelude.Int.{ltb_ℤ}
use swarmboard.Python.{Python}
use swarmboard.Exec.{
  when, ok, raise, ◌>>=◌, ◌>>◌, pure, gets, raise_if, invalid_state, claim_conflict,
}
use swarmboard.Models.{
  StimulusState, RowId, Time, Stimulus, pending, claimed, processing, completed, failed,
  stimulus_claimed, stimulus_processing, stimulus_completed, stimulus_failed, stimulus_requeued,
  is_pending, is_leased, is_done,
}
use swarmboard.Tables.{
  World, Session, utc_now, new_uuid, get_stimulus, put_stimulus, save_stimulus, stimulus_by,
  add_event, opt_text, id_json, num_json,
}
use swarmboard.Deliveries.{stimulus_event}

-- ORDER BY priority DESC, created_at, id: does `s` come before `t`?
unfoldable pub before : Stimulus → Stimulus → Bool
before s t =
    if ltb_ℤ t.priority s.priority
    then true
    else if ltb_ℤ s.priority t.priority
    then false
    else if ltb s.created_at t.created_at
    then true
    else if ltb t.created_at s.created_at
    then false
    else leb s.id t.id

unfoldable pub place : Stimulus → List Stimulus → List Stimulus
unfolding before
place s [] = s ∷ []
place s (t ∷ ts) = let rest = place s ts in if before s t then s ∷ t ∷ ts else t ∷ rest

unfoldable pub ordered : List Stimulus → List Stimulus
unfolding place
ordered [] = []
ordered (s ∷ ss) = place s (ordered ss)

-- state = 'pending' AND not_before <= claim_time
abbrev pub is_ready : Time → Stimulus → Bool
is_ready now s = is_pending s.state && leb s.not_before now

abbrev pub in_run : Option RowId → Stimulus → Bool
in_run none s = true
in_run (some id) s = is_val s.run_id id

-- The rows that the SELECT of `claim_stimuli` returns.
unfoldable pub candidates : Option RowId → ℕ → Time → World → List Stimulus
unfolding ordered keep_if
candidates run_id limit now w =
    take limit (ordered (keep_if (λ s. is_ready now s && in_run run_id s) w.stimuli))

unfoldable pub claimed_row : Stimulus → RowId → Time → Stimulus
claimed_row s token now = record s {
  state = claimed;
  claim_token = some token;
  claimed_at = some now;
  attempts = s.attempts + 1;
  updated_at = now;
}

-- The row of a guarded UPDATE: `none` if its condition does not hold any more.
unfoldable pub still_ready : Time → Option Stimulus → Option Stimulus
still_ready now none = none
still_ready now (some s) = if is_ready now s then some s else none

unfoldable pub claim_row : Time → RowId → Stimulus → Session Stimulus
unfolding ◌>>=◌ put_stimulus claimed_row add_event
claim_row now token s = do
  let row = claimed_row s token now
  put_stimulus row
  add_event (
      stimulus_event stimulus_claimed row
        (("attempt", num_json row.attempts) ∷ ("claim_token", id_json token) ∷ []))
  pure row

-- One round, once the guarded UPDATE has been tried, and the rounds after it.
unfoldable pub claim_found :
    Time → RowId → Option Stimulus → Session (List Stimulus) → Session (List Stimulus)
unfolding ◌>>=◌ claim_row
claim_found now token none rest = rest
claim_found now token (some s) rest = do row ← claim_row now token s; rows ← rest; pure (row ∷ rows)

-- The loop of `claim_stimuli`.
unfoldable pub claim_each : Time → List Stimulus → Session (List Stimulus)
unfolding ◌>>=◌ new_uuid still_ready claim_found find
claim_each now [] = pure []
claim_each now (c ∷ cs) = do
  token ← new_uuid
  found ← gets (λ w. still_ready now (stimulus_by c.id w.stimuli))
  claim_found now token found (claim_each now cs)

-- `claim_stimuli`
unfoldable pub claim_stimuli : Option RowId → ℕ → Option Time → Session (List Stimulus)
unfolding ◌>>=◌ utc_now candidates claim_each
claim_stimuli run_id limit at = do
  now ← utc_now
  let time = or_else at now
  rows ← gets (candidates run_id limit time)
  claim_each time rows

abbrev pub is_processing : StimulusState → Bool
is_processing processing = true
is_processing _ = false

-- `_claimed_stimulus`
unfoldable pub claimed_stimulus : RowId → RowId → Session Stimulus
unfolding ◌>>=◌ get_stimulus
claimed_stimulus id token = do
  s ← get_stimulus id
  raise_if (not (is_val s.claim_token token)) claim_conflict
  raise_if (not (is_leased s.state)) invalid_state
  pure s

-- `mark_stimulus_processing`; a row that is processing already does not change, and no UPDATE
-- is sent.
unfoldable pub mark_stimulus_processing : RowId → RowId → Session Stimulus
unfolding ◌>>=◌ claimed_stimulus save_stimulus add_event
mark_stimulus_processing id token = do
  s ← claimed_stimulus id token
  let row = record s { state = processing }
  when (not (is_processing s.state)) (save_stimulus row)
  add_event (stimulus_event stimulus_processing row (("attempt", num_json row.attempts) ∷ []))
  pure row

-- `claim_token is not None and stimulus.claim_token != claim_token`
abbrev pub wrong_token : Option RowId → Option RowId → Bool
wrong_token none held = false
wrong_token (some token) held = not (is_val held token)

unfoldable pub finish_stimulus : Stimulus → Option RowId → Session Stimulus
unfolding ◌>>=◌ utc_now save_stimulus add_event
finish_stimulus s token = do
  raise_if (wrong_token token s.claim_token) claim_conflict
  raise_if (not (is_leased s.state)) invalid_state
  now ← utc_now
  let row = record s { state = completed; completed_at = some now; claim_token = none }
  save_stimulus row
  add_event (stimulus_event stimulus_completed row (("attempts", num_json row.attempts) ∷ []))
  pure row

-- `complete_stimulus`
unfoldable pub complete_stimulus : RowId → Option RowId → Session Stimulus
unfolding ◌>>=◌ get_stimulus finish_stimulus
complete_stimulus id token = do
  s ← get_stimulus id
  if is_done s.state then pure s else finish_stimulus s token

-- The row that a released or recovered lease leaves: requeued, or failed after the last attempt.
unfoldable pub released_row : Stimulus → String → Time → Time → Stimulus
released_row s error now due =
    if leb s.max_attempts s.attempts
    then record s {
      last_error = some error;
      claim_token = none;
      claimed_at = none;
      state = failed;
      completed_at = some now;
    }
    else record s {
      last_error = some error;
      claim_token = none;
      claimed_at = none;
      state = pending;
      not_before = due;
    }

-- `release_stimulus`; the delay is in microseconds.
unfoldable pub release_stimulus : Python → RowId → RowId → String → ℕ → Session Stimulus
unfolding ◌>>=◌ claimed_stimulus utc_now released_row save_stimulus add_event
release_stimulus py id token error delay = do
  s ← claimed_stimulus id token
  now ← utc_now
  let row = released_row s (py.clip 10000 error) now (now + delay)
  save_stimulus row
  add_event (
      stimulus_event (if leb s.max_attempts s.attempts then stimulus_failed else stimulus_requeued)
        row (("attempts", num_json row.attempts) ∷ ("error", opt_text row.last_error) ∷ []))
  pure row
