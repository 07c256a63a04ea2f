-- ===== src/Runs/Cancelled.antt =====
-- repository.py, `cleanup_terminal_run_work`: the two loops, and the rows afterwards.
use swarmboard.Prelude.{
  ap, length, length-keep_if, count_if, ◌+◌, ◌≡◌, refl, Bool, true, false, ◌&&◌, Option, none, some,
  List, arith, All, All-keep_if, All-trivial, keep_if, Option-cases, inl, inr,
}
use swarmboard.Exec.{ok, ◌>>=◌, state_of}
use swarmboard.Exec.Sweep.{Left-start, none-Left, Round, sweep}
use swarmboard.Models.{RowId, Time, Run, Stimulus, Turn, is_live, is_unfinished}
use swarmboard.Tables.{World, put_stimulus, put_turn, add_event, run_by}
use swarmboard.Runs.Cleanup.{
  CleanupResult, in_ended_run, in_scope, cancelled_row, cancelled_event, cancel_stimulus,
  fenced_row, fenced_event, fence_turn, leftover_stimuli, leftover_turns, cleanup_terminal_run_work,
}

pub ended_run :
    (runs : List Run) (o : Option RowId)
    → in_ended_run runs o ≡ true
    → (id : RowId) × (run : Run) × (o ≡ some id) × (run_by id runs ≡ some run)
unfolding in_ended_run
ended_run runs none h = cc
ended_run runs (some id) h = elim (Option-cases (run_by id runs)) [
  | inl e ↦ absurd (ground arith)
  | inr (run, e) ↦ (id, run, refl, e)
]

-- What one round of each loop leaves.
abbrev after_cancel : Run → Time → Stimulus → World → World
after_cancel run now s w =
    state_of ((put_stimulus (cancelled_row run now s) >>= λ _. add_event (cancelled_event run s)) w)

abbrev after_fence : Run → Time → Turn → World → World
after_fence run now t w =
    state_of ((put_turn (fenced_row run now t) >>= λ _. add_event (fenced_event run t)) w)

module _ (now : Time) (w : World) (id : RowId) (run : Run) (f : run_by id w.runs ≡ some run) where
  cancel_stimulus-eq :
      (s : Stimulus)
      → s.run_id ≡ some id
      → cancel_stimulus now s w ≡ ok tt (after_cancel run now s w)
  unfolding cancel_stimulus
  cancel_stimulus-eq s e = ground arith

  fence_turn-eq :
      (t : Turn) → t.run_id ≡ some id → fence_turn now t w ≡ ok tt (after_fence run now t w)
  unfolding fence_turn
  fence_turn-eq t e = ground arith

module _ (scope : Option RowId) (runs : List Run) where
  abbrev pub due_stimulus : Stimulus → Bool
  due_stimulus s = in_ended_run runs s.run_id && in_scope scope s.run_id && is_live s.state

  abbrev pub due_turn : Turn → Bool
  due_turn t = in_ended_run runs t.run_id && in_scope scope t.run_id && is_unfinished t.state

  -- The runs stay, and the other table of the two stays.
  abbrev StaysStimuli : List Turn → World → Type 0
  StaysStimuli turns w = (w.runs ≡ runs) × (w.turns ≡ turns)

  abbrev StaysTurns : List Stimulus → World → Type 0
  StaysTurns stimuli w = (w.runs ≡ runs) × (w.stimuli ≡ stimuli)

  cancel-Round :
      (turns : List Turn) (now : Time) (s : Stimulus) (w : World)
      → StaysStimuli turns w
      → in_ended_run runs s.run_id ≡ true
      → (w' : World) × (cancel_stimulus now s w ≡ ok tt w')
        × Round (λ x. x.id) due_stimulus (λ v. v.stimuli) (StaysStimuli turns) s w' w.stimuli
  unfolding cancel_stimulus
  cancel-Round turns now s w k h =
      let (id, run, e, f) = ended_run runs s.run_id h in
      (
        after_cancel run now s w,
        cancel_stimulus-eq now w id run (rw k.0 f) s e,
        record { stays = k; row = cancelled_row run now s; dead = ground arith; written = refl },
      )

  fence-Round :
      (stimuli : List Stimulus) (now : Time) (t : Turn) (w : World)
      → StaysTurns stimuli w
      → in_ended_run runs t.run_id ≡ true
      → (w' : World) × (fence_turn now t w ≡ ok tt w')
        × Round (λ x. x.id) due_turn (λ v. v.turns) (StaysTurns stimuli) t w' w.turns
  unfolding fence_turn
  fence-Round stimuli now t w k h =
      let (id, run, e, f) = ended_run runs t.run_id h in
      (
        after_fence run now t w,
        fence_turn-eq now w id run (rw k.0 f) t e,
        record { stays = k; row = fenced_row run now t; dead = ground arith; written = refl },
      )

  fit_stimuli :
      (rows : List Stimulus)
      → All (λ s. in_ended_run runs s.run_id ≡ true) (keep_if due_stimulus rows)
  fit_stimuli rows =
      All-keep_if (λ _. Unit {0}) _ due_stimulus rows (λ s e _. ground arith)
        (All-trivial _ rows (λ _. tt))

  fit_turns :
      (rows : List Turn) → All (λ t. in_ended_run runs t.run_id ≡ true) (keep_if due_turn rows)
  fit_turns rows =
      All-keep_if (λ _. Unit {0}) _ due_turn rows (λ t e _. ground arith)
        (All-trivial _ rows (λ _. tt))

-- The lengths of the two lists that the SELECTs return.
selected_counts : Option RowId → World → CleanupResult
selected_counts scope w = record {
  stimuli_cancelled = length (leftover_stimuli scope w);
  turns_failed = length (leftover_turns scope w);
}

-- How many live stimuli and unfinished turns the ended runs of the scope have.
abbrev pub due_counts : Option RowId → World → CleanupResult
due_counts scope w = record {
  stimuli_cancelled = count_if (due_stimulus scope w.runs) w.stimuli;
  turns_failed = count_if (due_turn scope w.runs) w.turns;
}

counted : (scope : Option RowId) (w : World) → selected_counts scope w ≡ due_counts scope w
unfolding selected_counts leftover_stimuli leftover_turns
counted scope w i = record {
  stimuli_cancelled =
      length-keep_if (due_stimulus scope w.runs) (due_stimulus scope w.runs) w.stimuli (λ s. refl)
        i;
  turns_failed =
      length-keep_if (due_turn scope w.runs) (due_turn scope w.runs) w.turns (λ t. refl) i;
}

-- `cleanup_terminal_run_work` never raises, leaves the runs as they are, and afterwards no stimulus
-- is live and no turn unfinished in any ended run of its scope; it returns how many there were.
pub cleanup_complete :
    (scope : Option RowId) (w : World)
    → (w' : World) × (cleanup_terminal_run_work scope w ≡ ok (due_counts scope w) w')
      × (w'.runs ≡ w.runs)
      × All (λ s. due_stimulus scope w.runs s ≡ false) w'.stimuli
      × All (λ t. due_turn scope w.runs t ≡ false) w'.turns
unfolding cleanup_terminal_run_work selected_counts
cleanup_complete scope w =
    let now = w.clock w.reads in
    let w1 : World = record w { reads = w.reads + 1 } in
    let (w2, e2, k2, l2) =
      sweep (λ (x : Stimulus). x.id) (due_stimulus scope w.runs) (λ v. v.stimuli)
        (StaysStimuli scope w.runs w.turns) (λ s. in_ended_run w.runs s.run_id ≡ true)
        (cancel_stimulus now) (cancel-Round scope w.runs w.turns now) (leftover_stimuli scope w) w1
        (refl, refl) (fit_stimuli scope w.runs w.stimuli) (Left-start _ _ w.stimuli) in
    let (w3, e3, k3, l3) =
      sweep (λ (x : Turn). x.id) (due_turn scope w.runs) (λ v. v.turns)
        (StaysTurns scope w.runs w2.stimuli) (λ t. in_ended_run w.runs t.run_id ≡ true)
        (fence_turn now) (fence-Round scope w.runs w2.stimuli now) (leftover_turns scope w) w2
        (k2.0, refl) (fit_turns scope w.runs w.turns) (rw k2.1 (Left-start _ _ w.turns)) in
    (
      w3,
      rw (e2, ◌>>=◌) (rw (e3, ◌>>=◌) (ap (λ r. ok r w3) (counted scope w))),
      k3.0,
      rw k3.1 (none-Left (λ (x : Stimulus). x.id) _ w2.stimuli l2),
      none-Left (λ (x : Turn). x.id) _ w3.turns l3,
    )
