-- ===== src/Turns/Counting.antt =====
-- repository.py, `finish_turn`: what it counts in the run.
use swarmboard.Prelude.{
  ℕ, or_else, ◌+◌, ◌≡◌, refl, ◌∙◌, true, false, Option, some, arith, find-holds, ◌==◌,
}
use swarmboard.Python.{Python}
use swarmboard.Exec.{ok, ◌>>=◌, pure, state_of}
use swarmboard.Exec.Steps.{bind-ok}
use swarmboard.Models.{RowId, Run, Turn, TurnOutcome, is_unfinished}
use swarmboard.Tables.{World, run_by, turn_by, put_run}
use swarmboard.Runs.Control.{run_by-update}
use swarmboard.Blind.Primitives.{counted, increment-eq}
use swarmboard.Turns.{
  Finish, finished_row, check_result, count_turn, close_turn, given_or, finish_turn,
}
use swarmboard.Turns.Outcomes.{infer_turn_outcome}
use swarmboard.Turns.Once.{written, finish_turn-open}

-- The world once a turn of `tokens` tokens is counted.
abbrev after_count : RowId → ℕ → Run → World → World
after_count rid tokens run w =
    state_of
      (put_run (counted run 1 0 tokens 1 (w.clock w.reads)) (record w { reads = w.reads + 1 }))

count_turn-eq :
    (o : Option RowId) (rid : RowId) (tokens : ℕ) (run : Run) (w : World)
    → o ≡ some rid
    → run_by rid w.runs ≡ some run
    → count_turn o tokens w ≡ ok tt (after_count rid tokens run w)
unfolding count_turn
count_turn-eq o rid tokens run w r g =
    rw (r, ◌>>=◌) (rw (increment-eq rid 1 0 tokens 1 w run g, ◌>>=◌) refl)

run_by-count :
    (rid : RowId) (tokens : ℕ) (run : Run) (w : World)
    → run_by rid w.runs ≡ some run
    → run_by rid (after_count rid tokens run w).runs
      ≡ some (counted run 1 0 tokens 1 (w.clock w.reads))
unfolding put_run
run_by-count rid tokens run w g =
    let saved = counted run 1 0 tokens 1 (w.clock w.reads) in
    let own : (run.id == rid) ≡ true = find-holds (λ (r : Run). r.id == rid) w.runs run g in
    ground (arith, run_by-update w.runs saved rid run g)

module _ (py : Python) (id : RowId) (f : Finish) (w : World) (t : Turn) (o : TurnOutcome)
    (rid : RowId) (run : Run) where
  close_turn-counts :
      t.run_id ≡ some rid
      → run_by rid w.runs ≡ some run
      → check_result f.resulting_post_id w ≡ ok tt w
      → (let row = finished_row py t f o (w.clock w.reads) in
          close_turn py t f o w
          ≡ ok row (after_count rid row.total_tokens run (written py t f o w)))
  unfolding close_turn
  close_turn-counts r g c =
      let row = finished_row py t f o (w.clock w.reads) in
      bind-ok (check_result f.resulting_post_id) _ w tt w _ c (
        bind-ok (count_turn t.run_id row.total_tokens) (λ _. pure row) (written py t f o w) tt
          (after_count rid row.total_tokens run (written py t f o w)) _
          (count_turn-eq t.run_id rid row.total_tokens run (written py t f o w) r g) refl)

  -- Finishing an unfinished turn with a final state and a known outcome succeeds, where its run
  -- exists and so does the resulting post, if one is named. The run's counters grow by one round,
  -- one model call and the tokens of the turn, and by no post.
  pub finish_turn-counts :
      turn_by id w.turns ≡ some t
      → is_unfinished t.state ≡ true
      → is_unfinished f.state ≡ false
      → given_or f.outcome (infer_turn_outcome py f.state f.error) ≡ some o
      → t.run_id ≡ some rid
      → run_by rid w.runs ≡ some run
      → check_result f.resulting_post_id w ≡ ok tt w
      → (row : Turn) × (w' : World) × (finish_turn py id f w ≡ ok row w')
        × (run_by rid w'.runs
            ≡ some (
                counted run 1 0
                  (or_else f.total_tokens (f.input_tokens + f.output_tokens))
                  1
                  (w.clock (w.reads + 1))))
  unfolding finished_row ◌>>=◌ swarmboard.Tables.put_turn swarmboard.Tables.add_event
  finish_turn-counts q d s u r g c =
      let row = finished_row py t f o (w.clock w.reads) in
      (
        row,
        after_count rid row.total_tokens run (written py t f o w),
        finish_turn-open py id f w t o q s u d ∙ close_turn-counts r g c,
        run_by-count rid row.total_tokens run (written py t f o w) g,
      )
