-- ===== src/Safety/Cleaning.antt =====
-- repository.py: `cleanup_terminal_run_work` and the ledger invariant, once a run has ended.
use swarmboard.Prelude.{
  ◌≡◌, sym, subst, Bool, true, false, ◌||◌, Option, some, List, arith, All, All-update, All-keep_if,
  All-both, is_val, Bool-cases, inl, inr,
}
use swarmboard.Exec.{Outcome, state_of, ok, gets, for_each, ◌>>=◌}
use swarmboard.Exec.Keeps.{Yields, Keeps-yield, Keeps-each_of}
use swarmboard.Models.{RowId, Time, Run, Stimulus, Turn, Event}
use swarmboard.Tables.{World, Tables, Session, put_stimulus, put_turn, add_event}
use swarmboard.Runs.Cleanup.{
  CleanupResult, in_ended_run, cancel_stimulus, fence_turn, leftover_stimuli,
  cleanup_terminal_run_work,
}
use swarmboard.Runs.Cancelled.{due_stimulus, cleanup_complete}
use swarmboard.Blind.{Holds, read_rules}
use swarmboard.Safety.Ledger.{open_run, RowOk, IsLedger}
use swarmboard.Safety.Changes.{RowOk-cancelled}

-- The rows are right, if `may_run` says which runs may run.
pub record RowsOk (may_run : Option RowId → Bool) (t : Tables) : Type 0 where
  pub rows : All (RowOk may_run) t.stimuli

-- The rows of a SELECT.
record RowsGood (may_run : Option RowId → Bool) (ss : List Stimulus) : Type 0 where
  pub good : All (RowOk may_run) ss

module _ {may : Option RowId → Bool} where
  Rows-add_event : (e : Event) → Holds (RowsOk may) (add_event e)
  unfolding add_event
  Rows-add_event e = record { at = λ w h. record { rows = h.rows } }

  Rows-put_turn : (t : Turn) → Holds (RowsOk may) (put_turn t)
  unfolding put_turn
  Rows-put_turn t = record { at = λ w h. record { rows = h.rows } }

  Rows-put : (s : Stimulus) → RowOk may s → Holds (RowsOk may) (put_stimulus s)
  unfolding put_stimulus
  Rows-put s k = record {
    at = λ w h. record {
      rows =
          All-update (RowOk may) (RowOk may) _ (λ _. s) w.stimuli (λ _ _ _. k) (λ _ _ o. o) h.rows;
    };
  }

  Rows-cancel :
      (now : Time) (s : Stimulus) → RowOk may s → Holds (RowsOk may) (cancel_stimulus now s)
  unfolding cancel_stimulus
  Rows-cancel now s k =
      search (read_rules, Rows-add_event, Rows-put, RowOk-cancelled now s k) depth 12

  Rows-fence : (now : Time) (t : Turn) → Holds (RowsOk may) (fence_turn now t)
  unfolding fence_turn
  Rows-fence now t = search (read_rules, Rows-add_event, Rows-put_turn) depth 12

  Rows-leftover :
      (scope : Option RowId)
      → Yields (λ (w : World). w.tables) (RowsOk may) (RowsGood may) (gets (leftover_stimuli scope))
  unfolding gets leftover_stimuli
  Rows-leftover scope = record {
    of = λ w h ss w' e. record {
      good =
          subst (All (RowOk may)) (rows w ss w' e)
            (All-keep_if (RowOk may) (RowOk may) _ w.stimuli (λ s _ k. k) h.rows);
    };
  }
    where
      rows :
          (w : World) (ss : List Stimulus) (w' : World)
          → ok (leftover_stimuli scope w) w ≡ ok ss w'
          → leftover_stimuli scope w ≡ ss
      rows w ss w' e = cc

  Rows-after_select :
      (scope : Option RowId) (f : List Stimulus → Session CleanupResult)
      → ((ss : List Stimulus) → RowsGood may ss → Holds (RowsOk may) (f ss))
      → Holds (RowsOk may) (gets (leftover_stimuli scope) >>= f)
  Rows-after_select scope f k =
      Keeps-yield (RowsGood may) (gets (leftover_stimuli scope)) f (search read_rules)
        (Rows-leftover scope) k

  Rows-cancel_each :
      (ss : List Stimulus)
      → RowsGood may ss
      → (now : Time) → Holds (RowsOk may) (for_each ss (cancel_stimulus now))
  Rows-cancel_each ss g now =
      Keeps-each_of (RowOk may) (cancel_stimulus now) ss (Rows-cancel now) g.good

  pub Rows-cleanup : (scope : Option RowId) → Holds (RowsOk may) (cleanup_terminal_run_work scope)
  unfolding cleanup_terminal_run_work
  Rows-cleanup scope = search (Rows-after_select, read_rules, Rows-cancel_each, Rows-fence) depth 12

-- While the run `id` has ended and its rows are not yet cancelled.
abbrev pub but : RowId → List Run → Option RowId → Bool
but id runs o = open_run runs o || is_val o id

settle :
    (id : RowId) (runs : List Run)
    → in_ended_run runs (some id) ≡ true
    → (s : Stimulus) → RowOk (but id runs) s
    → due_stimulus (some id) runs s ≡ false
    → RowOk (open_run runs) s
settle id runs e s k d = record {
  token = k.token;
  attempts = k.attempts;
  retry = k.retry;
  fenced = λ l. elim (Bool-cases (is_val s.run_id id)) [
    | inl q ↦
        let own : s.run_id ≡ some id = ground arith in
        let ended : in_ended_run runs s.run_id ≡ true =
          subst (λ o. in_ended_run runs o ≡ true) (sym own) e in
        absurd (ground arith)
    | inr q ↦ ground (arith, k.fenced l)
  ];
}

-- Cancelling the rows of the ended run restores the invariant.
pub IsLedger-cleanup :
    (id : RowId) (w : World)
    → in_ended_run w.runs (some id) ≡ true
    → RowsOk (but id w.runs) w.tables
    → IsLedger (state_of (cleanup_terminal_run_work (some id) w)).tables
IsLedger-cleanup id w e h =
    let (w', c, runs, gone, _) = cleanup_complete (some id) w in
    let kept : RowsOk (but id w.runs) w'.tables =
      subst (λ (o : Outcome World CleanupResult). RowsOk (but id w.runs) (state_of o).tables) c
        ((Rows-cleanup (some id)).at w h) in
    subst (λ (o : Outcome World CleanupResult). IsLedger (state_of o).tables) (sym c)
      (record { rows = rw runs (All-both _ _ _ w'.stimuli (settle id w.runs e) kept.rows gone) })
