-- ===== src/Safety/Recovering.antt =====
-- repository.py: `recover_inflight_work` and the ledger invariant.
use swarmboard.Prelude.{◌≡◌, refl, subst, ◌∙◌, Option, List, arith, All, All-keep_if}
use swarmboard.Exec.{ok, state_of, gets, for_each, ◌>>=◌}
use swarmboard.Exec.Keeps.{Yields, Keeps-yield, Keeps-each_of}
use swarmboard.Models.{RowId, Time, Run, Stimulus, Turn}
use swarmboard.Tables.{World, Session, put_turn}
use swarmboard.Runs.Cleanup.{cleanup_terminal_run_work}
use swarmboard.Runs.Cancelled.{cleanup_complete}
use swarmboard.Recovery.{
  is_stale, stale_stimuli, recover_stimulus, interrupt_turn, recover_inflight_work,
}
use swarmboard.Blind.{Holds, read_rules}
use swarmboard.Safety.Ledger.{open_run, RowOk, IsLedger, LedgerOf}
use swarmboard.Safety.Changes.{RowOk-released}
use swarmboard.Safety.Cleaning.{Rows-cleanup}
use swarmboard.Safety.Stimuli.{Leased, Ledger-save, ledger_rules}

-- The rows of a SELECT of leased rows.
record AllLeased (runs : List Run) (ss : List Stimulus) : Type 0 where
  pub leased : All (Leased runs) ss

module _ {runs : List Run} where
  Ledger-put_turn : (t : Turn) → Holds (LedgerOf runs) (put_turn t)
  unfolding put_turn
  Ledger-put_turn t = record { at = λ w h. record { same_runs = h.same_runs; rows = h.rows } }

  pub Ledger-cleanup :
      (scope : Option RowId) → Holds (LedgerOf runs) (cleanup_terminal_run_work scope)
  Ledger-cleanup scope = record { at = go }
    where
      go :
          (w : World)
          → LedgerOf runs w.tables
          → LedgerOf runs (state_of (cleanup_terminal_run_work scope w)).tables
      go w h =
          let (w', c, r, _, _) = cleanup_complete scope w in
          let same : (state_of (cleanup_terminal_run_work scope w)).runs ≡ runs =
            rw c (r ∙ h.same_runs) in
          record {
            same_runs = same;
            rows = ((Rows-cleanup scope).at w (record { rows = h.rows })).rows;
          }

  Ledger-recover :
      (s : Stimulus) → Leased runs s → (now : Time) → Holds (LedgerOf runs) (recover_stimulus now s)
  unfolding recover_stimulus
  Ledger-recover s l now = search (ledger_rules, Ledger-save, RowOk-released s l.0 l.1) depth 8

  Ledger-recover_each :
      (ss : List Stimulus)
      → AllLeased runs ss
      → (now : Time) → Holds (LedgerOf runs) (for_each ss (recover_stimulus now))
  Ledger-recover_each ss a now =
      Keeps-each_of (Leased runs) (recover_stimulus now) ss (λ s l. Ledger-recover s l now) a.leased

  Ledger-interrupt : (now : Time) (t : Turn) → Holds (LedgerOf runs) (interrupt_turn now t)
  unfolding interrupt_turn
  Ledger-interrupt now t = search (ledger_rules, Ledger-put_turn) depth 8

  stale-Yields :
      (cutoff : Time) (run : Option RowId)
      → Yields
          (λ (w : World). w.tables)
          (LedgerOf runs)
          (AllLeased runs)
          (gets (stale_stimuli cutoff run))
  unfolding gets stale_stimuli
  stale-Yields cutoff run = record {
    of = λ w h ss w' e. record {
      leased = subst (All (Leased runs)) (rows w ss w' e) (
          All-keep_if (RowOk (open_run runs)) (Leased runs) (is_stale cutoff run) w.stimuli
            (λ s q k. (k, ground arith)) h.rows);
    };
  }
    where
      rows :
          (w : World) (ss : List Stimulus) (w' : World)
          → ok (stale_stimuli cutoff run w) w ≡ ok ss w'
          → stale_stimuli cutoff run w ≡ ss
      rows w ss w' e = cc

  Ledger-after_stale :
      {A : Type 0} (cutoff : Time) (run : Option RowId) (f : List Stimulus → Session A)
      → ((ss : List Stimulus) → AllLeased runs ss → Holds (LedgerOf runs) (f ss))
      → Holds (LedgerOf runs) (gets (stale_stimuli cutoff run) >>= f)
  Ledger-after_stale cutoff run f k =
      Keeps-yield (AllLeased runs) (gets (stale_stimuli cutoff run)) f (search read_rules)
        (stale-Yields cutoff run) k

  pub Ledger-recover_inflight :
      (before : Option Time) (run : Option RowId)
      → Holds (LedgerOf runs) (recover_inflight_work before run)
  unfolding recover_inflight_work
  Ledger-recover_inflight before run =
      search (Ledger-after_stale, read_rules, Ledger-cleanup, Ledger-recover_each, Ledger-interrupt)
        depth 14

-- What holds for every table of runs holds of the invariant.
pub IsLedger-of :
    {A : Type 0} (m : Session A) → ((runs : List Run) → Holds (LedgerOf runs) m) → Holds IsLedger m
IsLedger-of m k = record {
  at = λ w h.
      let after = (k w.runs).at w (record { same_runs = refl; rows = h.rows }) in
      record { rows = rw after.same_runs after.rows };
}
