-- ===== src/Safety/Changes.antt =====
-- repository.py: the rows that the operations on stimuli write, and the ledger invariant.
use swarmboard.Prelude.{
  ◌≡◌, Bool, true, false, Option, some, none, String, arith, leb, ◌==◌, Bool-cases, inl, inr,
}
use swarmboard.Models.{RowId, Time, Run, Stimulus, is_leased, processing, completed}
use swarmboard.Runs.Cleanup.{cancelled_row}
use swarmboard.Deliveries.{StimulusArgs, stimulus_row}
use swarmboard.Leases.{is_ready, claimed_row, released_row}
use swarmboard.Safety.Ledger.{RowOk}

module _ {may : Option RowId → Bool} where
  pub RowOk-fresh :
      (a : StimulusArgs) (run_id : Option RowId) (id : RowId) (due now : Time)
      → may run_id ≡ true
      → (a.max_attempts == 0) ≡ false
      → RowOk may (stimulus_row a run_id id due now)
  RowOk-fresh a run_id id due now o m = record {
    token = ground arith;
    attempts = ground arith;
    retry = λ _. ground arith;
    fenced = λ _. o;
  }

  module _ (s : Stimulus) (k : RowOk may s) where
    pub RowOk-claimed :
        (token : RowId) (now : Time) → is_ready now s ≡ true → RowOk may (claimed_row s token now)
    unfolding claimed_row
    RowOk-claimed token now r = record {
      token = ground arith;
      attempts = ground (arith, k.retry);
      retry = λ p. absurd (ground arith);
      fenced = λ _. k.fenced (ground arith);
    }

    module _ (l : is_leased s.state ≡ true) where
      pub RowOk-processing : RowOk may (record s { state = processing })
      RowOk-processing = record {
        token = ground (arith, k.token);
        attempts = k.attempts;
        retry = λ p. absurd (ground arith);
        fenced = λ _. k.fenced (ground arith);
      }

      pub RowOk-finished :
          (now : Time)
          → RowOk may (record s { state = completed; completed_at = some now; claim_token = none })
      RowOk-finished now = record {
        token = ground arith;
        attempts = k.attempts;
        retry = λ p. absurd (ground arith);
        fenced = λ p. absurd (ground arith);
      }

      pub RowOk-released : (e : String) (now due : Time) → RowOk may (released_row s e now due)
      unfolding released_row
      RowOk-released e now due = elim (Bool-cases (leb s.max_attempts s.attempts)) [
        | inl q ↦ rw q (record {
          token = ground arith;
          attempts = k.attempts;
          retry = λ p. absurd (ground arith);
          fenced = λ p. absurd (ground arith);
        })
        | inr q ↦ rw q (record {
          token = ground arith;
          attempts = k.attempts;
          retry = λ p. ground arith;
          fenced = λ p. k.fenced (ground arith);
        })
      ]

  pub RowOk-cancelled :
      (now : Time) (s : Stimulus) → RowOk may s → (run : Run) → RowOk may (cancelled_row run now s)
  unfolding cancelled_row
  RowOk-cancelled now s k run = record {
    token = ground arith;
    attempts = k.attempts;
    retry = λ p. absurd (ground arith);
    fenced = λ p. absurd (ground arith);
  }
