-- ===== src/Safety/Ledger.antt =====
-- The invariant of the delivery ledger, in terms of the tables of models.py.
use swarmboard.Prelude.{
  ◌≡◌, refl, Bool, true, false, not, Option, none, some, List, [], ◌∷◌, ◌++◌, ltb, leb, arith, All,
  All-mono, find-append_some, update_where, is_some, Option-cases, Bool-cases, find-holds, some-inj,
  inl, inr, ◌==◌,
}
use swarmboard.Models.{RowId, Run, Stimulus, is_terminal, is_pending, is_leased, is_live}
use swarmboard.Tables.{Tables, run_by}
use swarmboard.Runs.Control.{run_by-update}
use swarmboard.Blind.{IsBlind}

-- The run of the row may still run: there is none, or it has not ended.
abbrev pub open_run : List Run → Option RowId → Bool
open_run runs none = true
open_run runs (some id) = elim (run_by id runs) [
  | none ↦ false
  | some r ↦ not (is_terminal r.state)
]

-- A row holds a claim token just while it is leased, never uses more attempts than it is allowed,
-- has an attempt left while it waits, and is live only while its run may run.
pub record RowOk (may_run : Option RowId → Bool) (s : Stimulus) : Type 0 where
  pub token : is_some s.claim_token ≡ is_leased s.state
  pub attempts : leb s.attempts s.max_attempts ≡ true
  pub retry : is_pending s.state ≡ true → ltb s.attempts s.max_attempts ≡ true
  pub fenced : is_live s.state ≡ true → may_run s.run_id ≡ true

pub record IsLedger (t : Tables) : Type 0 where
  pub rows : All (RowOk (open_run t.runs)) t.stimuli

-- The invariant, for operations that do not touch the runs.
pub record LedgerOf (runs : List Run) (t : Tables) : Type 0 where
  pub same_runs : t.runs ≡ runs
  pub rows : All (RowOk (open_run runs)) t.stimuli

-- A run that keeps its state stays open, or ended.
pub open_run-same_state :
    (runs : List Run) (r r' : Run) (o : Option RowId)
    → run_by r'.id runs ≡ some r
    → r'.state ≡ r.state
    → open_run runs o ≡ true
    → open_run (update_where (λ x. x.id == r'.id) (λ _. r') runs) o ≡ true
open_run-same_state runs r r' none e q h = refl
open_run-same_state runs r r' (some id) e q h = elim (Option-cases (run_by id runs)) [
  | inl n ↦ absurd (ground arith)
  | inr (x, f) ↦ elim (Bool-cases (x.id == r'.id)) [
    | inl s ↦
        let ids : r'.id ≡ id = ground (arith, find-holds (λ (y : Run). y.id == id) runs x f) in
        let rows : some r ≡ some x = cc in
        ground (arith, run_by-update runs r' id x f, some-inj rows)
    | inr s ↦ ground (arith, run_by-update runs r' id x f)
  ]
]

pub RowOk-mono :
    (may may' : Option RowId → Bool) (s : Stimulus)
    → (may s.run_id ≡ true → may' s.run_id ≡ true)
    → RowOk may s
    → RowOk may' s
RowOk-mono may may' s h k = record {
  token = k.token;
  attempts = k.attempts;
  retry = k.retry;
  fenced = λ l. h (k.fenced l);
}

pub IsLedger-IsBlind : IsBlind IsLedger
IsLedger-IsBlind = record {
  agents = λ t xs k. record { rows = k.rows };
  threads = λ t xs k. record { rows = k.rows };
  posts = λ t xs k. record { rows = k.rows };
  events = λ t xs k. record { rows = k.rows };
  turns = λ t xs k. record { rows = k.rows };
  memories = λ t xs k. record { rows = k.rows };
  run = λ t r r' e q k. record {
    rows =
        All-mono (RowOk (open_run t.runs)) _ t.stimuli
          (λ s o. RowOk-mono (open_run t.runs) _ s (open_run-same_state t.runs r r' s.run_id e q) o)
          k.rows;
  };
}

-- A new run: its key is not in use, or the older run keeps it.
pub IsLedger-new_run :
    (t : Tables) (r : Run) → IsLedger t → IsLedger (record t { runs = t.runs ++ r ∷ [] })
IsLedger-new_run t r k = record {
  rows =
      All-mono (RowOk (open_run t.runs)) _ t.stimuli
        (λ s o. RowOk-mono (open_run t.runs) _ s (grows s.run_id) o) k.rows;
}
  where
    grows : (o : Option RowId) → open_run t.runs o ≡ true → open_run (t.runs ++ r ∷ []) o ≡ true
    grows none h = refl
    grows (some id) h = elim (Option-cases (run_by id t.runs)) [
      | inl n ↦ absurd (ground arith)
      | inr (x, f) ↦ ground (arith, find-append_some (λ (y : Run). y.id == id) t.runs (r ∷ []) x f)
    ]
