-- ===== src/Safety/Stimuli.antt =====
-- repository.py: the operations on stimuli and the ledger invariant.
use swarmboard.Prelude.{
  ℕ, String, ◌≡◌, refl, subst, Bool, true, false, not, Option, none, some, List, [], ◌∷◌, arith,
  All-append, All-update, All-find, Option-cases, inl, inr,
}
use swarmboard.Python.{Python}
use swarmboard.Exec.{◌>>◌, gets}
use swarmboard.Exec.Keeps.{Yields, Keeps-bind, Keeps-yield, Keeps-guard}
use swarmboard.Models.{RowId, Time, Run, Stimulus, Event, is_leased}
use swarmboard.Tables.{
  World, Session, new_uuid, stimulus_by, insert_stimulus, put_stimulus, save_stimulus, add_event,
  get_stimulus,
}
use swarmboard.Threads.{require_open_run}
use swarmboard.Deliveries.{
  StimulusArgs, stimulus_run, check_target, check_source, check_trigger, new_stimulus,
  deliver_stimulus, row_or, add_stimulus,
}
use swarmboard.Leases.{
  is_ready, still_ready, claim_row, claim_found, claim_each, claim_stimuli, claimed_stimulus,
  mark_stimulus_processing, finish_stimulus, complete_stimulus, release_stimulus,
}
use swarmboard.Blind.{Holds, read_rules}
use swarmboard.Safety.Ledger.{open_run, RowOk, LedgerOf}
use swarmboard.Safety.Changes.{
  RowOk-fresh, RowOk-claimed, RowOk-processing, RowOk-finished, RowOk-released,
}

true_of_not : (b : Bool) → not b ≡ false → b ≡ true
true_of_not true h = refl
true_of_not false h = cc

-- A row under a lease.
abbrev pub Leased : List Run → Stimulus → Type 0
Leased runs s = RowOk (open_run runs) s × (is_leased s.state ≡ true)

-- What the guarded UPDATE of a claim finds.
record Fit (runs : List Run) (now : Time) (o : Option Stimulus) : Type 0 where
  pub fits : (s : Stimulus) → o ≡ some s → RowOk (open_run runs) s × (is_ready now s ≡ true)

module _ {runs : List Run} where
  pub Ledger-add_event : (e : Event) → Holds (LedgerOf runs) (add_event e)
  unfolding add_event
  Ledger-add_event e = record { at = λ w h. record { same_runs = h.same_runs; rows = h.rows } }

  pub Ledger-insert :
      (s : Stimulus) → RowOk (open_run runs) s → Holds (LedgerOf runs) (insert_stimulus s)
  unfolding insert_stimulus
  Ledger-insert s k = record {
    at = λ w h. record {
      same_runs = h.same_runs;
      rows = All-append (RowOk (open_run runs)) w.stimuli (s ∷ []) h.rows (k, tt);
    };
  }

  pub Ledger-put : (s : Stimulus) → RowOk (open_run runs) s → Holds (LedgerOf runs) (put_stimulus s)
  unfolding put_stimulus
  Ledger-put s k = record {
    at = λ w h. record {
      same_runs = h.same_runs;
      rows =
          All-update (RowOk (open_run runs)) (RowOk (open_run runs)) _ (λ _. s) w.stimuli
            (λ _ _ _. k) (λ _ _ o. o) h.rows;
    };
  }

  pub ruleset ledger_rules = (read_rules, Ledger-add_event, Ledger-insert, Ledger-put)

  pub Ledger-save :
      (s : Stimulus) → RowOk (open_run runs) s → Holds (LedgerOf runs) (save_stimulus s)
  unfolding save_stimulus
  Ledger-save s k = search (ledger_rules, RowOk-now)
    where
      RowOk-now : (t : Time) → RowOk (open_run runs) (record s { updated_at = t })
      RowOk-now t = record {
        token = k.token;
        attempts = k.attempts;
        retry = k.retry;
        fenced = k.fenced;
      }

  get_stimulus-Yields :
      (id : RowId)
      → Yields (λ (w : World). w.tables) (LedgerOf runs) (RowOk (open_run runs)) (get_stimulus id)
  unfolding get_stimulus
  get_stimulus-Yields id = record {
    of = λ w h s w' e. elim (Option-cases (stimulus_by id w.stimuli)) [
      | inl n ↦ absurd (ground arith)
      | inr (x, f) ↦
          subst (RowOk (open_run runs)) (ground arith)
            (All-find (RowOk (open_run runs)) _ w.stimuli x f h.rows)
    ];
  }

  claimed_stimulus-Yields :
      (id token : RowId)
      → Yields (λ (w : World). w.tables) (LedgerOf runs) (Leased runs) (claimed_stimulus id token)
  unfolding claimed_stimulus get_stimulus
  claimed_stimulus-Yields id token = record {
    of = λ w h s w' e. elim (Option-cases (stimulus_by id w.stimuli)) [
      | inl n ↦ absurd (ground arith)
      | inr (x, f) ↦
          let same : x ≡ s = ground arith in
          (
            subst (RowOk (open_run runs)) same
                (All-find (RowOk (open_run runs)) _ w.stimuli x f h.rows),
            ground arith,
          )
    ];
  }

  Ledger-claimed_stimulus : (id token : RowId) → Holds (LedgerOf runs) (claimed_stimulus id token)
  unfolding claimed_stimulus
  Ledger-claimed_stimulus id token = search read_rules depth 8

  pub Ledger-mark : (id token : RowId) → Holds (LedgerOf runs) (mark_stimulus_processing id token)
  unfolding mark_stimulus_processing
  Ledger-mark id token =
      Keeps-yield (Leased runs) (claimed_stimulus id token) _ (Ledger-claimed_stimulus id token)
        (claimed_stimulus-Yields id token)
        (λ s l. search (ledger_rules, Ledger-save, RowOk-processing s l.0 l.1) depth 8)

  Ledger-finish_stimulus :
      (s : Stimulus) (token : Option RowId)
      → RowOk (open_run runs) s
      → Holds (LedgerOf runs) (finish_stimulus s token)
  unfolding finish_stimulus
  Ledger-finish_stimulus s token k =
      search (Keeps-guard, ledger_rules, Ledger-save, RowOk-finished s k, true_of_not) depth 12

  pub Ledger-complete :
      (id : RowId) (token : Option RowId) → Holds (LedgerOf runs) (complete_stimulus id token)
  unfolding complete_stimulus
  Ledger-complete id token =
      Keeps-yield (RowOk (open_run runs)) (get_stimulus id) _ (search read_rules)
        (get_stimulus-Yields id) (λ s k. search (ledger_rules, Ledger-finish_stimulus, k) depth 8)

  pub Ledger-release :
      (py : Python) (id token : RowId) (e : String) (delay : ℕ)
      → Holds (LedgerOf runs) (release_stimulus py id token e delay)
  unfolding release_stimulus
  Ledger-release py id token e delay =
      Keeps-yield (Leased runs) (claimed_stimulus id token) _ (Ledger-claimed_stimulus id token)
        (claimed_stimulus-Yields id token)
        (λ s l. search (ledger_rules, Ledger-save, RowOk-released s l.0 l.1) depth 8)

  Ledger-claim_row :
      (now : Time) (token : RowId) (s : Stimulus)
      → RowOk (open_run runs) s
      → is_ready now s ≡ true
      → Holds (LedgerOf runs) (claim_row now token s)
  unfolding claim_row
  Ledger-claim_row now token s k r = search (ledger_rules, RowOk-claimed s k token now r) depth 8

  still_ready-Yields :
      (now : Time) (id : RowId)
      → Yields
          (λ (w : World). w.tables)
          (LedgerOf runs)
          (Fit runs now)
          (gets (λ w. still_ready now (stimulus_by id w.stimuli)))
  unfolding gets still_ready
  still_ready-Yields now id = record {
    of = λ w h o w' e. record { fits = λ s q. found w h s (ground arith) };
  }
    where
      found :
          (w : World)
          → LedgerOf runs w.tables
          → (s : Stimulus) → still_ready now (stimulus_by id w.stimuli) ≡ some s
          → RowOk (open_run runs) s × (is_ready now s ≡ true)
      found w h s q = elim (Option-cases (stimulus_by id w.stimuli)) [
        | inl n ↦ absurd (ground arith)
        | inr (x, f) ↦ (
          subst (RowOk (open_run runs)) (ground arith)
              (All-find (RowOk (open_run runs)) _ w.stimuli x f h.rows),
          ground arith,
        )
      ]

  Ledger-claim_found :
      (now : Time) (token : RowId) (o : Option Stimulus) (rest : Session (List Stimulus))
      → Fit runs now o
      → Holds (LedgerOf runs) rest
      → Holds (LedgerOf runs) (claim_found now token o rest)
  unfolding claim_found
  Ledger-claim_found now token none rest f k = k
  Ledger-claim_found now token (some s) rest f k =
      search (ledger_rules, Ledger-claim_row now token s (f.fits s refl).0 (f.fits s refl).1, k)
        depth 8

  Ledger-claim_each : (now : Time) (cs : List Stimulus) → Holds (LedgerOf runs) (claim_each now cs)
  unfolding claim_each
  Ledger-claim_each now [] = search ledger_rules
  Ledger-claim_each now (c ∷ cs) = Keeps-bind new_uuid _ (search ledger_rules) (λ token.
      Keeps-yield (Fit runs now) (gets (λ w. still_ready now (stimulus_by c.id w.stimuli))) _
        (search ledger_rules) (still_ready-Yields now c.id)
        (λ o f. Ledger-claim_found now token o (claim_each now cs) f (Ledger-claim_each now cs)))

  pub Ledger-claim :
      (run : Option RowId) (limit : ℕ) (at : Option Time)
      → Holds (LedgerOf runs) (claim_stimuli run limit at)
  unfolding claim_stimuli
  Ledger-claim run limit at = search (ledger_rules, Ledger-claim_each) depth 8

  require_open_run-Yields :
      (id : Option RowId)
      → Yields
          (λ (w : World). w.tables)
          (LedgerOf runs)
          (λ _. open_run runs id ≡ true)
          (require_open_run id)
  unfolding require_open_run
  require_open_run-Yields none = record { of = λ w h u w' e. refl }
  require_open_run-Yields (some id) = record { of = λ w h u w' e. ground (arith, h.same_runs) }

  Ledger-new_stimulus :
      (a : StimulusArgs) (run : Option RowId)
      → open_run runs run ≡ true
      → Holds (LedgerOf runs) (new_stimulus a run)
  unfolding new_stimulus
  Ledger-new_stimulus a run o = search (Keeps-guard, ledger_rules, RowOk-fresh) depth 12

  Ledger-stimulus_run : (given own : Option RowId) → Holds (LedgerOf runs) (stimulus_run given own)
  unfolding stimulus_run
  Ledger-stimulus_run none own = search read_rules
  Ledger-stimulus_run (some id) none = search read_rules
  Ledger-stimulus_run (some id) (some own) = search read_rules

  Ledger-require_open_run : (id : Option RowId) → Holds (LedgerOf runs) (require_open_run id)
  unfolding require_open_run
  Ledger-require_open_run none = search read_rules
  Ledger-require_open_run (some id) = search read_rules

  Ledger-check_target : (id : Option RowId) → Holds (LedgerOf runs) (check_target id)
  unfolding check_target
  Ledger-check_target none = search read_rules
  Ledger-check_target (some id) = search read_rules

  Ledger-check_source :
      (id : Option RowId) (thread : RowId) → Holds (LedgerOf runs) (check_source id thread)
  unfolding check_source
  Ledger-check_source none thread = search read_rules
  Ledger-check_source (some id) thread = search read_rules

  Ledger-check_trigger : (id : Option ℕ) → Holds (LedgerOf runs) (check_trigger id)
  unfolding check_trigger
  Ledger-check_trigger none = search read_rules
  Ledger-check_trigger (some id) = search read_rules

  Ledger-after_fence :
      (id : Option RowId) (k : Session Stimulus)
      → (open_run runs id ≡ true → Holds (LedgerOf runs) k)
      → Holds (LedgerOf runs) (require_open_run id >> k)
  Ledger-after_fence id k f =
      Keeps-yield _ (require_open_run id) _ (Ledger-require_open_run id)
        (require_open_run-Yields id) (λ _ o. f o)

  Ledger-row_or :
      (o : Option Stimulus) (m : Session Stimulus)
      → Holds (LedgerOf runs) m
      → Holds (LedgerOf runs) (row_or o m)
  Ledger-row_or none m k = record { at = k.at }
  Ledger-row_or (some s) m k = record { at = λ w h. h }

  Ledger-deliver : (a : StimulusArgs) → Holds (LedgerOf runs) (deliver_stimulus a)
  unfolding deliver_stimulus
  Ledger-deliver a =
      search
        (
          Ledger-after_fence, read_rules, Ledger-stimulus_run, Ledger-check_target,
          Ledger-check_source, Ledger-check_trigger, Ledger-new_stimulus,
        )
        depth 12

  pub Ledger-add_stimulus : (a : StimulusArgs) → Holds (LedgerOf runs) (add_stimulus a)
  unfolding add_stimulus
  Ledger-add_stimulus a = search (read_rules, Ledger-row_or, Ledger-deliver) depth 8
