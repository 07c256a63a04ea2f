-- ===== src/Recovery/Settled.antt =====
-- repository.py, `recover_inflight_work`: the leases and turns of its scope afterwards.
use swarmboard.Prelude.{
  String, ◌+◌, ◌-◌, ◌≡◌, refl, sym, subst, Bool, true, false, ◌&&◌, Option, List, arith, All,
  All-trivial, or_else,
}
use swarmboard.Exec.{pure, gets, for_each, ok, ◌>>=◌, ◌>>◌, state_of}
use swarmboard.Exec.Steps.{bind-ok}
use swarmboard.Exec.Sweep.{Left-start, none-Left, Round, sweep}
use swarmboard.Models.{RowId, Time, Stimulus, Turn, is_leased, is_unfinished}
use swarmboard.Tables.{World, Session}
use swarmboard.Runs.Cleanup.{cleanup_terminal_run_work}
use swarmboard.Runs.Cancelled.{due_counts, cleanup_complete}
use swarmboard.Leases.{released_row}
use swarmboard.Recovery.{
  RecoveryResult, count, not_spent, is_stale, stale_stimuli, is_spent, recover_stimulus,
  turn_in_run, of_stale, interrupted_turns, interrupted_row, interrupt_turn, recover_inflight_work,
}

released_row-id :
    (s : Stimulus) (e : String) (now due : Time) → (released_row s e now due).id ≡ s.id
unfolding released_row
released_row-id s e now due = ground arith

released_row-idle :
    (s : Stimulus) (e : String) (now due : Time)
    → is_leased (released_row s e now due).state ≡ false
unfolding released_row
released_row-idle s e now due = ground arith

abbrev reason : String
reason = "recovered after interrupted worker"

module _ (run : Option RowId) where
  recover-Round :
      (cutoff : Time) (turns : List Turn) (now : Time) (s : Stimulus) (w : World)
      → w.turns ≡ turns
      → Unit {0}
      → (w' : World) × (recover_stimulus now s w ≡ ok tt w')
        × Round
            (λ x. x.id)
            (is_stale cutoff run)
            (λ v. v.stimuli)
            (λ v. v.turns ≡ turns)
            s
            w'
            w.stimuli
  unfolding recover_stimulus
  recover-Round cutoff turns now s w k _ = (
    state_of (recover_stimulus now s w),
    refl,
    record {
      stays = k;
      row = record (released_row s reason now now) { updated_at = w.clock w.reads };
      dead = ground (arith, released_row-idle s reason now now);
      written = rw (released_row-id s reason now now) refl;
    },
  )

  module _ (stale : List Stimulus) where
    abbrev pub is_orphan : Turn → Bool
    is_orphan t = is_unfinished t.state && of_stale stale t.stimulus_id && turn_in_run run t

    interrupt-Round :
        (stimuli : List Stimulus) (now : Time) (t : Turn) (w : World)
        → w.stimuli ≡ stimuli
        → Unit {0}
        → (w' : World) × (interrupt_turn now t w ≡ ok tt w')
          × Round (λ x. x.id) is_orphan (λ v. v.turns) (λ v. v.stimuli ≡ stimuli) t w' w.turns
    unfolding interrupt_turn
    interrupt-Round stimuli now t w k _ = (
      state_of (interrupt_turn now t w),
      refl,
      record { stays = k; row = interrupted_row now t; dead = ground arith; written = refl },
    )

-- The world once the cleanup has run, and the cutoff of a stale lease.
abbrev pub cleaned : Option RowId → World → World
cleaned run w = state_of (cleanup_terminal_run_work run w)

abbrev pub cutoff_of : Option Time → Option RowId → World → Time
cutoff_of before run w = or_else before ((cleaned run w).clock (cleaned run w).reads - 120000000)

abbrev recovered : List Stimulus → List Turn → RecoveryResult
recovered stale turns = record {
  stimuli_requeued = count not_spent stale;
  stimuli_failed = count is_spent stale;
  turns_failed = count (λ _. true) turns;
}

-- What recovery does after the leases.
abbrev close_orphans : List Stimulus → Option RowId → Time → Session RecoveryResult
close_orphans stale run now = do
  turns ← gets (interrupted_turns stale run)
  for_each turns (interrupt_turn now)
  pure (recovered stale turns)

-- Recovery never raises. Afterwards no lease of its scope is stale at the cutoff, which is two
-- minutes ago where none is given, and no turn of its scope that belongs to a lease which was
-- stale after the cleanup is unfinished.
pub recover_inflight_work-settled :
    (before : Option Time) (run : Option RowId) (w : World)
    → (result : RecoveryResult) × (w' : World) × (recover_inflight_work before run w ≡ ok result w')
      × All (λ s. is_stale (cutoff_of before run w) run s ≡ false) w'.stimuli
      × All
          (λ t.
            is_orphan run (stale_stimuli (cutoff_of before run w) run (cleaned run w)) t ≡ false)
          w'.turns
unfolding recover_inflight_work
recover_inflight_work-settled before run w =
    let (_, e0, _, _, _) = cleanup_complete run w in
    let e1 : cleanup_terminal_run_work run w ≡ ok (due_counts run w) (cleaned run w) =
      subst (λ o. o ≡ ok (due_counts run w) (state_of o)) (sym e0) refl in
    let cutoff = cutoff_of before run w in
    let w1 = cleaned run w in
    let now = w1.clock (w1.reads + 1) in
    let w2 : World = record w1 { reads = w1.reads + 1 + 1 } in
    let stale = stale_stimuli cutoff run w1 in
    let (w3, e3, k3, l3) =
      sweep (λ (x : Stimulus). x.id) (is_stale cutoff run) (λ v. v.stimuli)
        (λ v. v.turns ≡ w1.turns) (λ _. Unit {0}) (recover_stimulus now)
        (recover-Round run cutoff w1.turns now) stale w2 refl (All-trivial _ stale (λ _. tt))
        (Left-start _ _ w1.stimuli) in
    let (w4, e4, k4, l4) =
      sweep (λ (x : Turn). x.id) (is_orphan run stale) (λ v. v.turns) (λ v. v.stimuli ≡ w3.stimuli)
        (λ _. Unit {0}) (interrupt_turn now) (interrupt-Round run stale w3.stimuli now)
        (interrupted_turns stale run w3) w3 refl
        (All-trivial _ (interrupted_turns stale run w3) (λ _. tt)) (Left-start _ _ w3.turns) in
    (
      recovered stale (interrupted_turns stale run w3),
      w4,
      bind-ok (cleanup_terminal_run_work run) _ w (due_counts run w) w1 _ e1 (
          bind-ok (for_each stale (recover_stimulus now)) (λ _. close_orphans stale run now) w2 tt
            w3 _ e3
            (bind-ok (for_each (interrupted_turns stale run w3) (interrupt_turn now))
              (λ _. pure (recovered stale (interrupted_turns stale run w3))) w3 tt w4 _ e4 refl)),
      rw k4 (none-Left (λ (x : Stimulus). x.id) _ w3.stimuli l3),
      none-Left (λ (x : Turn). x.id) _ w4.turns l4,
    )
