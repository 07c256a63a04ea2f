-- ===== src/Safety/RunControl.antt =====
-- repository.py: the operations on runs and the ledger invariant.
use swarmboard.Prelude.{
  String, ◌≡◌, refl, sym, subst, ◌∙◌, Bool, true, false, Option, none, some, List, arith, All-mono,
  update_where, Option-cases, Bool-cases, inl, inr, ◌==◌, or_else,
}
use swarmboard.Prelude.Int.{ℤ}
use swarmboard.Json.{Json}
use swarmboard.Exec.{skip, Outcome, Exec, ok, raise, state_of, ◌>>=◌, ◌>>◌, pure, when, not_found}
use swarmboard.Models.{RowId, Time, Run, Limits, Event, RunState, ControlAction, is_terminal}
use swarmboard.Tables.{World, run_by, put_run, add_event, insert_run}
use swarmboard.Runs.{controlled, control_run, set_run_state, heartbeat_run, create_run}
use swarmboard.Runs.Control.{
  found_id, run_by-update, ending, controlled-id, with_state-id, ticked, control_run-missing,
  control_run-ended, control_run-refused, control_run-accepted, set_run_state-missing,
  set_run_state-eq,
}
use swarmboard.Runs.Cleanup.{in_ended_run, cleanup_terminal_run_work}
use swarmboard.Blind.{Holds, blind_rules}
use swarmboard.Blind.Primitives.{run_by_self}
use swarmboard.Safety.Ledger.{
  open_run, RowOk, RowOk-mono, IsLedger, IsLedger-new_run, IsLedger-IsBlind,
}
use swarmboard.Safety.Cleaning.{but, IsLedger-cleanup}

abbrev put : List Run → Run → List Run
put runs saved = update_where (λ x. x.id == saved.id) (λ _. saved) runs

module _ (runs : List Run) (saved : Run) where
  open_run-put :
      (o : Option RowId)
      → is_terminal saved.state ≡ false
      → open_run runs o ≡ true
      → open_run (put runs saved) o ≡ true
  open_run-put none t h = refl
  open_run-put (some id) t h = elim (Option-cases (run_by id runs)) [
    | inl n ↦ absurd (ground arith)
    | inr (x, f) ↦ elim (Bool-cases (x.id == saved.id)) [
      | inl q ↦ ground (arith, run_by-update runs saved id x f)
      | inr q ↦ ground (arith, run_by-update runs saved id x f)
    ]
  ]

  but-put : (o : Option RowId) → open_run runs o ≡ true → but saved.id (put runs saved) o ≡ true
  but-put none h = refl
  but-put (some id) h = elim (Option-cases (run_by id runs)) [
    | inl n ↦ absurd (ground arith)
    | inr (x, f) ↦ elim (Bool-cases (x.id == saved.id)) [
      | inl q ↦ ground (arith, found_id id runs x f)
      | inr q ↦ ground (arith, run_by-update runs saved id x f)
    ]
  ]

  in_ended_run-put :
      (run : Run)
      → run_by saved.id runs ≡ some run
      → is_terminal saved.state ≡ true
      → in_ended_run (put runs saved) (some saved.id) ≡ true
  unfolding in_ended_run
  in_ended_run-put run f t =
      ground (arith, found_id saved.id runs run f, run_by-update runs saved saved.id run f)

state_of-then_pure :
    {S A B : Type 0} (m : Exec S A) (b : B) (s : S) → state_of ((m >> pure b) s) ≡ state_of (m s)
unfolding ◌>>=◌
state_of-then_pure {S = S} {A = A} {B = B} m b s = go (m s)
  where
    go :
        (o : Outcome S A)
        → state_of
            (let r : Outcome S B = elim o [ ok _ s' ↦ ok b s' | raise e s' ↦ raise e s' ] in r)
          ≡ state_of o
    go (ok a s') = refl
    go (raise e s') = refl

module _ (saved : Run) (e : Event) (w : World) (h : IsLedger w.tables) where
  abbrev written : World
  written = state_of ((put_run saved >> add_event e) w)

  IsLedger-after_write :
      (run : Run)
      → run_by saved.id w.runs ≡ some run
      → IsLedger
          (state_of (
            when
              (is_terminal saved.state)
              (cleanup_terminal_run_work (some saved.id) >> skip)
              written)).tables
  unfolding put_run add_event ◌>>=◌
  IsLedger-after_write run f = elim (Bool-cases (is_terminal saved.state)) [
    | inl q ↦ rw q (
        subst (λ (v : World). IsLedger v.tables)
          (sym (state_of-then_pure (cleanup_terminal_run_work (some saved.id)) tt written))
          (IsLedger-cleanup saved.id written (in_ended_run-put w.runs saved run f q) (record {
            rows =
                All-mono (RowOk (open_run w.runs)) _ w.stimuli
                  (λ s o. RowOk-mono (open_run w.runs) _ s (but-put w.runs saved s.run_id) o)
                  h.rows;
          })))
    | inr q ↦ rw q (record {
      rows =
          All-mono (RowOk (open_run w.runs)) _ w.stimuli
            (λ s o. RowOk-mono (open_run w.runs) _ s (open_run-put w.runs saved s.run_id q) o)
            h.rows;
    })
  ]

  IsLedger-ending :
      (run : Run)
      → run_by saved.id w.runs ≡ some run
      → IsLedger (state_of (ending saved.id saved e w)).tables
  unfolding put_run add_event ◌>>=◌
  IsLedger-ending run f =
      subst (λ (v : World). IsLedger v.tables)
        (sym (
          state_of-then_pure
            (when (is_terminal saved.state) (cleanup_terminal_run_work (some saved.id) >> skip))
            saved written))
        (IsLedger-after_write run f)

-- An operation on a run that may end it.
abbrev Keeping : {A : Type 0} → Outcome World A → Type 0
Keeping o = IsLedger (state_of o).tables

Ledger-ending :
    (id : RowId) (run saved : Run) (e : Event) (w : World)
    → IsLedger w.tables
    → run_by id w.runs ≡ some run
    → saved.id ≡ run.id
    → Keeping (ending id saved e w)
Ledger-ending id run saved e w h f q =
    let same : saved.id ≡ id = q ∙ found_id id w.runs run f in
    subst (λ k. Keeping (ending k saved e w)) same
      (IsLedger-ending saved e w h run (subst (λ k. run_by k w.runs ≡ some run) (sym same) f))

pub Ledger-control_run :
    (id : RowId) (action : ControlAction) (reason : Option String)
    → Holds IsLedger (control_run id action reason)
Ledger-control_run id action reason = record { at = go }
  where
    accept :
        (w : World) (run : Run)
        → IsLedger w.tables
        → run_by id w.runs ≡ some run
        → is_terminal run.state ≡ false
        → Keeping (control_run id action reason w)
    accept w run h f t = elim (Option-cases (controlled run action reason (w.clock w.reads))) [
      | inl c ↦ subst Keeping (sym (control_run-refused id action reason w run f t c)) h
      | inr (next, c) ↦
          subst Keeping (sym (control_run-accepted id action reason w run f next t c)) (
            Ledger-ending id run _ _ (ticked w) h f
              (controlled-id run next action reason (w.clock w.reads) c))
    ]

    go : (w : World) → IsLedger w.tables → Keeping (control_run id action reason w)
    go w h = elim (Option-cases (run_by id w.runs)) [
      | inl f ↦ subst Keeping (sym (control_run-missing id action reason w f)) h
      | inr (run, f) ↦ elim (Bool-cases (is_terminal run.state)) [
        | inl t ↦ subst Keeping (sym (control_run-ended id action reason w run f t)) h
        | inr t ↦ accept w run h f t
      ]
    ]

pub Ledger-set_run_state :
    (id : RowId) (state : RunState) (reason : Option String) (actor : String)
    → Holds IsLedger (set_run_state id state reason actor)
Ledger-set_run_state id state reason actor = record {
  at = λ w h. elim (Option-cases (run_by id w.runs)) [
    | inl f ↦ subst Keeping (sym (set_run_state-missing id state reason actor w f)) h
    | inr (run, f) ↦
        subst Keeping (sym (set_run_state-eq id state reason actor w run f)) (
          Ledger-ending id run _ _ (ticked w) h f
            (with_state-id run state reason (w.clock w.reads)))
  ];
}

Ledger-insert_run : (r : Run) → Holds IsLedger (insert_run r)
unfolding insert_run
Ledger-insert_run r = record { at = λ w h. IsLedger-new_run w.tables r h }

pub Ledger-create_run :
    (seed : ℤ) (continuous : Bool) (config : Json) (limits : Limits) (state : RunState)
    → Holds IsLedger (create_run seed continuous config limits state)
unfolding create_run
Ledger-create_run seed continuous config limits state =
    search (blind_rules, IsLedger-IsBlind, Ledger-insert_run) depth 12

heartbeat_run-missing :
    (id : RowId) (at : Option Time) (w : World)
    → run_by id w.runs ≡ none
    → heartbeat_run id at w ≡ raise not_found w
unfolding heartbeat_run
heartbeat_run-missing id at w f = ground arith

heartbeat_run-eq :
    (id : RowId) (at : Option Time) (w : World) (run : Run)
    → run_by id w.runs ≡ some run
    → heartbeat_run id at w ≡ (
        let saved = record run { heartbeat_at = some (or_else at (w.clock w.reads)) } in
        ok saved (state_of (put_run saved (ticked w))))
unfolding heartbeat_run
heartbeat_run-eq id at w run f = ground arith

pub Ledger-heartbeat_run : (id : RowId) (at : Option Time) → Holds IsLedger (heartbeat_run id at)
unfolding put_run
Ledger-heartbeat_run id at = record {
  at = λ w h. elim (Option-cases (run_by id w.runs)) [
    | inl f ↦ subst Keeping (sym (heartbeat_run-missing id at w f)) h
    | inr (run, f) ↦ subst Keeping (sym (heartbeat_run-eq id at w run f)) (
        IsLedger-IsBlind.run w.tables run
          (record run { heartbeat_at = some (or_else at (w.clock w.reads)) })
          (run_by_self id w.runs run f) refl h)
  ];
}
