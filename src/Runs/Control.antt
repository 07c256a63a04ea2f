-- ===== src/Runs/Control.antt =====
-- repository.py, `control_run` and `set_run_state`: what they do on every branch.
use swarmboard.Prelude.{
  ◌+◌, String, ◌≡◌, refl, ◌∙◌, or_else, text_or, if◌then◌else◌, true, false, Option, none, some,
  List, [], ◌∷◌, arith, Bool-cases, inl, inr, ==_iff, find-holds, ◌==◌, find-update_where,
  update_where,
}
use swarmboard.Json.{text}
use swarmboard.Exec.{
  skip, ok, raise, ◌>>=◌, ◌>>◌, pure, when, state_of, not_found, invalid_state, Error,
}
use swarmboard.Models.{
  RowId, Time, Run, Event, run_control, run_became, RunState, created, running, paused, stopped,
  completed, emergency_stopped, failed, ControlAction, start, resume, pause, step, stop,
  emergency_stop, other, is_terminal,
}
use swarmboard.Tables.{World, Session, run_by, put_run, add_event, event_of, opt_text}
use swarmboard.Runs.{controlled, control_run, with_state, set_run_state, refusal}
use swarmboard.Runs.Cleanup.{state_text, cleanup_terminal_run_work}
use swarmboard.Runs.Cancelled.{cleanup_complete}

pub found_id : (id : RowId) (runs : List Run) (x : Run) → run_by id runs ≡ some x → x.id ≡ id
found_id id runs x e = (==_iff x.id id).0 (find-holds (λ (r : Run). r.id == id) runs x e)

pub run_by-update :
    (runs : List Run) (r' : Run) (id : RowId) (x : Run)
    → run_by id runs ≡ some x
    → run_by id (update_where (λ y. y.id == r'.id) (λ _. r') runs)
      ≡ some (if x.id == r'.id then r' else x)
run_by-update runs r' id x e =
    rw
      (
        find-update_where (λ (y : Run). y.id == id) (λ y. y.id == r'.id) (λ _. r') runs
            (λ y h. ground arith),
        e,
      )
      refl

abbrev pub control_event : RowId → ControlAction → Option String → Run → Event
control_event id action reason next = record (event_of (run_control action)) {
  run_id = some id;
  actor_type = "human";
  payload = ("state", text (state_text next.state)) ∷ ("reason", opt_text reason) ∷ [];
}

-- What `control_run` and `set_run_state` do once they know the new row.
abbrev pub ending : RowId → Run → Event → Session Run
ending id saved e = do
  put_run saved
  add_event e
  when (is_terminal saved.state) (cleanup_terminal_run_work (some id) >> skip)
  pure saved

pub controlled-id :
    (run next : Run) (a : ControlAction) (reason : Option String) (now : Time)
    → controlled run a reason now ≡ some next
    → next.id ≡ run.id
unfolding controlled
controlled-id run next start reason now h = ground arith
controlled-id run next resume reason now h = ground arith
controlled-id run next pause reason now h = ground arith
controlled-id run next step reason now h = ground arith
controlled-id run next stop reason now h = ground arith
controlled-id run next emergency_stop reason now h = ground arith
controlled-id run next (other word) reason now h = cc

pub with_state-id :
    (run : Run) (s : RunState) (reason : Option String) (now : Time)
    → (with_state run s reason now).id ≡ run.id
unfolding with_state
with_state-id run s reason now = ground arith

abbrev pub ticked : World → World
ticked w = record w { reads = w.reads + 1 }

module _ (id : RowId) (action : ControlAction) (reason : Option String) (w : World) where
  pub control_run-missing :
      run_by id w.runs ≡ none → control_run id action reason w ≡ raise not_found w
  unfolding control_run
  control_run-missing f = ground arith

  module _ (run : Run) (f : run_by id w.runs ≡ some run) where
    pub control_run-ended :
        is_terminal run.state ≡ true
        → control_run id action reason w ≡ raise invalid_state (ticked w)
    unfolding control_run
    control_run-ended t = ground arith

    pub control_run-refused :
        is_terminal run.state ≡ false
        → controlled run action reason (w.clock w.reads) ≡ none
        → control_run id action reason w ≡ raise (refusal action) (ticked w)
    unfolding control_run
    control_run-refused t c = ground arith

    pub control_run-accepted :
        (next : Run)
        → is_terminal run.state ≡ false
        → controlled run action reason (w.clock w.reads) ≡ some next
        → control_run id action reason w
          ≡ ending id
              (record next { heartbeat_at = some (w.clock w.reads) })
              (control_event id action reason next)
              (ticked w)
    unfolding control_run
    control_run-accepted next t c = rw (f, ◌>>=◌) (rw (t, c, ◌>>=◌) refl)

abbrev pub state_event : RowId → RunState → Option String → String → Event
state_event id state reason actor = record (event_of (run_became state)) {
  run_id = some id;
  actor_type = actor;
  payload = ("state", text (state_text state)) ∷ ("reason", opt_text reason) ∷ [];
}

module _ (id : RowId) (state : RunState) (reason : Option String) (actor : String) (w : World) where
  pub set_run_state-missing :
      run_by id w.runs ≡ none → set_run_state id state reason actor w ≡ raise not_found w
  unfolding set_run_state
  set_run_state-missing f = ground arith

pub set_run_state-eq :
    (id : RowId) (state : RunState) (reason : Option String) (actor : String) (w : World)
    (run : Run)
    → run_by id w.runs ≡ some run
    → set_run_state id state reason actor w
      ≡ ending id
          (with_state run state reason (w.clock w.reads))
          (state_event id state reason actor)
          (ticked w)
unfolding set_run_state
set_run_state-eq id created reason actor w run f = rw (f, ◌>>=◌) refl
set_run_state-eq id running reason actor w run f = rw (f, ◌>>=◌) refl
set_run_state-eq id paused reason actor w run f = rw (f, ◌>>=◌) refl
set_run_state-eq id stopped reason actor w run f = rw (f, ◌>>=◌) refl
set_run_state-eq id completed reason actor w run f = rw (f, ◌>>=◌) refl
set_run_state-eq id emergency_stopped reason actor w run f = rw (f, ◌>>=◌) refl
set_run_state-eq id failed reason actor w run f = rw (f, ◌>>=◌) refl

-- The state machine that `control_run` documents: the state that follows, if the action is legal.
abbrev pub next_state : RunState → ControlAction → Option RunState
next_state created start = some running
next_state created resume = some running
next_state created step = some running
next_state created stop = some stopped
next_state created emergency_stop = some emergency_stopped
next_state running pause = some paused
next_state running stop = some stopped
next_state running emergency_stop = some emergency_stopped
next_state paused start = some running
next_state paused resume = some running
next_state paused step = some running
next_state paused stop = some stopped
next_state paused emergency_stop = some emergency_stopped
next_state _ _ = none

controlled-some :
    (run : Run) (a : ControlAction) (reason : Option String) (now : Time) (s : RunState)
    → next_state run.state a ≡ some s
    → (next : Run) × (controlled run a reason now ≡ some next)
      × (next.state ≡ s)
      × (is_terminal run.state ≡ false)
unfolding controlled
controlled-some run start reason now s h = (
  record run {
    state = running;
    started_at = some (or_else run.started_at now);
    paused_at = none;
    step_once = some false;
  },
  ground arith,
  ground arith,
  ground arith,
)
controlled-some run resume reason now s h = (
  record run {
    state = running;
    started_at = some (or_else run.started_at now);
    paused_at = none;
    step_once = some false;
  },
  ground arith,
  ground arith,
  ground arith,
)
controlled-some run pause reason now s h =
    (record run { state = paused; paused_at = some now }, ground arith, ground arith, ground arith)
controlled-some run step reason now s h = (
  record run {
    state = running;
    continuous = false;
    started_at = some (or_else run.started_at now);
    step_once = some true;
  },
  ground arith,
  ground arith,
  ground arith,
)
controlled-some run stop reason now s h = (
  record run {
    state = stopped;
    stopped_at = some now;
    finished_at = some now;
    stop_reason = reason;
  },
  ground arith,
  ground arith,
  ground arith,
)
controlled-some run emergency_stop reason now s h = (
  record run {
    state = emergency_stopped;
    stopped_at = some now;
    finished_at = some now;
    stop_reason = some (text_or reason "emergency stop");
  },
  ground arith,
  ground arith,
  ground arith,
)
controlled-some run (other word) reason now s h = absurd (ground arith)

controlled-none :
    (run : Run) (a : ControlAction) (reason : Option String) (now : Time)
    → next_state run.state a ≡ none
    → is_terminal run.state ≡ false
    → controlled run a reason now ≡ none
unfolding controlled
controlled-none run start reason now h t = ground arith
controlled-none run resume reason now h t = ground arith
controlled-none run pause reason now h t = ground arith
controlled-none run step reason now h t = ground arith
controlled-none run stop reason now h t = absurd (ground arith)
controlled-none run emergency_stop reason now h t = absurd (ground arith)
controlled-none run (other word) reason now h t = refl

-- Past the lookup of the run, the writes never raise, and the row is written.
ending-ok :
    (id : RowId) (saved : Run) (e : Event) (w : World)
    → (w' : World) × (ending id saved e w ≡ ok saved w')
      × (w'.runs ≡ update_where (λ x. x.id == saved.id) (λ _. saved) w.runs)
unfolding ◌>>=◌ put_run add_event
ending-ok id saved e w = elim (Bool-cases (is_terminal saved.state)) [
  | inl t ↦
      let (w', c, r, _, _) =
        cleanup_complete (some id) (state_of ((put_run saved >> add_event e) w)) in
      (w', rw t (rw (c, ◌>>=◌) refl), r)
  | inr t ↦ (state_of ((put_run saved >> add_event e) w), rw t refl, refl)
]

module _ (id : RowId) (action : ControlAction) (reason : Option String) (w : World) (run : Run)
    (f : run_by id w.runs ≡ some run) where
  -- An action that the state machine allows succeeds: `control_run` returns the run in the next
  -- state, and that row is the one that the table then holds.
  pub control_run-allowed :
      (s : RunState)
      → next_state run.state action ≡ some s
      → (saved : Run) × (w' : World) × (control_run id action reason w ≡ ok saved w')
        × (saved.state ≡ s)
        × (run_by id w'.runs ≡ some saved)
  control_run-allowed s n =
      let (next, c, st, t) = controlled-some run action reason (w.clock w.reads) s n in
      let saved = record next { heartbeat_at = some (w.clock w.reads) } in
      let (w', e, r) = ending-ok id saved (control_event id action reason next) (ticked w) in
      (
        saved,
        w',
        control_run-accepted id action reason w run f next t c ∙ e,
        st,
        rw r (
            ground (
              arith,
              controlled-id run next action reason (w.clock w.reads) c,
              found_id id w.runs run f,
              run_by-update w.runs saved id run f,
            )),
      )

  -- Any other action raises and changes no row.
  pub control_run-forbidden :
      next_state run.state action ≡ none
      → (e : Error) × (control_run id action reason w ≡ raise e (ticked w))
  control_run-forbidden n = elim (Bool-cases (is_terminal run.state)) [
    | inl t ↦ (invalid_state, control_run-ended id action reason w run f t)
    | inr t ↦ (
      refusal action,
      control_run-refused id action reason w run f t
          (controlled-none run action reason (w.clock w.reads) n t),
    )
  ]
