-- ===== src/Threads/Fence.antt =====
-- repository.py, the guards that posts, deliveries, wake-ups and status changes put before a run
-- that has ended.
use swarmboard.Prelude.{
  ◌==◌, or_else, if◌then◌else◌, Bool-cases, Option-cases, ==_iff, eq-true_of_eq, inl, inr, String,
  ◌≡◌, refl, sym, subst, true, false, Option, none, some, str_eq,
}
use swarmboard.Python.{Python}
use swarmboard.Exec.{raise, ◌>>=◌, invalid_state, value_error, ok}
use swarmboard.Models.{RowId, Run, Thread, ThreadStatus, is_terminal, is_closed}
use swarmboard.Tables.{World, run_by, thread_by}
use swarmboard.Threads.{same_status, set_thread_status, wake_thread}
use swarmboard.Deliveries.{StimulusArgs, by_dedupe, add_stimulus}
use swarmboard.Posts.{PostArgs, create_post, expected}
use swarmboard.Posts.Keys.{post_for_key}

module _ (w : World) (t : Thread) (id : RowId) (run : Run) where
  -- The run `id` of the thread `t` has ended.
  pub record IsEnded (thread_id : RowId) : Type 0 where
    pub thread : thread_by thread_id w.threads ≡ some t
    pub run_id : t.run_id ≡ some id
    pub run_row : run_by id w.runs ≡ some run
    pub ended : is_terminal run.state ≡ true

  add_stimulus-fenced :
      (d : StimulusArgs)
      → IsEnded d.thread_id
      → by_dedupe d.dedupe_key w.stimuli ≡ none
      → add_stimulus d w
        ≡ raise (if or_else d.run_id id == id then invalid_state else value_error) w
  unfolding add_stimulus
  add_stimulus-fenced d h undelivered =
      let itself : (id == id) ≡ true = eq-true_of_eq refl in
      elim (Option-cases d.run_id) [
        | inl n ↦
            rw (undelivered, ◌>>=◌)
              (rw (h.thread, ◌>>=◌)
                (rw (n, h.run_id, itself, ◌>>=◌)
                  (rw (h.run_row, ◌>>=◌) (rw (h.ended, ◌>>=◌) refl))))
        | inr (named, e) ↦ elim (Bool-cases (named == id)) [
          | inl same ↦
              rw (undelivered, ◌>>=◌)
                (rw (h.thread, ◌>>=◌)
                  (rw (e, h.run_id, ◌>>=◌)
                    (rw (same, ◌>>=◌)
                      (rw
                        (
                          subst (λ k. run_by k w.runs ≡ some run) (sym ((==_iff named id).0 same))
                              h.run_row,
                          ◌>>=◌,
                        )
                        (rw (h.ended, ◌>>=◌) refl)))))
          | inr other ↦
              rw (undelivered, ◌>>=◌)
                (rw (h.thread, ◌>>=◌) (rw (e, h.run_id, ◌>>=◌) (rw (other, ◌>>=◌) refl)))
        ]
      ]

  -- In a thread of an ended run, a post with a body and a delivery, which no earlier one under
  -- their keys answers, a wake-up, and every change of status but the one to `closed` are refused,
  -- and nothing changes. A delivery that names another run is a `ValueError`, the others are
  -- `InvalidStateError`.
  pub ended_run-fenced :
      (py : Python) (a : PostArgs) (d : StimulusArgs) (status : ThreadStatus)
      (reason actor : String) (actor_id : Option String)
      → IsEnded a.thread_id
      → d.thread_id ≡ a.thread_id
      → str_eq (py.strip a.body) "" ≡ false
      → post_for_key a.idempotency_key (expected a) w ≡ ok none w
      → by_dedupe d.dedupe_key w.stimuli ≡ none
      → is_closed status ≡ false
      → same_status t.status status ≡ false
      → (create_post py a w ≡ raise invalid_state w)
        × (add_stimulus d w
            ≡ raise (if or_else d.run_id id == id then invalid_state else value_error) w)
        × (wake_thread a.thread_id reason actor actor_id w ≡ raise invalid_state w)
        × (set_thread_status a.thread_id status (some reason) actor actor_id w
            ≡ raise invalid_state w)
  unfolding create_post add_stimulus wake_thread set_thread_status
  ended_run-fenced py a d status reason actor actor_id h same body fresh undelivered open_ change =
      (
        rw (body, ◌>>=◌)
            (rw (fresh, ◌>>=◌)
              (rw (h.thread, ◌>>=◌)
                (rw (h.run_id, ◌>>=◌) (rw (h.run_row, ◌>>=◌) (rw (h.ended, ◌>>=◌) refl))))),
        add_stimulus-fenced d (subst IsEnded (sym same) h) undelivered,
        rw (h.thread, ◌>>=◌)
            (rw (h.run_id, ◌>>=◌) (rw (h.run_row, ◌>>=◌) (rw (h.ended, ◌>>=◌) refl))),
        rw (h.thread, ◌>>=◌)
            (rw (change, ◌>>=◌)
              (rw (h.run_id, ◌>>=◌) (rw (h.run_row, ◌>>=◌) (rw (h.ended, open_, ◌>>=◌) refl)))),
      )
