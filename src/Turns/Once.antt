-- ===== src/Turns/Once.antt =====
-- repository.py, `finish_turn` called twice.
use swarmboard.Prelude.{
  ℕ, ◌+◌, ◌≡◌, ◌⊎◌, refl, sym, subst, ◌∙◌, true, false, Option, none, some, List, arith,
  update_where, find-update_where, find-holds, Option-cases, Bool-cases, inl, inr, ◌==◌, ==_iff,
}
use swarmboard.Python.{Python}
use swarmboard.Exec.{pure, Error, Outcome, ok, raise, ◌>>=◌, ◌>>◌, state_of, not_found, value_error}
use swarmboard.Exec.Steps.{bind-ok, bind-raise, repeat-eq}
use swarmboard.Models.{RowId, Turn, TurnOutcome, is_unfinished}
use swarmboard.Tables.{World, Session, run_by, turn_by, post_by, put_turn, add_event}
use swarmboard.Blind.Primitives.{increment-missing, increment-eq}
use swarmboard.Turns.{
  Finish, finished_row, check_result, count_turn, finish_event, close_turn, given_or, finish_turn,
}
use swarmboard.Turns.Outcomes.{infer_turn_outcome}

check_result-cases :
    (o : Option RowId) (w : World)
    → (check_result o w ≡ ok tt w) ⊎ (check_result o w ≡ raise not_found w)
unfolding check_result
check_result-cases none w = inl refl
check_result-cases (some id) w = elim (Option-cases (post_by id w.posts)) [
  | inl n ↦ inr (rw (n, ◌>>=◌) refl)
  | inr (p, f) ↦ inl (rw (f, ◌>>=◌) refl)
]

-- What counting leaves of the turns.
abbrev Counted : Option RowId → ℕ → World → Type 0
Counted o n w =
    ((w' : World) × (count_turn o n w ≡ ok tt w') × (w'.turns ≡ w.turns))
    ⊎ ((e : Error) × (w' : World) × (count_turn o n w ≡ raise e w'))

count_turn-cases : (o : Option RowId) (n : ℕ) (w : World) → Counted o n w
unfolding count_turn
count_turn-cases none n w = inl (w, refl, refl)
count_turn-cases (some id) n w = elim (Option-cases (run_by id w.runs)) [
  | inl m ↦ inr (
    not_found,
    record w { reads = w.reads + 1 },
    rw (increment-missing id 1 0 n 1 w m, ◌>>=◌) refl,
  )
  | inr (run, f) ↦ inl (
    state_of (count_turn (some id) n w),
    rw (increment-eq id 1 0 n 1 w run f, ◌>>=◌) refl,
    rw (increment-eq id 1 0 n 1 w run f, ◌>>=◌) refl,
  )
]

-- The world once `finish_turn` has written the row and its event.
abbrev pub written : Python → Turn → Finish → TurnOutcome → World → World
written py t f o w =
    let row = finished_row py t f o (w.clock w.reads) in
    let w1 : World = record w { reads = w.reads + 1 } in
    state_of ((put_turn row >> add_event (finish_event t f o row)) w1)

module _ (py : Python) (t : Turn) (f : Finish) (o : TurnOutcome) (w : World) where
  abbrev closed : Turn
  closed = finished_row py t f o (w.clock w.reads)

  -- Either the row is written, or the call raises.
  close_turn-cases :
      ((w' : World) × (close_turn py t f o w ≡ ok closed w')
        × (w'.turns ≡ update_where (λ x. x.id == t.id) (λ _. closed) w.turns))
      ⊎ ((e : Error) × (w' : World) × (close_turn py t f o w ≡ raise e w'))
  unfolding close_turn
  close_turn-cases = elim (check_result-cases f.resulting_post_id w) [
    | inr n ↦ inr (not_found, w, rw (n, ◌>>=◌) refl)
    | inl c ↦ elim (count_turn-cases t.run_id closed.total_tokens (written py t f o w)) [
      | inl (w', e, k) ↦ inl (
        w',
        rw (c, ◌>>=◌)
            (bind-ok (count_turn t.run_id closed.total_tokens) (λ _. pure closed)
              (written py t f o w) tt w' _ e refl),
        k,
      )
      | inr (x, w', e) ↦ inr (
        x,
        w',
        rw (c, ◌>>=◌)
            (bind-raise (count_turn t.run_id closed.total_tokens) (λ _. pure closed)
              (written py t f o w) x w' e),
      )
    ]
  ]

module _ (py : Python) (id : RowId) (f : Finish) (w : World) (t : Turn) (o : TurnOutcome) where
  finish_turn-done :
      turn_by id w.turns ≡ some t
      → is_unfinished f.state ≡ false
      → given_or f.outcome (infer_turn_outcome py f.state f.error) ≡ some o
      → is_unfinished t.state ≡ false
      → finish_turn py id f w ≡ ok t w
  unfolding finish_turn
  finish_turn-done r s g d = rw (r, ◌>>=◌) (rw (s, ◌>>=◌) (rw (g, ◌>>=◌) (rw d refl)))

  pub finish_turn-open :
      turn_by id w.turns ≡ some t
      → is_unfinished f.state ≡ false
      → given_or f.outcome (infer_turn_outcome py f.state f.error) ≡ some o
      → is_unfinished t.state ≡ true
      → finish_turn py id f w ≡ close_turn py t f o w
  unfolding finish_turn
  finish_turn-open r s g d = rw (r, ◌>>=◌) (rw (s, ◌>>=◌) (rw (g, ◌>>=◌) (rw d refl)))

turn_by-put :
    (id : RowId) (turns : List Turn) (t row : Turn)
    → turn_by id turns ≡ some t
    → row.id ≡ t.id
    → turn_by id (update_where (λ x. x.id == t.id) (λ _. row) turns) ≡ some row
turn_by-put id turns t row r same =
    let own : t.id ≡ id = (==_iff t.id id).0 (find-holds (λ (x : Turn). x.id == id) turns t r) in
    rw
      (
        find-update_where (λ (x : Turn). x.id == id) (λ x. x.id == t.id) (λ _. row) turns
            (λ x e. ground arith),
        r,
      )
      (ground arith)

module _ (py : Python) (id : RowId) (f : Finish) where
  abbrev once : Session Turn
  once = finish_turn py id f

  -- Two calls that give the same outcome end alike.
  alike :
      (w : World) (t : Turn) (o : Outcome World Turn)
      → once (state_of o) ≡ o
      → (w' : World) → o ≡ ok t w'
      → once w' ≡ ok t w'
  alike w t o e w' h = subst (λ o. once (state_of o) ≡ o) h e

  finish_turn-again :
      (w : World) (t0 : Turn) (o : TurnOutcome)
      → turn_by id w.turns ≡ some t0
      → is_unfinished f.state ≡ false
      → given_or f.outcome (infer_turn_outcome py f.state f.error) ≡ some o
      → (t : Turn) (w' : World) → once w ≡ ok t w'
      → once w' ≡ ok t w'
  unfolding finished_row
  finish_turn-again w t0 o r s g t w' h = elim (Bool-cases (is_unfinished t0.state)) [
    | inr d ↦
        let e = finish_turn-done py id f w t0 o r s g d in alike w t (ok t0 w) e w' (sym e ∙ h)
    | inl d ↦
        let e = finish_turn-open py id f w t0 o r s g d in
        elim (close_turn-cases py t0 f o w) [
          | inl (w1, c, k) ↦
              let row = finished_row py t0 f o (w.clock w.reads) in
              let found : turn_by id w1.turns ≡ some row =
                rw k (turn_by-put id w.turns t0 row r refl) in
              alike w t (ok row w1) (finish_turn-done py id f w1 row o found s g s) w'
                (sym c ∙ (sym e ∙ h))
          | inr (x, w1, c) ↦ let clash : raise x w1 ≡ ok t w' = sym c ∙ (sym e ∙ h) in cc
        ]
  ]

  finish_turn-inv :
      (w : World) (t : Turn) (w' : World)
      → finish_turn py id f w ≡ ok t w'
      → (t0 : Turn) × (o : TurnOutcome) × (turn_by id w.turns ≡ some t0)
        × (is_unfinished f.state ≡ false)
        × (given_or f.outcome (infer_turn_outcome py f.state f.error) ≡ some o)
  unfolding finish_turn
  finish_turn-inv w t w' h = elim (Option-cases (turn_by id w.turns)) [
    | inl n ↦
        let clash : raise not_found w ≡ ok t w' = rw (n, ◌>>=◌) refl ∙ h in absurd (ground arith)
    | inr (t0, r) ↦ elim (Bool-cases (is_unfinished f.state)) [
      | inl s ↦
          let clash : raise value_error w ≡ ok t w' = rw (r, ◌>>=◌) (rw (s, ◌>>=◌) refl) ∙ h in
          absurd (ground arith)
      | inr s ↦ elim (Option-cases (given_or f.outcome (infer_turn_outcome py f.state f.error))) [
        | inl g ↦
            let clash : raise value_error w ≡ ok t w' =
              rw (r, ◌>>=◌) (rw (s, ◌>>=◌) (rw (g, ◌>>=◌) refl)) ∙ h in
            absurd (ground arith)
        | inr (o, g) ↦ (t0, o, r, s, g)
      ]
    ]
  ]

  -- A turn is finished once: calling `finish_turn` again with the same arguments gives the same
  -- result and the same world as calling it once, so tokens and rounds are not counted twice.
  pub finish_turn-once :
      (w : World) → (finish_turn py id f >> finish_turn py id f) w ≡ finish_turn py id f w
  finish_turn-once w = repeat-eq once w (λ t w' h.
      let (t0, o, r, s, g) = finish_turn-inv w t w' h in finish_turn-again w t0 o r s g t w' h)
