-- ===== src/Leases/Claims.antt =====
-- repository.py, `claim_stimuli`, and the leases under a wrong token.
use swarmboard.Prelude.{
  ℕ, ◌+◌, String, ◌≡◌, refl, sym, ◌∙◌, true, false, Option, none, some, List, [], ◌∷◌, min, arith,
  All, All-mono, All-both, length, count_if, find-update_where, find-holds, Option-cases, inl, inr,
  is_val, is_some, or_else, if◌then◌else◌, ◌==◌,
}
use swarmboard.Python.{Python}
use swarmboard.Exec.{ok, raise, ◌>>=◌, state_of, claim_conflict}
use swarmboard.Models.{RowId, Time, Stimulus, claimed, is_done}
use swarmboard.Tables.{World, stimulus_by}
use swarmboard.Leases.{
  is_ready, claimed_row, claim_row, claim_each, candidates, claim_stimuli, mark_stimulus_processing,
  complete_stimulus, release_stimulus,
}
use swarmboard.Leases.Keyed.{
  IsKeyed, IsDueIn, is_due, candidates-IsDueIn, candidates-IsKeyed, length-candidates,
}

-- A row as a claim at `now` returns it: it was due before, and stands claimed in the table after.
pub record IsClaimed (run : Option RowId) (now : Time) (old new : List Stimulus) (s : Stimulus)
    : Type 0 where
  pub before : Stimulus
  pub found : stimulus_by s.id old ≡ some before
  pub due : is_due run now before ≡ true
  pub stored : stimulus_by s.id new ≡ some s
  pub state : s.state ≡ claimed
  pub token : is_some s.claim_token ≡ true
  pub since : s.claimed_at ≡ some now
  pub counted : s.attempts ≡ before.attempts + 1

-- The row with this id is not among the rows.
abbrev pub IsAbsent : RowId → List Stimulus → Type 0
IsAbsent id ss = All (λ s. (s.id == id) ≡ false) ss

module _ (now : Time) (token : RowId) (s : Stimulus) (w : World) where
  abbrev claim_world : World
  claim_world = state_of (claim_row now token s w)

  -- The guarded UPDATE writes the claimed row, and no other.
  claim_row-stored :
      stimulus_by s.id w.stimuli ≡ some s
      → stimulus_by s.id claim_world.stimuli ≡ some (claimed_row s token now)
  unfolding claim_row swarmboard.Tables.put_stimulus claimed_row
  claim_row-stored f =
      find-update_where (λ x. x.id == s.id) (λ x. x.id == s.id) (λ _. claimed_row s token now)
        w.stimuli (λ x e. ground (arith, e))
      ∙ rw f (ground arith)

  claim_row-others :
      (id : RowId)
      → (s.id == id) ≡ false
      → stimulus_by id claim_world.stimuli ≡ stimulus_by id w.stimuli
  unfolding claim_row swarmboard.Tables.put_stimulus claimed_row
  claim_row-others id n =
      find-update_where (λ x. x.id == id) (λ x. x.id == s.id) (λ _. claimed_row s token now)
        w.stimuli (λ x e. ground (arith, e, n))
      ∙ elim (Option-cases (stimulus_by id w.stimuli)) [
        | inl e ↦ rw e refl
        | inr (x, e) ↦ rw e (ground (arith, n, find-holds (λ y. y.id == id) w.stimuli x e))
      ]

due-ready :
    (run : Option RowId) (now : Time) (s : Stimulus)
    → is_due run now s ≡ true
    → is_ready now s ≡ true
due-ready none now s h = ground arith
due-ready (some id) now s h = ground arith

module _ (run : Option RowId) (now : Time) where
  abbrev Claims : List Stimulus → World → Type 0
  Claims cs w =
      (rows : List Stimulus) × (w' : World) × (claim_each now cs w ≡ ok rows w')
      × (length rows ≡ length cs)
      × All (IsClaimed run now w.stimuli w'.stimuli) rows
      × ((id : RowId) → IsAbsent id rows → stimulus_by id w'.stimuli ≡ stimulus_by id w.stimuli)
      × ((id : RowId) → IsAbsent id cs → IsAbsent id rows)

  -- Rows that are due and differ in their ids are all claimed.
  claim_each-Claims :
      (cs : List Stimulus) (w : World)
      → All (IsDueIn run now w.stimuli) cs
      → IsKeyed cs
      → Claims cs w
  unfolding claim_each
  claim_each-Claims [] w d k = ([], w, refl, refl, tt, (λ id a. refl), (λ id a. tt))
  claim_each-Claims (c ∷ cs) w d k =
      let w1 : World = record w { drawn = w.drawn + 1 } in
      let token = w.uuid w.drawn in
      let row = claimed_row c token now in
      let w2 = claim_world now token c w1 in
      let f = d.0.1 in
      let (rows, w', e, l, a, others, absent) =
        claim_each-Claims cs w2
          (All-both _ _ _ cs (λ x n due. (due.0, claim_row-others now token c w1 x.id n ∙ due.1))
            k.0 d.1)
          k.1 in
      let apart : IsAbsent c.id rows =
        absent c.id (All-mono _ _ cs (λ x n. ground (arith, n)) k.0) in
      (
        row ∷ rows,
        w',
        rw (f, ◌>>=◌) (rw (due-ready run now c d.0.0, ◌>>=◌) (rw (e, ◌>>=◌) refl)),
        omega (arith, l),
        (
          record {
            before = c;
            found = f;
            due = d.0.0;
            stored = others c.id apart ∙ claim_row-stored now token c w1 f;
            state = refl;
            token = refl;
            since = refl;
            counted = refl;
          },
          All-both (IsClaimed run now w2.stimuli w'.stimuli) (λ s. (s.id == c.id) ≡ false) _ rows
              (λ s q n. record {
                before = q.before;
                found = sym (claim_row-others now token c w1 s.id (ground (arith, n))) ∙ q.found;
                due = q.due;
                stored = q.stored;
                state = q.state;
                token = q.token;
                since = q.since;
                counted = q.counted;
              })
              a apart,
        ),
        (λ id n. others id n.1 ∙ claim_row-others now token c w1 id n.0),
        (λ id n. (n.0, absent id n.1)),
      )

-- Where ids are keys, a claim never raises. It claims as many rows as are due, `limit` at most:
-- each row it returns was due at the time of the claim, and stands in the table afterwards,
-- claimed at that time, with a token and one attempt more. The other rows stay as they were.
pub claim_stimuli-claims :
    (run : Option RowId) (limit : ℕ) (at : Option Time) (w : World)
    → IsKeyed w.stimuli
    → (rows : List Stimulus) × (w' : World) × (claim_stimuli run limit at w ≡ ok rows w')
      × (length rows ≡ min limit (count_if (is_due run (or_else at (w.clock w.reads))) w.stimuli))
      × All (IsClaimed run (or_else at (w.clock w.reads)) w.stimuli w'.stimuli) rows
      × ((id : RowId) → IsAbsent id rows → stimulus_by id w'.stimuli ≡ stimulus_by id w.stimuli)
unfolding claim_stimuli
claim_stimuli-claims run limit at w k =
    let now = or_else at (w.clock w.reads) in
    let w1 : World = record w { reads = w.reads + 1 } in
    let (rows, w', e, l, a, others, _) =
      claim_each-Claims run now (candidates run limit now w1) w1
        (candidates-IsDueIn run limit now w1 k) (candidates-IsKeyed run limit now w1 k) in
    (rows, w', e, l ∙ length-candidates run limit now w1, a, others)

-- Only the holder of the lease settles it: with any other token the row cannot be marked as
-- processing, released or completed, and nothing changes. A row that is completed already is the
-- exception, which `complete_stimulus` returns as it is.
pub stale_token-refused :
    (py : Python) (id token : RowId) (error : String) (delay : ℕ) (w : World) (s : Stimulus)
    → stimulus_by id w.stimuli ≡ some s
    → is_val s.claim_token token ≡ false
    → (mark_stimulus_processing id token w ≡ raise claim_conflict w)
      × (release_stimulus py id token error delay w ≡ raise claim_conflict w)
      × (complete_stimulus id (some token) w
          ≡ (if is_done s.state then ok s w else raise claim_conflict w))
unfolding mark_stimulus_processing release_stimulus complete_stimulus
stale_token-refused py id token error delay w s f k =
    (rw (f, ◌>>=◌) (rw k refl), rw (f, ◌>>=◌) (rw k refl), ground arith)
