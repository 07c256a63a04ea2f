-- ===== src/Leases/Keyed.antt =====
-- repository.py: the rows that the SELECT of `claim_stimuli` returns.
use swarmboard.Prelude.{
  ℕ, zero, suc, ◌≡◌, refl, sym, Bool, true, false, ◌&&◌, not, Option, none, some, List, [], ◌∷◌,
  take, min, arith, ap, ◌∙◌, is_val, All, All-both, All-keep_if, length, length-keep_if, count_if,
  find, keep_if, ltb, ◌==◌, same_val, Bool-cases, inl, inr,
}
use swarmboard.Models.{RowId, Time, Stimulus, is_pending}
use swarmboard.Tables.{World, stimulus_by}
use swarmboard.Leases.{before, place, ordered, in_run, is_ready, candidates}

-- The ids of deliveries are keys.
abbrev pub IsKeyed : List Stimulus → Type 0
IsKeyed [] = Unit
IsKeyed (s ∷ ss) = All (λ x. (s.id == x.id) ≡ false) ss × IsKeyed ss

-- A delivery that waits, whose time has come, and that belongs to the run where one is given.
abbrev pub is_due : Option RowId → Time → Stimulus → Bool
is_due none now s = is_pending s.state && not (ltb now s.not_before)
is_due (some id) now s =
    is_pending s.state && (not (ltb now s.not_before) && same_val s.run_id (some id))

in_run-is_due :
    (run : Option RowId) (now : Time) (s : Stimulus)
    → (is_ready now s && in_run run s) ≡ is_due run now s
in_run-is_due none now s = ground arith
in_run-is_due (some id) now s = go s.run_id
  where
    go :
        (own : Option RowId)
        → (is_ready now s && is_val own id)
          ≡ (is_pending s.state && (not (ltb now s.not_before) && same_val own (some id)))
    go none = ground arith
    go (some k) = ground arith

module _ (P : Stimulus → Type 0) where
  All-place : (s : Stimulus) (ss : List Stimulus) → P s → All P ss → All P (place s ss)
  unfolding place
  All-place s [] p a = (p, tt)
  All-place s (t ∷ ts) p a = elim (Bool-cases (before s t)) [
    | inl e ↦ rw e (p, a)
    | inr e ↦ rw e (a.0, All-place s ts p a.1)
  ]

  All-ordered : (ss : List Stimulus) → All P ss → All P (ordered ss)
  unfolding ordered
  All-ordered [] a = tt
  All-ordered (s ∷ ss) a = All-place s (ordered ss) a.0 (All-ordered ss a.1)

  All-take : (n : ℕ) (ss : List Stimulus) → All P ss → All P (take n ss)
  All-take zero ss a = tt
  All-take (suc n) [] a = tt
  All-take (suc n) (s ∷ ss) a = (a.0, All-take n ss a.1)

length-place : (s : Stimulus) (ss : List Stimulus) → length (place s ss) ≡ suc (length ss)
unfolding place
length-place s [] = refl
length-place s (t ∷ ts) = ground (arith, length-place s ts)

length-ordered : (ss : List Stimulus) → length (ordered ss) ≡ length ss
unfolding ordered
length-ordered [] = refl
length-ordered (s ∷ ss) = omega (arith, length-place s (ordered ss), length-ordered ss)

length-take : (n : ℕ) (ss : List Stimulus) → length (take n ss) ≡ min n (length ss)
length-take zero ss = omega arith
length-take (suc n) [] = omega arith
length-take (suc n) (s ∷ ss) = omega (arith, length-take n ss)

IsKeyed-keep_if : (p : Stimulus → Bool) (ss : List Stimulus) → IsKeyed ss → IsKeyed (keep_if p ss)
unfolding keep_if
IsKeyed-keep_if p [] k = tt
IsKeyed-keep_if p (s ∷ ss) k = elim (Bool-cases (p s)) [
  | inl e ↦ rw e (All-keep_if _ _ p ss (λ x _ n. n) k.0, IsKeyed-keep_if p ss k.1)
  | inr e ↦ rw e (IsKeyed-keep_if p ss k.1)
]

IsKeyed-place :
    (s : Stimulus) (ss : List Stimulus)
    → All (λ x. (s.id == x.id) ≡ false) ss
    → IsKeyed ss
    → IsKeyed (place s ss)
unfolding place
IsKeyed-place s [] a k = (tt, tt)
IsKeyed-place s (t ∷ ts) a k = elim (Bool-cases (before s t)) [
  | inl e ↦ rw e (a, k)
  | inr e ↦ rw e (
    All-place (λ x. (t.id == x.id) ≡ false) s ts (ground (arith, a.0)) k.0,
    IsKeyed-place s ts a.1 k.1,
  )
]

IsKeyed-ordered : (ss : List Stimulus) → IsKeyed ss → IsKeyed (ordered ss)
unfolding ordered
IsKeyed-ordered [] k = tt
IsKeyed-ordered (s ∷ ss) k =
    IsKeyed-place s (ordered ss) (All-ordered _ ss k.0) (IsKeyed-ordered ss k.1)

IsKeyed-take : (n : ℕ) (ss : List Stimulus) → IsKeyed ss → IsKeyed (take n ss)
IsKeyed-take zero ss k = tt
IsKeyed-take (suc n) [] k = tt
IsKeyed-take (suc n) (s ∷ ss) k = (All-take _ n ss k.0, IsKeyed-take n ss k.1)

-- A row is found under its key.
IsKeyed-found : (ss : List Stimulus) → IsKeyed ss → All (λ s. stimulus_by s.id ss ≡ some s) ss
unfolding find
IsKeyed-found [] k = tt
IsKeyed-found (s ∷ ss) k = (
  ground arith,
  All-both (λ x. (s.id == x.id) ≡ false) (λ x. stimulus_by x.id ss ≡ some x) _ ss
      (λ x n f. ground (arith, n, f)) k.0 (IsKeyed-found ss k.1),
)

-- A row of the table that is due.
abbrev pub IsDueIn : Option RowId → Time → List Stimulus → Stimulus → Type 0
IsDueIn run now ss s = (is_due run now s ≡ true) × (stimulus_by s.id ss ≡ some s)

module _ (run : Option RowId) (limit : ℕ) (now : Time) (w : World) where
  pub candidates-IsDueIn :
      IsKeyed w.stimuli → All (IsDueIn run now w.stimuli) (candidates run limit now w)
  unfolding candidates
  candidates-IsDueIn k = All-take _ limit _ (
      All-ordered _ _ (
        All-keep_if (λ s. stimulus_by s.id w.stimuli ≡ some s) (IsDueIn run now w.stimuli) _
          w.stimuli (λ s e f. (sym (in_run-is_due run now s) ∙ e, f)) (IsKeyed-found w.stimuli k)))

  pub candidates-IsKeyed : IsKeyed w.stimuli → IsKeyed (candidates run limit now w)
  unfolding candidates
  candidates-IsKeyed k = IsKeyed-take limit _ (IsKeyed-ordered _ (IsKeyed-keep_if _ w.stimuli k))

  pub length-candidates :
      length (candidates run limit now w) ≡ min limit (count_if (is_due run now) w.stimuli)
  unfolding candidates
  length-candidates =
      length-take limit _
      ∙ ap (min limit) (length-ordered _ ∙ length-keep_if _ _ w.stimuli (in_run-is_due run now))
