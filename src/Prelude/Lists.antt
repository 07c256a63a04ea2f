-- ===== src/Prelude/Lists.antt =====
-- Lists as database tables: the first row that passes a test, rows rewritten where a test passes,
-- predicates that hold of every row.
use Prim.Native.Nat.{ℕ, zero, suc, ◌+◌, ◌≤◌}
use mathlib.Core.Path.{◌≡◌, refl, subst}
use mathlib.Core.Logic.{inl, inr}
use mathlib.Core.Bool.{Bool, true, false}
use mathlib.Core.List.{List, [], ◌∷◌, ◌++◌}
use mathlib.Core.Option.{Option, none, some}
use native.Mathlib.Omega.{arith}
use swarmboard.Prelude.Tests.{if◌then◌else◌, Bool-cases}

module _ {ℓ} {A : Type ℓ} where
  abbrev pub length : List A → ℕ
  length [] = 0
  length (x ∷ xs) = suc (length xs)

  abbrev pub take : ℕ → List A → List A
  take zero xs = []
  take (suc n) [] = []
  take (suc n) (x ∷ xs) = x ∷ take n xs

  abbrev pub drop : ℕ → List A → List A
  drop zero xs = xs
  drop (suc n) [] = []
  drop (suc n) (x ∷ xs) = drop n xs

  unfoldable pub find : (A → Bool) → List A → Option A
  find p [] = none
  find p (x ∷ xs) = if p x then some x else find p xs

  -- `[x for x in xs if p(x)]`
  unfoldable pub keep_if : (A → Bool) → List A → List A
  keep_if p [] = []
  keep_if p (x ∷ xs) = let rest = keep_if p xs in if p x then x ∷ rest else rest

  unfoldable pub update_where : (A → Bool) → (A → A) → List A → List A
  update_where p f [] = []
  update_where p f (x ∷ xs) = (if p x then f x else x) ∷ update_where p f xs

  unfoldable pub count_if : (A → Bool) → List A → ℕ
  count_if p [] = 0
  count_if p (x ∷ xs) = (if p x then 1 else 0) + count_if p xs

  unfoldable pub any_of : (A → Bool) → List A → Bool
  any_of p [] = false
  any_of p (x ∷ xs) = if p x then true else any_of p xs

abbrev pub All {ℓ κ} : {A : Type ℓ} → (A → Type κ) → List A → Type κ
All P [] = Unit
All P (x ∷ xs) = P x × All P xs

module _ {ℓ κ} {A : Type ℓ} (P : A → Type κ) where
  pub All-append : (xs ys : List A) → All P xs → All P ys → All P (xs ++ ys)
  All-append [] ys hx hy = hy
  All-append (x ∷ xs) ys hx hy = (hx.0, All-append xs ys hx.1 hy)

  pub All-find : (p : A → Bool) (xs : List A) (x : A) → find p xs ≡ some x → All P xs → P x
  unfolding find
  All-find p [] x e a = cc
  All-find p (y ∷ xs) x e a = elim (Bool-cases (p y)) [
    | inl q ↦ subst P (ground arith) a.0
    | inr q ↦ All-find p xs x (ground arith) a.1
  ]

-- Rows that pass the test are rewritten, the others stay.
pub All-update {ℓ κ κ'} :
    {A : Type ℓ} (P : A → Type κ) (Q : A → Type κ') (p : A → Bool) (f : A → A) (xs : List A)
    → ((x : A) → p x ≡ true → P x → Q (f x))
    → ((x : A) → p x ≡ false → P x → Q x)
    → All P xs
    → All Q (update_where p f xs)
unfolding update_where
All-update P Q p f [] h k a = tt
All-update {A} P Q p f (x ∷ xs) h k a = (step (p x) refl, All-update P Q p f xs h k a.1)
  where
    step : (b : Bool) → p x ≡ b → Q (if b then f x else x)
    step true e = h x e a.0
    step false e = k x e a.0

pub All-keep_if {ℓ κ κ'} :
    {A : Type ℓ} (P : A → Type κ) (Q : A → Type κ') (p : A → Bool) (xs : List A)
    → ((x : A) → p x ≡ true → P x → Q x)
    → All P xs
    → All Q (keep_if p xs)
unfolding keep_if
All-keep_if P Q p [] h a = tt
All-keep_if P Q p (x ∷ xs) h a = elim (Bool-cases (p x)) [
  | inl e ↦ rw e (h x e a.0, All-keep_if P Q p xs h a.1)
  | inr e ↦ rw e (All-keep_if P Q p xs h a.1)
]

pub All-trivial {ℓ κ} : {A : Type ℓ} (P : A → Type κ) (xs : List A) → ((x : A) → P x) → All P xs
All-trivial P [] h = tt
All-trivial P (x ∷ xs) h = (h x, All-trivial P xs h)

pub All-mono {ℓ κ κ'} :
    {A : Type ℓ} (P : A → Type κ) (Q : A → Type κ') (xs : List A)
    → ((x : A) → P x → Q x)
    → All P xs
    → All Q xs
All-mono P Q [] h a = tt
All-mono P Q (x ∷ xs) h a = (h x a.0, All-mono P Q xs h a.1)

pub All-both {ℓ κ κ' κ''} :
    {A : Type ℓ} (P : A → Type κ) (Q : A → Type κ') (R : A → Type κ'') (xs : List A)
    → ((x : A) → P x → Q x → R x)
    → All P xs
    → All Q xs
    → All R xs
All-both P Q R [] h p q = tt
All-both P Q R (x ∷ xs) h p q = (h x p.0 q.0, All-both P Q R xs h p.1 q.1)

module _ {ℓ} {A : Type ℓ} where
  pub length-append : (xs ys : List A) → length (xs ++ ys) ≡ length xs + length ys
  length-append [] ys = omega arith
  length-append (x ∷ xs) ys = omega (arith, length-append xs ys)

  pub length-take-le : (n : ℕ) (xs : List A) → length (take n xs) ≤ n
  length-take-le zero xs = omega arith
  length-take-le (suc n) [] = omega arith
  length-take-le (suc n) (x ∷ xs) = omega (arith, length-take-le n xs)

  pub find-holds : (p : A → Bool) (xs : List A) (x : A) → find p xs ≡ some x → p x ≡ true
  unfolding find
  find-holds p [] x e = cc
  find-holds p (y ∷ xs) x e = ground (arith, find-holds p xs x)

  pub find-append :
      (p : A → Bool) (xs ys : List A) → find p xs ≡ none → find p (xs ++ ys) ≡ find p ys
  unfolding find
  find-append p [] ys e = refl
  find-append p (x ∷ xs) ys e = ground (arith, find-append p xs ys)

  pub find-append_some :
      (p : A → Bool) (xs ys : List A) (x : A) → find p xs ≡ some x → find p (xs ++ ys) ≡ some x
  unfolding find
  find-append_some p [] ys x e = cc
  find-append_some p (y ∷ xs) ys x e = ground (arith, find-append_some p xs ys x)

  -- The rows that change keep passing or failing the other test: the same row is found, changed.
  pub find-update_where :
      (q p : A → Bool) (f : A → A) (xs : List A)
      → ((x : A) → p x ≡ true → q (f x) ≡ q x)
      → find q (update_where p f xs)
        ≡ elim (find q xs) [ none ↦ none | some x ↦ some (if p x then f x else x) ]
  unfolding find update_where
  find-update_where q p f [] h = refl
  find-update_where q p f (x ∷ xs) h = elim (Bool-cases (p x)) [
    | inl e ↦ ground (arith, h x e, find-update_where q p f xs h)
    | inr e ↦ ground (arith, find-update_where q p f xs h)
  ]

  any_of-keep_if_cons :
      (p q : A → Bool) (x : A) (xs : List A)
      → any_of q (keep_if p xs) ≡ true
      → any_of q (keep_if p (x ∷ xs)) ≡ true
  unfolding any_of keep_if
  any_of-keep_if_cons p q x xs h = ground arith

  -- A row that passes the test is found among the kept rows.
  pub any_of-keep_if :
      (p : A → Bool) (eq : A → A → Bool) (xs : List A)
      → ((x : A) → eq x x ≡ true)
      → All (λ y. p y ≡ true → any_of (λ x. eq x y) (keep_if p xs) ≡ true) xs
  any_of-keep_if p eq [] r = tt
  any_of-keep_if p eq (x ∷ xs) r = (
    λ e. unfold any_of keep_if in rw (e, r x),
    All-mono _ _ xs (λ y h e. any_of-keep_if_cons p (λ z. eq z y) x xs (h e))
        (any_of-keep_if p eq xs r),
  )

pub length-keep_if {ℓ} :
    {A : Type ℓ} (p q : A → Bool) (xs : List A)
    → ((x : A) → p x ≡ q x)
    → length (keep_if p xs) ≡ count_if q xs
unfolding keep_if count_if
length-keep_if p q [] h = refl
length-keep_if p q (x ∷ xs) h = ground (arith, h x, length-keep_if p q xs h)
