-- ===== src/Exec/Keeps.antt =====
-- Invariants of actions: a rule for each way to build an action.
use swarmboard.Prelude.{
  ◌≡◌, refl, Bool, true, false, Option, none, some, List, [], ◌∷◌, if◌then◌else◌, All,
}
use swarmboard.Exec.{
  Exec, Outcome, Error, ok, raise, state_of, ◌>>=◌, ◌>>◌, pure, throw, gets, modify, skip, raise_if,
  or_raise, when, for_each,
}

-- `m` keeps `P` of what `view` shows of the state, whether it returns or raises.
pub record Keeps {S T A : Type 0} (view : S → T) (P : T → Type 0) (m : Exec S A) : Type 0 where
  pub at : (s : S) → P (view s) → P (view (state_of (m s)))

module _ {S T A B : Type 0} {view : S → T} {P : T → Type 0} where
  after :
      (o : Outcome S A) (f : A → Exec S B)
      → P (view (state_of o))
      → ((a : A) → Keeps view P (f a))
      → P (
          view (
            state_of
              (let r : Outcome S B = elim o [ ok a s' ↦ f a s' | raise e s' ↦ raise e s' ] in r)))
  after (ok a s) f h k = (k a).at s h
  after (raise e s) f h k = h

  pub Keeps-bind :
      (m : Exec S A) (f : A → Exec S B)
      → Keeps view P m
      → ((a : A) → Keeps view P (f a))
      → Keeps view P (m >>= f)
  unfolding ◌>>=◌
  Keeps-bind m f km kf = record { at = λ s h. after (m s) f (km.at s h) kf }

  pub Keeps-then :
      (m : Exec S A) (k : Exec S B) → Keeps view P m → Keeps view P k → Keeps view P (m >> k)
  Keeps-then m k km kk = Keeps-bind m (λ _. k) km (λ _. kk)

module _ {S T A : Type 0} {view : S → T} {P : T → Type 0} where
  pub Keeps-pure : (a : A) → Keeps view P (pure a)
  unfolding pure
  Keeps-pure a = record { at = λ s h. h }

  pub Keeps-throw : (e : Error) → Keeps view P (throw {A = A} e)
  unfolding throw
  Keeps-throw e = record { at = λ s h. h }

  pub Keeps-gets : (f : S → A) → Keeps view P (gets f)
  unfolding gets
  Keeps-gets f = record { at = λ s h. h }

  pub Keeps-or_raise : (o : Option A) (e : Error) → Keeps view P (or_raise o e)
  unfolding or_raise
  Keeps-or_raise none e = record { at = λ s h. h }
  Keeps-or_raise (some a) e = record { at = λ s h. h }

  pub Keeps-if :
      (b : Bool) (m n : Exec S A)
      → Keeps view P m
      → Keeps view P n
      → Keeps view P (if b then m else n)
  Keeps-if true m n km kn = km
  Keeps-if false m n km kn = kn

module _ {S T : Type 0} {view : S → T} {P : T → Type 0} where
  pub Keeps-raise_if : (b : Bool) (e : Error) → Keeps view P (raise_if b e)
  unfolding raise_if
  Keeps-raise_if true e = record { at = λ s h. h }
  Keeps-raise_if false e = record { at = λ s h. h }

  pub Keeps-skip : Keeps view P skip
  unfolding skip
  Keeps-skip = record { at = λ s h. h }

  pub Keeps-when : (b : Bool) (m : Exec S Unit) → Keeps view P m → Keeps view P (when b m)
  unfolding when
  Keeps-when true m k = record { at = k.at }
  Keeps-when false m k = record { at = λ s h. h }

  pub Keeps-modify : (f : S → S) → ((s : S) → P (view s) → P (view (f s))) → Keeps view P (modify f)
  unfolding modify
  Keeps-modify f k = record { at = k }

  each-after :
      {A : Type 0} (xs : List A) (f : A → Exec S Unit)
      → ((x : A) → Keeps view P (f x))
      → (s : S) → P (view s)
      → P (view (state_of (for_each xs f s)))
  unfolding for_each
  each-after [] f k s h = h
  each-after {A} (x ∷ xs) f k s h = go (f x s) ((k x).at s h) (each-after xs f k)
    where
      go :
          (o : Outcome S Unit)
          → P (view (state_of o))
          → ((s' : S) → P (view s') → P (view (state_of (for_each xs f s'))))
          → P (
              view (
                state_of (
                  let r : Outcome S Unit = elim o [
                    | ok _ s' ↦ for_each xs f s'
                    | raise e s' ↦ raise e s'
                  ] in
                  r)))
      go (ok _ s') p rest = rest s' p
      go (raise e s') p rest = p

  pub Keeps-for_each :
      {A : Type 0} (xs : List A) (f : A → Exec S Unit)
      → ((x : A) → Keeps view P (f x))
      → Keeps view P (for_each xs f)
  Keeps-for_each xs f k = record { at = each-after xs f k }

pub ruleset keeps_rules = (
  Keeps-bind, Keeps-then, Keeps-pure, Keeps-throw, Keeps-gets, Keeps-or_raise, Keeps-if,
  Keeps-raise_if, Keeps-skip, Keeps-when, Keeps-for_each,
)

-- What `m` returns from a state with `P` satisfies `Q`.
pub record Yields {S T A : Type 0} (view : S → T) (P : T → Type 0) (Q : A → Type 0) (m : Exec S A)
    : Type 0 where
  pub of : (s : S) → P (view s) → (a : A) (s' : S) → m s ≡ ok a s' → Q a

module _ {S T A B : Type 0} {view : S → T} {P : T → Type 0} where
  after_yield :
      (Q : A → Type 0) (o : Outcome S A) (f : A → Exec S B)
      → P (view (state_of o))
      → ((a : A) (s' : S) → o ≡ ok a s' → Q a)
      → ((a : A) → Q a → Keeps view P (f a))
      → P (
          view (
            state_of
              (let r : Outcome S B = elim o [ ok a s' ↦ f a s' | raise e s' ↦ raise e s' ] in r)))
  after_yield Q (ok a s) f h q k = (k a (q a s refl)).at s h
  after_yield Q (raise e s) f h q k = h

  -- The rest of the block may use what the first action yields.
  pub Keeps-yield :
      (Q : A → Type 0) (m : Exec S A) (f : A → Exec S B)
      → Keeps view P m
      → Yields view P Q m
      → ((a : A) → Q a → Keeps view P (f a))
      → Keeps view P (m >>= f)
  unfolding ◌>>=◌
  Keeps-yield Q m f km y kf = record { at = λ s h. after_yield Q (m s) f (km.at s h) (y.of s h) kf }

module _ {S T A : Type 0} {view : S → T} {P : T → Type 0} where
  -- Past a guard, its condition is false.
  pub Keeps-guard :
      (b : Bool) (e : Error) (k : Exec S A)
      → (b ≡ false → Keeps view P k)
      → Keeps view P (raise_if b e >> k)
  unfolding ◌>>=◌
  Keeps-guard true e k kk = record { at = λ s h. h }
  Keeps-guard false e k kk = record { at = (kk refl).at }

  pub Keeps-each_of :
      (Q : A → Type 0) (f : A → Exec S Unit) (xs : List A)
      → ((x : A) → Q x → Keeps view P (f x))
      → All Q xs
      → Keeps view P (for_each xs f)
  unfolding for_each
  Keeps-each_of Q f [] k a = record { at = λ s h. h }
  Keeps-each_of Q f (x ∷ xs) k a = record {
    at = λ s h. go (f x s) ((k x a.0).at s h) (Keeps-each_of Q f xs k a.1);
  }
    where
      go :
          (o : Outcome S Unit)
          → P (view (state_of o))
          → Keeps view P (for_each xs f)
          → P (
              view (
                state_of (
                  let r : Outcome S Unit = elim o [
                    | ok _ s' ↦ for_each xs f s'
                    | raise e s' ↦ raise e s'
                  ] in
                  r)))
      go (ok _ s') p rest = rest.at s' p
      go (raise e s') p rest = p
