-- ===== src/Exec.antt =====
-- Methods that mutate a session and may raise. What was written before a raise stays written
-- until the caller's transaction is rolled back, so the state comes back beside the error too.
pub mod Keeps
pub mod Steps
pub mod Sweep
use swarmboard.Prelude.{Bool, true, false, Option, none, some, List, [], ◌∷◌}

-- The exception classes of repository.py, `ValueError`, `TypeError` and the driver's `IntegrityError`.
pub data Error : Type 0 where
  not_found invalid_state claim_conflict idempotency_conflict repository_error : Error
  value_error type_error integrity_error : Error
  -- `_RollbackDuplicateThread`, internal to repository.py.
  rollback_duplicate : Error

pub data Outcome (S A : Type 0) : Type 0 where
  ok : A → S → Outcome S A
  raise : Error → S → Outcome S A

abbrev pub Exec : Type 0 → Type 0 → Type 0
Exec S A = S → Outcome S A

abbrev pub state_of : {S A : Type 0} → Outcome S A → S
state_of (ok a s) = s
state_of (raise e s) = s

unfoldable pub pure : {S A : Type 0} → A → Exec S A
pure a s = ok a s

unfoldable pub throw : {S A : Type 0} → Error → Exec S A
throw e s = raise e s

unfoldable pub gets : {S A : Type 0} → (S → A) → Exec S A
gets f s = ok (f s) s

unfoldable pub modify : {S : Type 0} → (S → S) → Exec S (Unit {0})
modify f s = ok tt (f s)

unfoldable pub skip : {S : Type 0} → Exec S (Unit {0})
skip s = ok tt s

-- `if b: raise e`
unfoldable pub raise_if : {S : Type 0} → Bool → Error → Exec S (Unit {0})
raise_if true e s = raise e s
raise_if false e s = ok tt s

unfoldable pub or_raise : {S A : Type 0} → Option A → Error → Exec S A
or_raise none e s = raise e s
or_raise (some a) e s = ok a s

-- `if b: m`
unfoldable pub when : {S : Type 0} → Bool → Exec S (Unit {0}) → Exec S (Unit {0})
when true m s = m s
when false m s = ok tt s

-- Opening this opens the actions above too.
infixl 5 ◌>>=◌ ◌>>◌
unfoldable pub ◌>>=◌ : {S A B : Type 0} → Exec S A → (A → Exec S B) → Exec S B
unfolding pure throw gets modify skip raise_if or_raise when
◌>>=◌ m f s = elim (m s) [ ok a s' ↦ f a s' | raise e s' ↦ raise e s' ]

abbrev pub ◌>>◌ : {S A B : Type 0} → Exec S A → Exec S B → Exec S B
m >> k = m >>= λ _. k

-- `for x in xs: f(x)`
unfoldable pub for_each : {S A : Type 0} → List A → (A → Exec S (Unit {0})) → Exec S (Unit {0})
for_each [] f s = ok tt s
for_each (x ∷ xs) f s = elim (f x s) [ ok _ s' ↦ for_each xs f s' | raise e s' ↦ raise e s' ]
