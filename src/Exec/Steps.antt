-- ===== src/Exec/Steps.antt =====
-- What a block does, from what its first action does.
use swarmboard.Prelude.{◌≡◌, refl}
use swarmboard.Exec.{Exec, Outcome, Error, ok, raise, ◌>>=◌, ◌>>◌}

pub bind-ok :
    {S A B : Type 0} (m : Exec S A) (f : A → Exec S B) (s : S) (a : A) (s' : S) (o : Outcome S B)
    → m s ≡ ok a s'
    → f a s' ≡ o
    → (m >>= f) s ≡ o
unfolding ◌>>=◌
bind-ok m f s a s' o e h = rw (e, ◌>>=◌) h

pub bind-raise :
    {S A B : Type 0} (m : Exec S A) (f : A → Exec S B) (s : S) (e : Error) (s' : S)
    → m s ≡ raise e s'
    → (m >>= f) s ≡ raise e s'
unfolding ◌>>=◌
bind-raise m f s e s' h = rw (h, ◌>>=◌) refl

-- An action that gives the same result when it is repeated from the state it leaves.
pub repeat-eq :
    {S A : Type 0} (m : Exec S A) (s : S)
    → ((a : A) (s' : S) → m s ≡ ok a s' → m s' ≡ ok a s')
    → (m >> m) s ≡ m s
unfolding ◌>>=◌
repeat-eq {S = S} {A = A} m s h = go (m s) h
  where
    go :
        (o : Outcome S A)
        → ((a : A) (s' : S) → o ≡ ok a s' → m s' ≡ ok a s')
        → (let r : Outcome S A = elim o [ ok _ s' ↦ m s' | raise e s' ↦ raise e s' ] in r) ≡ o
    go (ok a s') k = k a s' refl
    go (raise e s') k = refl
