-- ===== src/Optional.antt =====
-- Chains of steps of which each may fail: `none` is an exception of the source.
use swarmboard.Prelude.{◌≡◌, refl, Option, none, some, arith}

infixl 5 ◌>>=◌
unfoldable pub ◌>>=◌ : {A B : Type 0} → Option A → (A → Option B) → Option B
none >>= f = none
some a >>= f = f a

-- A chain that returns: its first step returns, and so does the rest.
pub >>=-returns :
    {A B : Type 0} (m : Option A) (f : A → Option B) (b : B)
    → (m >>= f) ≡ some b
    → (a : A) × (m ≡ some a) × (f a ≡ some b)
unfolding ◌>>=◌
>>=-returns none f b h = absurd (ground arith)
>>=-returns (some a) f b h = (a, refl, h)

pub >>=-step :
    {A B : Type 0} (m : Option A) (f : A → Option B) (a : A) (b : B)
    → m ≡ some a
    → f a ≡ some b
    → (m >>= f) ≡ some b
unfolding ◌>>=◌
>>=-step m f a b e h = rw e h
