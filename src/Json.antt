-- ===== src/Json.antt =====
-- JSON values, and Python dicts with string keys as association lists.
use swarmboard.Prelude.{
  ℕ, ◌%◌, ◌/◌, ◌^◌, String, ◌≡◌, refl, Bool, not, Option, none, some, List, [], ◌∷◌, arith, ltb,
  ◌==◌, str_eq, eq_iff, if◌then◌else◌,
}
use swarmboard.Prelude.Int.{ℤ}

-- A float stands for its 64-bit pattern.
mutual
  pub data Json : Type 0 where
    null : Json
    flag : Bool → Json
    int : ℤ → Json
    float : ℕ → Json
    text : String → Json
    array : Items → Json
    object : Fields → Json

  pub data Items : Type 0 where
    nil : Items
    cons : Json → Items → Items

  pub data Fields : Type 0 where
    end : Fields
    field : String → Json → Fields → Fields

abbrev pub Dict : Type 0
Dict = List (String × Json)

unfoldable pub entries : Fields → Dict
entries end = []
entries (field k v rest) = (k, v) ∷ entries rest

unfoldable pub to_fields : Dict → Fields
to_fields [] = end
to_fields ((k, v) ∷ d) = field k v (to_fields d)

pub entries-to_fields : (d : Dict) → entries (to_fields d) ≡ d
unfolding entries to_fields
entries-to_fields [] = refl
entries-to_fields ((k, v) ∷ d) = rw (entries-to_fields d)

-- `d.get(k)`
unfoldable pub get : String → Dict → Option Json
get k [] = none
get k ((j, v) ∷ d) = if str_eq j k then some v else get k d

-- `d` without the key `k`
unfoldable pub without : String → Dict → Dict
without k [] = []
without k ((j, v) ∷ d) = let rest = without k d in if str_eq j k then rest else (j, v) ∷ rest

pub get-without :
    (k j : String) (d : Dict) → get j (without k d) ≡ (if str_eq k j then none else get j d)
unfolding get without
get-without k j [] = ground arith
get-without k j ((i, v) ∷ d) = ground (arith, get-without k j d, eq_iff i k, eq_iff i j, eq_iff k j)

pub without_idem : (k : String) (d : Dict) → without k (without k d) ≡ without k d
unfolding without
without_idem k [] = refl
without_idem k ((i, v) ∷ d) = ground (arith, without_idem k d)

pub without_comm : (k j : String) (d : Dict) → without k (without j d) ≡ without j (without k d)
unfolding without
without_comm k j [] = refl
without_comm k j ((i, v) ∷ d) = ground (arith, without_comm k j d)

-- `math.isfinite`: the exponent bits are not all set.
unfoldable pub is_finite : ℕ → Bool
is_finite bits = not ((bits / 2 ^ 52) % 2048 == 2047)

-- `x < 0` for a finite float: the sign bit is set, and the rest is not zero.
unfoldable pub is_negative : ℕ → Bool
is_negative bits = ltb (2 ^ 63) bits
