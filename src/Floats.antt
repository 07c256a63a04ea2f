-- ===== src/Floats.antt =====
-- Python's float arithmetic: a parameter of the model. A float stands for its 64-bit pattern.
use swarmboard.Prelude.{ℕ, String, Bool, if◌then◌else◌}

abbrev pub Float : Type 0
Float = ℕ

-- `literal s` is the float that the source writes as `s`, `of_nat n` is `float(n)`, `round d x` is
-- `round(x, d)`.
pub record Floats : Type 0 where
  pub literal : String → Float
  pub of_nat : ℕ → Float
  pub negate : Float → Float
  pub plus : Float → Float → Float
  pub minus : Float → Float → Float
  pub times : Float → Float → Float
  pub divide : Float → Float → Float
  pub below : Float → Float → Bool
  pub at_most : Float → Float → Bool
  pub round : ℕ → Float → Float

module _ (fl : Floats) where
  -- `max(a, b)` and `min(a, b)`: the first, unless the second is better.
  abbrev pub max_of : Float → Float → Float
  max_of a b = if fl.below a b then b else a

  abbrev pub min_of : Float → Float → Float
  min_of a b = if fl.below b a then b else a
