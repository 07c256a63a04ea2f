-- ===== src/Python.antt =====
-- The text functions of Python and of the database that the repository calls: parameters of the
-- model.
use swarmboard.Prelude.{ℕ, String, Bool}

-- `nocase s` is the text as which the collation NOCASE of SQLite compares and orders `s`.
-- `clip n s` is `s[:n]`, `contains s t` is `t in s`, `id_text` the text of a uuid.
pub record Python : Type 0 where
  pub strip : String → String
  pub lstrip_at : String → String
  pub casefold : String → String
  pub nocase : String → String
  pub clip : ℕ → String → String
  pub contains : String → String → Bool
  pub id_text : ℕ → String
