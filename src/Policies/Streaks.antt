-- ===== src/Policies/Streaks.antt =====
-- policies.py: who speaks in a post, and the two limits on speaking in turns.
use Prim.Native.String.{◌++◌ as then_text}
use swarmboard.Prelude.{
  ℕ, ◌+◌, ◌-◌, String, Bool, true, false, ◌&&◌, not, Option, none, some, List, [], ◌∷◌, ◌++◌,
  length, drop, str_eq, ◌==◌, ltb, leb, if◌then◌else◌,
}
use swarmboard.Python.{Python}
use swarmboard.Models.{Post, AuthorType, agent}
use swarmboard.Policies.Config.{distinct}

-- `xs[-n:]` for a positive `n`
abbrev pub last {ℓ} : {A : Type ℓ} → ℕ → List A → List A
last n xs = drop (length xs - n) xs

unfoldable pub reversed {ℓ} : {A : Type ℓ} → List A → List A
reversed [] = []
reversed (x ∷ xs) = reversed xs ++ (x ∷ [])

abbrev pub is_agent : AuthorType → Bool
is_agent agent = true
is_agent _ = false

-- `x == s` where `x` may be None.
abbrev pub is_text : Option String → String → Bool
is_text none s = false
is_text (some t) s = str_eq t s

-- all(tail[i] != tail[i - 1])
unfoldable pub alternates : List String → Bool
alternates [] = true
alternates (x ∷ []) = true
alternates (x ∷ y ∷ ys) = not (str_eq y x) && alternates (y ∷ ys)

module _ (py : Python) where
  unfoldable pub identity : Post → Option String
  identity post = elim post.author_agent_id [
    | some a ↦ some (py.id_text a)
    | none ↦
        if not (str_eq post.author_handle "") && is_agent post.author_type
        then some (then_text "handle:" (py.casefold post.author_handle))
        else none
  ]

  unfoldable pub identities : List Post → List String
  unfolding identity
  identities [] = []
  identities (post ∷ posts) = elim (identity post) [
    | none ↦ identities posts
    | some s ↦ s ∷ identities posts
  ]

  unfoldable pub violates_ping_pong : List Post → String → ℕ → Bool
  unfolding identities alternates distinct
  violates_ping_pong posts candidate limit =
      let known = identities posts in
      let tail = last (limit + 1) (known ++ (candidate ∷ [])) in
      if limit == 0
      then false
      else if ltb (length known) limit
      then false
      else length (distinct tail) == 2 && alternates tail

  -- The loop from the newest post, with the count so far.
  unfoldable pub reaches_cap : List Post → String → ℕ → ℕ → Bool
  unfolding identity
  reaches_cap [] candidate limit count = false
  reaches_cap (post ∷ posts) candidate limit count =
      let rest = reaches_cap posts candidate limit (count + 1) in
      if is_text (identity post) candidate
      then if leb limit (count + 1) then true else rest
      else false

  unfoldable pub violates_consecutive_cap : List Post → String → Option ℕ → Bool
  unfolding reaches_cap reversed
  violates_consecutive_cap posts candidate none = false
  violates_consecutive_cap posts candidate (some limit) =
      reaches_cap (reversed posts) candidate limit 0
