-- ===== src/Policies/Cap.antt =====
-- policies.py, `violates_consecutive_cap`: streaks of one author.
use swarmboard.Prelude.{
  ℕ, zero, suc, ◌+◌, ◌<◌, ◌≤◌, String, ◌≡◌, ◌↔◌, refl, true, Option, none, some, List, [], ◌∷◌,
  length, take, All, arith, eq_iff, length-append,
}
use swarmboard.Python.{Python}
use swarmboard.Models.{Post}
use swarmboard.Policies.Streaks.{reversed, is_text, identity, reaches_cap, violates_consecutive_cap}

is_text-only : (o : Option String) (s : String) → is_text o s ≡ true → o ≡ some s
is_text-only none s h = absurd (ground arith)
is_text-only (some t) s h = ground (arith, eq_iff t s)

is_text-if : (o : Option String) (s : String) → o ≡ some s → is_text o s ≡ true
is_text-if none s h = cc
is_text-if (some t) s h = ground (arith, eq_iff t s)

length-reversed : {A : Type 0} (xs : List A) → length (reversed xs) ≡ length xs
unfolding reversed
length-reversed [] = refl
length-reversed (x ∷ xs) = omega (arith, length-append (reversed xs) (x ∷ []), length-reversed xs)

module _ (py : Python) (candidate : String) where
  abbrev IsOwn : Post → Type 0
  IsOwn post = identity py post ≡ some candidate

  reaches_cap-only :
      (posts : List Post) (limit count k : ℕ)
      → limit ≡ count + suc k
      → reaches_cap py posts candidate limit count ≡ true
      → (suc k ≤ length posts) × All IsOwn (take (suc k) posts)
  unfolding reaches_cap
  reaches_cap-only [] limit count k e h = absurd (ground arith)
  reaches_cap-only (post ∷ posts) limit count zero e h =
      (omega arith, (is_text-only _ _ (ground arith), tt))
  reaches_cap-only (post ∷ posts) limit count (suc k) e h =
      let rest = reaches_cap-only posts limit (count + 1) k (omega (arith, e)) (ground arith) in
      (omega (arith, rest.0), (is_text-only _ _ (ground arith), rest.1))

  reaches_cap-if :
      (posts : List Post) (limit count k : ℕ)
      → limit ≡ count + suc k
      → suc k ≤ length posts
      → All IsOwn (take (suc k) posts)
      → reaches_cap py posts candidate limit count ≡ true
  unfolding reaches_cap
  reaches_cap-if [] limit count k e l a = absurd (omega (arith, l))
  reaches_cap-if (post ∷ posts) limit count zero e l a =
      ground (arith, is_text-if (identity py post) candidate a.0)
  reaches_cap-if (post ∷ posts) limit count (suc k) e l a = ground (
    arith,
    is_text-if (identity py post) candidate a.0,
    reaches_cap-if posts limit (count + 1) k (omega (arith, e)) (omega (arith, l)) a.1,
  )

  -- A positive cap is violated exactly when the last `limit` posts exist and are all by the
  -- candidate: a post by anyone else, or by a human, ends the streak.
  pub violates_consecutive_cap-streak :
      (posts : List Post) (limit : ℕ)
      → 0 < limit
      → (violates_consecutive_cap py posts candidate (some limit) ≡ true)
        ↔ ((limit ≤ length posts) × All IsOwn (take limit (reversed posts)))
  unfolding violates_consecutive_cap
  violates_consecutive_cap-streak posts zero l = absurd (omega (arith, l))
  violates_consecutive_cap-streak posts (suc k) l = (
    (λ h.
        let (n, a) = reaches_cap-only (reversed posts) (suc k) 0 k (omega arith) h in
        (omega (arith, n, length-reversed posts), a)),
    (λ (n, a).
        reaches_cap-if (reversed posts) (suc k) 0 k (omega arith)
          (omega (arith, n, length-reversed posts)) a),
  )
