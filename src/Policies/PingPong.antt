-- ===== src/Policies/PingPong.antt =====
-- policies.py, `violates_ping_pong`: two authors in turn.
use swarmboard.Prelude.{
  ℕ, zero, suc, ◌+◌, ◌-◌, ◌<◌, ◌≤◌, String, ◌≡◌, ◌≢◌, ◌↔◌, ◌⊎◌, inl, inr, refl, sym, subst, true,
  false, ◌&&◌, List, [], ◌∷◌, ◌++◌, length, drop, any_of, arith, str_eq, eq_iff, Bool-cases, ◌==◌,
  length-append, ap,
}
use swarmboard.Python.{Python}
use swarmboard.Models.{Post}
use swarmboard.Policies.Config.{member, distinct}
use swarmboard.Policies.Streaks.{last, alternates, identities, violates_ping_pong}

-- `n` speakers in turn, of whom the first two are `x` and `y`.
unfoldable pub zigzag : ℕ → String → String → List String
zigzag zero x y = []
zigzag (suc n) x y = x ∷ zigzag n y x

length-zigzag : (n : ℕ) (x y : String) → length (zigzag n x y) ≡ n
unfolding zigzag
length-zigzag zero x y = refl
length-zigzag (suc n) x y = omega (arith, length-zigzag n y x)

length-drop : {A : Type 0} (n : ℕ) (xs : List A) → length (drop n xs) ≡ length xs - n
length-drop zero xs = omega arith
length-drop (suc n) [] = omega arith
length-drop (suc n) (x ∷ xs) = omega (arith, length-drop n xs)

member-distinct : (x : String) (xs : List String) → member x (distinct xs) ≡ member x xs
unfolding distinct any_of
member-distinct x [] = refl
member-distinct x (y ∷ ys) = ground (arith, member-distinct x ys, eq_iff x y)

member-zigzag : (n : ℕ) (s x y : String) → member s (zigzag n x y) ≡ true → (s ≡ x) ⊎ (s ≡ y)
unfolding zigzag any_of
member-zigzag zero s x y h = absurd (ground arith)
member-zigzag (suc n) s x y h = ground (arith, member-zigzag n s y x, eq_iff s x)

two_members :
    (x y : String) (xs : List String)
    → member x xs ≡ true
    → member y xs ≡ true
    → str_eq y x ≡ false
    → 2 ≤ length xs
unfolding any_of
two_members x y [] h k e = absurd (ground arith)
two_members x y (a ∷ []) h k e = absurd (ground (arith, eq_iff x a, eq_iff y a, eq_iff y x))
two_members x y (a ∷ b ∷ xs) h k e = omega arith

length-distinct_nil : length (distinct []) ≡ 0
unfolding distinct
length-distinct_nil = refl

distinct-seen :
    (x : String) (xs : List String) → member x xs ≡ true → distinct (x ∷ xs) ≡ distinct xs
unfolding distinct
distinct-seen x xs h = rw (member-distinct x xs, h) refl

distinct-new :
    (x : String) (xs : List String)
    → member x xs ≡ false
    → length (distinct (x ∷ xs)) ≡ 1 + length (distinct xs)
unfolding distinct
distinct-new x xs h = rw (member-distinct x xs, h) (omega arith)

distinct-one : (x : String) (xs : List String) → 1 ≤ length (distinct (x ∷ xs))
unfolding distinct any_of
distinct-one x [] = omega arith
distinct-one x (y ∷ ys) = elim (Bool-cases (member x (y ∷ ys))) [
  | inl m ↦ rw (member-distinct x (y ∷ ys), m) (distinct-one y ys)
  | inr n ↦ rw (member-distinct x (y ∷ ys), n) (omega arith)
]

distinct-two :
    (x y : String) (ys : List String) → str_eq y x ≡ false → 2 ≤ length (distinct (x ∷ y ∷ ys))
unfolding any_of
distinct-two x y ys e = elim (Bool-cases (member x (y ∷ ys))) [
  | inl m ↦
      subst (λ d. 2 ≤ length d) (sym (distinct-seen x (y ∷ ys) m))
        (two_members x y (distinct (y ∷ ys)) (ground (arith, member-distinct x (y ∷ ys)))
          (ground (arith, member-distinct y (y ∷ ys), eq_iff y y)) e)
  | inr n ↦ omega (arith, distinct-new x (y ∷ ys) n, distinct-one y ys)
]

-- Two speakers who alternate are a zigzag.
two_alternate :
    (x y : String) (ys : List String)
    → alternates (x ∷ y ∷ ys) ≡ true
    → length (distinct (x ∷ y ∷ ys)) ≡ 2
    → (x ∷ y ∷ ys) ≡ zigzag (length (x ∷ y ∷ ys)) x y
unfolding alternates zigzag any_of
two_alternate x y [] h k = refl
two_alternate x y (z ∷ zs) h k = elim (Bool-cases (member x (y ∷ z ∷ zs))) [
  | inl m ↦
      let rest =
        two_alternate y z zs (ground arith) (ground (arith, distinct-seen x (y ∷ z ∷ zs) m)) in
      let seen = subst (λ l. member x l ≡ true) rest m in
      elim (member-zigzag (length (y ∷ z ∷ zs)) x y z seen) [
        | inl e ↦ absurd (ground (arith, eq_iff y x))
        | inr e ↦ cc
      ]
  | inr n ↦
      absurd (ground (arith, distinct-new x (y ∷ z ∷ zs) n, distinct-two y z zs (ground arith)))
]

alternates-zigzag : (n : ℕ) (x y : String) → x ≢ y → alternates (zigzag n x y) ≡ true
unfolding alternates zigzag
alternates-zigzag zero x y d = refl
alternates-zigzag (suc zero) x y d = refl
alternates-zigzag (suc (suc n)) x y d =
    ground (arith, alternates-zigzag (suc n) y x (λ e. d (sym e)), eq_iff y x)

distinct-zigzag : (n : ℕ) (x y : String) → x ≢ y → length (distinct (zigzag (suc (suc n)) x y)) ≡ 2
unfolding zigzag any_of
distinct-zigzag zero x y d = omega (
  arith,
  distinct-new x (y ∷ []) (ground (arith, eq_iff x y)),
  distinct-new y [] refl,
  length-distinct_nil,
)
distinct-zigzag (suc n) x y d =
    subst (λ l. length l ≡ 2)
      (sym (distinct-seen x (zigzag (suc (suc n)) y x) (ground (arith, eq_iff x x))))
      (distinct-zigzag n y x (λ e. d (sym e)))

-- Two speakers in turn, the last of `n` being the candidate or the other.
abbrev Duel : List String → Type 0
Duel tail = (x : String) × (y : String) × (x ≢ y) × (tail ≡ zigzag (length tail) x y)

Duel-only :
    (tail : List String)
    → 2 ≤ length tail
    → (length (distinct tail) == 2 && alternates tail) ≡ true
    → Duel tail
unfolding alternates
Duel-only [] l h = absurd (omega (arith, l))
Duel-only (x ∷ []) l h = absurd (omega (arith, l))
Duel-only (x ∷ y ∷ ys) l h = (
  x,
  y,
  (λ e. absurd (ground (arith, eq_iff y x, sym e))),
  two_alternate x y ys (ground arith) (ground arith),
)

Duel-if :
    (n : ℕ) (x y : String) (tail : List String)
    → x ≢ y
    → 2 ≤ n
    → tail ≡ zigzag n x y
    → (length (distinct tail) == 2 && alternates tail) ≡ true
Duel-if zero x y tail d l e = absurd (omega (arith, l))
Duel-if (suc zero) x y tail d l e = absurd (omega (arith, l))
Duel-if (suc (suc n)) x y tail d l e =
    rw e (ground (arith, distinct-zigzag n x y d, alternates-zigzag (suc (suc n)) x y d))

length-last : {A : Type 0} (n : ℕ) (xs : List A) → n ≤ length xs → length (last n xs) ≡ n
length-last n xs h = omega (arith, h, length-drop (length xs - n) xs)

length-last-le : {A : Type 0} (n : ℕ) (xs : List A) → length (last n xs) ≤ length xs
length-last-le n xs = omega (arith, length-drop (length xs - n) xs)

-- A ping-pong limit is violated exactly when it is positive and, with the candidate's next post,
-- the last `limit + 1` posts of known authors would be by two different ones in turn.
pub violates_ping_pong-zigzag :
    (py : Python) (posts : List Post) (candidate : String) (limit : ℕ)
    → (violates_ping_pong py posts candidate limit ≡ true) ↔ (
        (0 < limit)
        × (x : String) × (y : String) × (x ≢ y)
        × (last (limit + 1) (identities py posts ++ (candidate ∷ [])) ≡ zigzag (limit + 1) x y))
unfolding violates_ping_pong
violates_ping_pong-zigzag py posts candidate limit = (only, if_so)
  where
    known : List String
    known = identities py posts

    all : List String
    all = known ++ (candidate ∷ [])

    only :
        violates_ping_pong py posts candidate limit ≡ true
        → (0 < limit)
          × (x : String) × (y : String) × (x ≢ y)
          × (last (limit + 1) all ≡ zigzag (limit + 1) x y)
    only h =
        let enough =
          length-last (limit + 1) all (ground (arith, length-append known (candidate ∷ []))) in
        let (x, y, d, e) = Duel-only (last (limit + 1) all) (ground arith) (ground arith) in
        (ground arith, x, y, d, subst (λ n. last (limit + 1) all ≡ zigzag n x y) enough e)

    if_so :
        (0 < limit)
          × (x : String) × (y : String) × (x ≢ y)
          × (last (limit + 1) all ≡ zigzag (limit + 1) x y)
        → violates_ping_pong py posts candidate limit ≡ true
    if_so (l, x, y, d, e) =
        let long = ap length e in
        ground (
          arith,
          length-zigzag (limit + 1) x y,
          length-last-le (limit + 1) all,
          length-append known (candidate ∷ []),
          Duel-if (limit + 1) x y (last (limit + 1) all) d (omega (arith, l)) e,
        )
