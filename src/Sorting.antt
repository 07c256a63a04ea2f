-- ===== src/Sorting.antt =====
-- Sorting by a strict test, as `list.sort` and ORDER BY do: equal elements keep their order.
use swarmboard.Prelude.{Bool, List, [], ◌∷◌, All, Bool-cases, inl, inr, if◌then◌else◌}

unfoldable pub insert_by {ℓ} : {A : Type ℓ} → (A → A → Bool) → A → List A → List A
insert_by before x [] = x ∷ []
insert_by before x (y ∷ ys) =
    let rest = insert_by before x ys in if before y x then y ∷ rest else x ∷ y ∷ ys

unfoldable pub sort_by {ℓ} : {A : Type ℓ} → (A → A → Bool) → List A → List A
unfolding insert_by
sort_by before [] = []
sort_by before (x ∷ xs) = insert_by before x (sort_by before xs)

All-insert_by :
    {A : Type 0} (P : A → Type 0) (before : A → A → Bool) (x : A) (xs : List A)
    → P x
    → All P xs
    → All P (insert_by before x xs)
unfolding insert_by
All-insert_by P before x [] p a = (p, tt)
All-insert_by P before x (y ∷ ys) p a = elim (Bool-cases (before y x)) [
  | inl e ↦ rw e (a.0, All-insert_by P before x ys p a.1)
  | inr e ↦ rw e (p, a)
]

pub All-sort_by :
    {A : Type 0} (P : A → Type 0) (before : A → A → Bool) (xs : List A)
    → All P xs
    → All P (sort_by before xs)
unfolding sort_by
All-sort_by P before [] a = tt
All-sort_by P before (x ∷ xs) a =
    All-insert_by P before x (sort_by before xs) a.0 (All-sort_by P before xs a.1)
