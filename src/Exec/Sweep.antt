-- ===== src/Exec/Sweep.antt =====
-- A loop that rewrites, row by row, the rows that a SELECT returned.
use swarmboard.Prelude.{
  ℕ, ◌≡◌, refl, sym, subst, Bool, true, false, ◌==◌, List, [], ◌∷◌, arith, All, All-update, any_of,
  keep_if, any_of-keep_if, update_where,
}
use swarmboard.Exec.{Exec, ok, for_each}

module _ {A : Type 0} (id_of : A → ℕ) (due : A → Bool) where
  -- Every due row is still on the list.
  abbrev pub Left : List A → List A → Type 0
  Left todo rows = All (λ y. due y ≡ true → any_of (λ x. id_of x == id_of y) todo ≡ true) rows

  pub Left-start : (rows : List A) → Left (keep_if due rows) rows
  Left-start rows = any_of-keep_if due (λ x y. id_of x == id_of y) rows (λ x. ground arith)

  Left-step :
      (x x' : A) (todo rows : List A)
      → due x' ≡ false
      → Left (x ∷ todo) rows
      → Left todo (update_where (λ y. id_of y == id_of x) (λ _. x') rows)
  unfolding any_of
  Left-step x x' todo rows dead h =
      All-update _ _ (λ y. id_of y == id_of x) (λ _. x') rows (λ y e k. ground arith)
        (λ y e k. ground arith) h

  pub none-Left : (rows : List A) → Left [] rows → All (λ y. due y ≡ false) rows
  unfolding any_of
  none-Left [] h = tt
  none-Left (y ∷ rows) h = (ground (arith, h.0), none-Left rows h.1)

  module _ {S : Type 0} (rows : S → List A) (Stays : S → Type 0) where
    -- One round: `x` is rewritten to a row that is not due, and `Stays` is kept.
    pub record Round (x : A) (s' : S) (before : List A) : Type 0 where
      pub stays : Stays s'
      pub row : A
      pub dead : due row ≡ false
      pub written : rows s' ≡ update_where (λ y. id_of y == id_of x) (λ _. row) before

    pub sweep :
        (Fit : A → Type 0) (body : A → Exec S Unit)
        → ((x : A) (s : S)
            → Stays s
            → Fit x
            → (s' : S) × (body x s ≡ ok tt s') × Round x s' (rows s))
        → (todo : List A) (s : S) → Stays s
        → All Fit todo
        → Left todo (rows s)
        → (s' : S) × (for_each todo body s ≡ ok tt s') × Stays s' × Left [] (rows s')
    unfolding for_each
    sweep Fit body step [] s p f h = (s, refl, p, h)
    sweep Fit body step (x ∷ todo) s p f h =
        let (s', e, r) = step x s p f.0 in
        let (s'', e', p', h') =
          sweep Fit body step todo s' r.stays f.1
            (subst (Left todo) (sym r.written) (Left-step x r.row todo (rows s) r.dead h)) in
        (s'', rw (e, for_each) e', p', h')
