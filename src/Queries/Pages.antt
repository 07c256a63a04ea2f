-- ===== src/Queries/Pages.antt =====
-- repository.py, `list_events`: reading the log page by page.
use swarmboard.Prelude.{
  ℕ, ◌≤◌, ◌<◌, Bool, true, ◌≡◌, refl, ap, ◌∙◌, subst, is_val, ◌&&◌, Option, none, some, List, [],
  ◌∷◌, ◌++◌, take, keep_if, arith, ltb, same_val, Bool-cases, inl, inr,
}
use swarmboard.Exec.{ok}
use swarmboard.Models.{RowId, Event}
use swarmboard.Tables.{World}
use swarmboard.Sorting.{insert_by, sort_by}
use swarmboard.Queries.{list_events, passes}

-- The keys rise from a key above `k` on, as an autoincremented key does.
abbrev pub IsRising : ℕ → List Event → Type 0
IsRising k [] = Unit
IsRising k (e ∷ es) = (k < e.id) × IsRising e.id es

-- Does the event belong to the run and to the thread, where they are given?
abbrev pub is_about : Option RowId → Option RowId → Event → Bool
is_about none none e = true
is_about none (some t) e = same_val e.thread_id (some t)
is_about (some r) none e = same_val e.run_id (some r)
is_about (some r) (some t) e = same_val e.run_id (some r) && same_val e.thread_id (some t)

-- The key of the last event that was read, or `k`.
abbrev pub last_key : ℕ → List Event → ℕ
last_key k [] = k
last_key k (e ∷ es) = last_key e.id es

insert_by-first :
    (e : Event) (es : List Event)
    → IsRising e.id es
    → insert_by (λ a b. ltb a.id b.id) e es ≡ e ∷ es
unfolding insert_by
insert_by-first e [] r = refl
insert_by-first e (x ∷ xs) r = ground (arith, r.0)

sort_by-IsRising :
    (k : ℕ) (es : List Event) → IsRising k es → sort_by (λ a b. ltb a.id b.id) es ≡ es
unfolding sort_by
sort_by-IsRising k [] r = refl
sort_by-IsRising k (e ∷ es) r = rw (sort_by-IsRising e.id es r.1) (insert_by-first e es r.1)

IsRising-above : (j k : ℕ) (es : List Event) → j ≤ k → IsRising k es → IsRising j es
IsRising-above j k [] l r = tt
IsRising-above j k (e ∷ es) l r = (omega (arith, l, r.0), r.1)

module _ (m : Event → Bool) where
  IsRising-keep_if : (k : ℕ) (es : List Event) → IsRising k es → IsRising k (keep_if m es)
  unfolding keep_if
  IsRising-keep_if k [] r = tt
  IsRising-keep_if k (e ∷ es) r = elim (Bool-cases (m e)) [
    | inl h ↦ rw h (r.0, IsRising-keep_if e.id es r.1)
    | inr h ↦ rw h (IsRising-above k e.id _ (omega (arith, r.0)) (IsRising-keep_if e.id es r.1))
  ]

  keep_if-agree :
      (p : Event → Bool) (es : List Event) → ((e : Event) → p e ≡ m e) → keep_if p es ≡ keep_if m es
  unfolding keep_if
  keep_if-agree p [] h = refl
  keep_if-agree p (e ∷ es) h = rw (h e, keep_if-agree p es h) refl

  abbrev is_next : ℕ → Event → Bool
  is_next after e = ltb after e.id && m e

  keep_if-all :
      (after k : ℕ) (es : List Event)
      → after ≤ k
      → IsRising k es
      → keep_if (is_next after) es ≡ keep_if m es
  unfolding keep_if
  keep_if-all after k [] l r = refl
  keep_if-all after k (e ∷ es) l r =
      ground (arith, r.0, l, keep_if-all after e.id es (omega (arith, l, r.0)) r.1)

  -- Past the events `xs` that were read, the matching ones are those that were not.
  keep_if-next :
      (k : ℕ) (es xs ys : List Event)
      → IsRising k es
      → keep_if m es ≡ xs ++ ys
      → (k ≤ last_key k xs) × (keep_if (is_next (last_key k xs)) es ≡ ys)
  unfolding keep_if
  keep_if-next k es [] ys r h = (omega arith, keep_if-all k k es (omega arith) r ∙ h)
  keep_if-next k [] (x ∷ xs) ys r h = absurd (ground arith)
  keep_if-next k (e ∷ es) (x ∷ xs) ys r h = elim (Bool-cases (m e)) [
    | inl q ↦
        let g : e ∷ keep_if m es ≡ x ∷ (xs ++ ys) = rw q at h in
        let same : e ≡ x = ground arith in
        let (l, n) = keep_if-next e.id es xs ys r.1 (ground arith) in
        subst (λ z. (k ≤ last_key z.id xs) × (keep_if (is_next (last_key z.id xs)) (e ∷ es) ≡ ys))
          same (omega (arith, l, r.0), ground (arith, l, n))
    | inr q ↦
        let (l, n) = keep_if-next e.id es (x ∷ xs) ys r.1 (rw q at h) in
        (omega (arith, l, r.0), ground (arith, q, n))
  ]

is_val_lem : (x : Option RowId) (id : RowId) → is_val x id ≡ same_val x (some id)
is_val_lem none id = refl
is_val_lem (some k) id = refl

passes-is_about :
    (run thread : Option RowId) (e : Event)
    → (passes run e.run_id && passes thread e.thread_id) ≡ is_about run thread e
passes-is_about none none e = refl
passes-is_about none (some t) e = is_val_lem e.thread_id t
passes-is_about (some r) none e = ground (arith, is_val_lem e.run_id r)
passes-is_about (some r) (some t) e = rw (is_val_lem e.run_id r, is_val_lem e.thread_id t) refl

-- However the log is paged through: in a log whose keys rise, once the first events that match the
-- given run and thread have been read, the page after the last key that was read is the start of
-- the matching events that remain, up to the limit.
pub list_events-page :
    (run thread : Option RowId) (limit : ℕ) (w : World) (read rest : List Event)
    → IsRising 0 w.events
    → keep_if (is_about run thread) w.events ≡ read ++ rest
    → list_events (last_key 0 read) run thread limit w ≡ ok (take limit rest) w
unfolding list_events swarmboard.Exec.gets
list_events-page run thread limit w read rest r h =
    let m = is_about run thread in
    let after = last_key 0 read in
    let next = (keep_if-next m 0 w.events read rest r h).1 in
    let sorted = sort_by-IsRising 0 _ (IsRising-keep_if (is_next m after) 0 w.events r) in
    ap (λ es. ok (take limit es) w)
      (ap (sort_by (λ a b. ltb a.id b.id)) (
          keep_if-agree (is_next m after) _ w.events
            (λ e. ap (λ b. ltb after e.id && b) (passes-is_about run thread e)))
        ∙ sorted
        ∙ next)
