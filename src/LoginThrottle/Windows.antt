-- ===== src/LoginThrottle/Windows.antt =====
-- auth.py, `LoginThrottle.allow`: its answer after a sequence of attempts.
use swarmboard.Prelude.{
  ◌+◌, ◌≤◌, ◌≡◌, refl, ap, String, Bool, true, List, [], ◌∷◌, length, All, arith, ltb, leb,
  count_if, Bool-cases, inl, inr,
}
use swarmboard.Models.{Time}
use swarmboard.LoginThrottle.{LoginThrottle, attempts_of, drop_expired, allow}
use swarmboard.LoginThrottle.Bounded.{
  IsOrdered, serve, clock_after, serve-IsThrottled, IsWindow-attempts_of,
}

-- An attempt that the window still covers.
abbrev pub is_recent : LoginThrottle → Time → Time → Bool
is_recent t now a = ltb now (a + t.window)

count_if-length :
    (t : LoginThrottle) (now a : Time) (ts : List Time)
    → now ≤ a + t.window
    → ltb now (a + t.window) ≡ true
    → All (λ c. a ≤ c) ts
    → count_if (is_recent t now) ts ≡ length ts
unfolding count_if
count_if-length t now a [] l h o = refl
count_if-length t now a (c ∷ ts) l h o = ground (arith, h, o.0, count_if-length t now a ts l h o.1)

length-drop_expired :
    (t : LoginThrottle) (now at : Time) (ts : List Time)
    → IsOrdered at ts
    → length (drop_expired t now ts) ≡ count_if (is_recent t now) ts
unfolding drop_expired count_if
length-drop_expired t now at [] o = refl
length-drop_expired t now at (a ∷ ts) o = elim (Bool-cases (leb (a + t.window) now)) [
  | inl e ↦ ground (arith, e, length-drop_expired t now at ts o.2)
  | inr e ↦
      ground (arith, e, count_if-length t now a ts (ground (arith, e)) (ground (arith, e)) o.1)
]

-- However login attempts came before, the next one is let pass exactly when the bucket of its
-- address holds fewer than `limit` attempts that are less than `window` old.
pub allow-recent :
    (t : LoginThrottle) (start : Time) (attempts : List (String × Time)) (address : String)
    (now : Time)
    → (allow t address now (serve t start attempts [])).0
      ≡ ltb
          (count_if (is_recent t now) (attempts_of (t.sha256 address) (serve t start attempts [])))
          t.limit
unfolding allow
allow-recent t start attempts address now =
    let bs = serve t start attempts [] in
    let key = t.sha256 address in
    ap (λ n. ltb n t.limit)
      (length-drop_expired t now (clock_after start attempts) (attempts_of key bs)
        (IsWindow-attempts_of t (clock_after start attempts) key bs
          (serve-IsThrottled t start attempts).0).1)
