-- ===== src/LoginThrottle/Bounded.antt =====
-- auth.py, `LoginThrottle`: its buckets over sequences of attempts.
use swarmboard.Prelude.{
  ℕ, ◌+◌, ◌≤◌, ◌≡◌, String, true, false, List, [], ◌∷◌, ◌++◌, length, length-append, All,
  All-append, All-mono, arith, ltb, leb, str_eq, eq_iff, if◌then◌else◌, Bool-cases, inl, inr,
}
use swarmboard.Models.{Time}
use swarmboard.LoginThrottle.{
  LoginThrottle, Buckets, attempts_of, popped, drop_expired, evict, allow,
}

-- Attempts in the order of their times, none after `now`.
abbrev pub IsOrdered : Time → List Time → Type 0
IsOrdered now [] = Unit
IsOrdered now (a ∷ ts) = (a ≤ now) × All (λ c. a ≤ c) ts × IsOrdered now ts

abbrev pub IsWindow : LoginThrottle → Time → List Time → Type 0
IsWindow t now ts = (length ts ≤ t.limit) × IsOrdered now ts

abbrev pub HasNoKey : String → Buckets → Type 0
HasNoKey key bs = All (λ b. str_eq b.0 key ≡ false) bs

abbrev pub IsKeyed : Buckets → Type 0
IsKeyed [] = Unit
IsKeyed (b ∷ bs) = All (λ c. str_eq b.0 c.0 ≡ false) bs × IsKeyed bs

abbrev pub IsThrottled : LoginThrottle → Time → Buckets → Type 0
IsThrottled t now bs = All (λ b. IsWindow t now b.1) bs × IsKeyed bs × (length bs ≤ t.max_buckets)

length-evict : (most : ℕ) (bs : Buckets) → length (evict most bs) ≤ most
unfolding evict
length-evict most [] = omega arith
length-evict most (b ∷ bs) = ground (arith, length-evict most bs)

All-evict :
    (P : String × List Time → Type 0) (most : ℕ) (bs : Buckets) → All P bs → All P (evict most bs)
unfolding evict
All-evict P most [] h = tt
All-evict P most (b ∷ bs) h = elim (Bool-cases (ltb most (length (b ∷ bs)))) [
  | inl e ↦ rw e (All-evict P most bs h.1)
  | inr e ↦ rw e h
]

IsKeyed-evict : (most : ℕ) (bs : Buckets) → IsKeyed bs → IsKeyed (evict most bs)
unfolding evict
IsKeyed-evict most [] h = tt
IsKeyed-evict most (b ∷ bs) h = elim (Bool-cases (ltb most (length (b ∷ bs)))) [
  | inl e ↦ rw e (IsKeyed-evict most bs h.1)
  | inr e ↦ rw e h
]

All-popped :
    (P : String × List Time → Type 0) (key : String) (bs : Buckets)
    → All P bs
    → All P (popped key bs)
unfolding popped
All-popped P key [] h = tt
All-popped P key (b ∷ bs) h = elim (Bool-cases (str_eq b.0 key)) [
  | inl e ↦ rw e h.1
  | inr e ↦ rw e (h.0, All-popped P key bs h.1)
]

IsKeyed-popped : (key : String) (bs : Buckets) → IsKeyed bs → IsKeyed (popped key bs)
unfolding popped
IsKeyed-popped key [] h = tt
IsKeyed-popped key (b ∷ bs) h = elim (Bool-cases (str_eq b.0 key)) [
  | inl e ↦ rw e h.1
  | inr e ↦ rw e (All-popped (λ c. str_eq b.0 c.0 ≡ false) key bs h.0, IsKeyed-popped key bs h.1)
]

same_text : (a b c : String) → str_eq a b ≡ true → str_eq a c ≡ false → str_eq c b ≡ false
same_text a b c h k = ground (arith, eq_iff a b, eq_iff a c, eq_iff c b)

HasNoKey-popped : (key : String) (bs : Buckets) → IsKeyed bs → HasNoKey key (popped key bs)
unfolding popped
HasNoKey-popped key [] h = tt
HasNoKey-popped key (b ∷ bs) h = elim (Bool-cases (str_eq b.0 key)) [
  | inl e ↦ rw e (
      All-mono (λ c. str_eq b.0 c.0 ≡ false) (λ c. str_eq c.0 key ≡ false) bs
        (λ c k. same_text b.0 key c.0 e k) h.0)
  | inr e ↦ rw e (e, HasNoKey-popped key bs h.1)
]

IsKeyed-append :
    (bs : Buckets) (key : String) (ts : List Time)
    → IsKeyed bs
    → HasNoKey key bs
    → IsKeyed (bs ++ ((key, ts) ∷ []))
IsKeyed-append [] key ts h k = (tt, tt)
IsKeyed-append (b ∷ bs) key ts h k = (
  All-append (λ c. str_eq b.0 c.0 ≡ false) bs ((key, ts) ∷ []) h.0 (k.0, tt),
  IsKeyed-append bs key ts h.1 k.1,
)

pub IsOrdered-later :
    (now later : Time) (ts : List Time) → now ≤ later → IsOrdered now ts → IsOrdered later ts
IsOrdered-later now later [] l h = tt
IsOrdered-later now later (a ∷ ts) l h =
    (omega (arith, l, h.0), h.1, IsOrdered-later now later ts l h.2)

-- A bucket that is missing holds no attempt.
pub IsWindow-attempts_of :
    (t : LoginThrottle) (now : Time) (key : String) (bs : Buckets)
    → All (λ b. IsWindow t now b.1) bs
    → IsWindow t now (attempts_of key bs)
unfolding attempts_of
IsWindow-attempts_of t now key [] h = (omega arith, tt)
IsWindow-attempts_of t now key (b ∷ bs) h = elim (Bool-cases (str_eq b.0 key)) [
  | inl e ↦ rw e h.0
  | inr e ↦ rw e (IsWindow-attempts_of t now key bs h.1)
]

IsWindow-drop_expired :
    (t : LoginThrottle) (now : Time) (ts : List Time)
    → IsWindow t now ts
    → IsWindow t now (drop_expired t now ts)
unfolding drop_expired
IsWindow-drop_expired t now [] h = h
IsWindow-drop_expired t now (a ∷ ts) h = elim (Bool-cases (leb (a + t.window) now)) [
  | inl e ↦ rw e (IsWindow-drop_expired t now ts (omega (arith, h.0), h.1.2))
  | inr e ↦ rw e h
]

IsOrdered-append :
    (now : Time) (ts : List Time) → IsOrdered now ts → IsOrdered now (ts ++ (now ∷ []))
IsOrdered-append now [] h = (omega arith, tt, tt)
IsOrdered-append now (a ∷ ts) h =
    (h.0, All-append (λ c. a ≤ c) ts (now ∷ []) h.1 (h.0, tt), IsOrdered-append now ts h.2)

IsWindow-kept :
    (t : LoginThrottle) (now : Time) (ts : List Time)
    → IsWindow t now ts
    → IsWindow t now (if ltb (length ts) t.limit then ts ++ (now ∷ []) else ts)
IsWindow-kept t now ts h = elim (Bool-cases (ltb (length ts) t.limit)) [
  | inl e ↦ rw e (ground (arith, e, length-append ts (now ∷ [])), IsOrdered-append now ts h.1)
  | inr e ↦ rw e h
]

allow-IsThrottled :
    (t : LoginThrottle) (address : String) (now delay : Time) (bs : Buckets)
    → IsThrottled t now bs
    → IsThrottled t (now + delay) (allow t address (now + delay) bs).1
unfolding allow
allow-IsThrottled t address now delay bs h =
    let key = t.sha256 address in
    let later = now + delay in
    let windows =
      All-mono (λ b. IsWindow t now b.1) (λ b. IsWindow t later b.1) bs
        (λ b w. (w.0, IsOrdered-later now later b.1 (omega arith) w.1)) h.0 in
    let window =
      IsWindow-drop_expired t later (attempts_of key bs)
        (IsWindow-attempts_of t later key bs windows) in
    let kept = IsWindow-kept t later (drop_expired t later (attempts_of key bs)) window in
    (
      All-evict (λ b. IsWindow t later b.1) t.max_buckets _
          (All-append (λ b. IsWindow t later b.1) (popped key bs) _
            (All-popped (λ b. IsWindow t later b.1) key bs windows) (kept, tt)),
      IsKeyed-evict t.max_buckets _ (
          IsKeyed-append (popped key bs) key _ (IsKeyed-popped key bs h.1)
            (HasNoKey-popped key bs h.1)),
      length-evict t.max_buckets _,
    )

-- Login attempts one after another, each with the time since the one before.
unfoldable pub serve : LoginThrottle → Time → List (String × Time) → Buckets → Buckets
unfolding allow
serve t now [] bs = bs
serve t now (a ∷ rest) bs = serve t (now + a.1) rest (allow t a.0 (now + a.1) bs).1

unfoldable pub clock_after : Time → List (String × Time) → Time
clock_after now [] = now
clock_after now (a ∷ rest) = clock_after (now + a.1) rest

pub serve-IsThrottled_from :
    (t : LoginThrottle) (now : Time) (attempts : List (String × Time)) (bs : Buckets)
    → IsThrottled t now bs
    → IsThrottled t (clock_after now attempts) (serve t now attempts bs)
unfolding serve clock_after
serve-IsThrottled_from t now [] bs h = h
serve-IsThrottled_from t now (a ∷ rest) bs h =
    serve-IsThrottled_from t (now + a.1) rest (allow t a.0 (now + a.1) bs).1
      (allow-IsThrottled t a.0 now a.1 bs h)

-- However login attempts follow each other, the throttle holds at most one bucket per key and at
-- most `max_buckets`, each with at most `limit` attempts in the order of their times.
pub serve-IsThrottled :
    (t : LoginThrottle) (start : Time) (attempts : List (String × Time))
    → IsThrottled t (clock_after start attempts) (serve t start attempts [])
serve-IsThrottled t start attempts =
    serve-IsThrottled_from t start attempts [] (tt, tt, omega arith)
