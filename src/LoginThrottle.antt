-- ===== src/LoginThrottle.antt =====
-- auth.py, `LoginThrottle`: windows of login attempts per address, in memory.
-- SHA-256 is a parameter, and the monotonic clock's reading is an argument.
pub mod Bounded
pub mod Windows
use swarmboard.Prelude.{
  ℕ, ◌+◌, String, Bool, List, [], ◌∷◌, ◌++◌, length, ltb, leb, str_eq, if◌then◌else◌,
}
use swarmboard.Models.{Time}

pub record LoginThrottle : Type 0 where
  pub sha256 : String → String
  pub limit : ℕ
  pub window : ℕ
  pub max_buckets : ℕ

-- The defaults of the constructor.
unfoldable pub default_throttle : (String → String) → LoginThrottle
default_throttle sha256 = record { sha256 = sha256; limit = 20; window = 60; max_buckets = 4096 }

-- The ordered dictionary, its oldest entry first.
abbrev pub Buckets : Type 0
Buckets = List (String × List Time)

-- The two results of `self.buckets.pop(key, deque())`.
unfoldable pub attempts_of : String → Buckets → List Time
attempts_of key [] = []
attempts_of key (b ∷ bs) = if str_eq b.0 key then b.1 else attempts_of key bs

unfoldable pub popped : String → Buckets → Buckets
popped key [] = []
popped key (b ∷ bs) = let rest = popped key bs in if str_eq b.0 key then bs else b ∷ rest

-- `attempts[0] <= now - self.window` without the difference, which may be negative.
unfoldable pub drop_expired : LoginThrottle → Time → List Time → List Time
drop_expired t now [] = []
drop_expired t now (a ∷ ts) =
    let rest = drop_expired t now ts in if leb (a + t.window) now then rest else a ∷ ts

-- The loop that pops the oldest bucket while there are too many.
unfoldable pub evict : ℕ → Buckets → Buckets
evict most [] = []
evict most (b ∷ bs) =
    let rest = evict most bs in if ltb most (length (b ∷ bs)) then rest else b ∷ bs

unfoldable pub allow : LoginThrottle → String → Time → Buckets → Bool × Buckets
unfolding attempts_of popped drop_expired evict
allow t address now buckets =
    let key = t.sha256 address in
    let attempts = drop_expired t now (attempts_of key buckets) in
    let allowed = ltb (length attempts) t.limit in
    let kept = if allowed then attempts ++ (now ∷ []) else attempts in
    (allowed, evict t.max_buckets (popped key buckets ++ ((key, kept) ∷ [])))
