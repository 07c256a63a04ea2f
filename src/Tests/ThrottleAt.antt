-- ===== src/Tests/ThrottleAt.antt =====
-- The theorems on the login throttle at concrete inputs.
use swarmboard.Prelude.{◌≡◌, true, false, [], ◌∷◌, refl, ltb, count_if}
use swarmboard.LoginThrottle.{LoginThrottle, attempts_of, allow}
use swarmboard.LoginThrottle.Bounded.{IsThrottled, clock_after, serve, serve-IsThrottled}
use swarmboard.LoginThrottle.Windows.{is_recent, allow-recent}

abbrev two_a_minute : LoginThrottle
two_a_minute = record { sha256 = λ s. s; limit = 2; window = 60; max_buckets = 2 }

third_attempt :
    (allow two_a_minute "a" 30 (serve two_a_minute 0 (("a", 1) ∷ ("a", 5) ∷ []) [])).0 ≡ false
unfolding allow serve
third_attempt = refl

attempt_after_window :
    (allow two_a_minute "a" 61 (serve two_a_minute 0 (("a", 1) ∷ ("a", 5) ∷ []) [])).0 ≡ true
unfolding allow serve
attempt_after_window = refl

attempt_after_eviction :
    (allow two_a_minute "a" 30
      (serve two_a_minute 0 (("a", 1) ∷ ("a", 5) ∷ ("b", 1) ∷ ("c", 1) ∷ []) [])).0
    ≡ true
unfolding allow serve
attempt_after_eviction = refl

serve-IsThrottled_example :
    IsThrottled two_a_minute
      (clock_after 0 (("a", 1) ∷ ("b", 5) ∷ ("c", 1) ∷ []))
      (serve two_a_minute 0 (("a", 1) ∷ ("b", 5) ∷ ("c", 1) ∷ []) [])
serve-IsThrottled_example = serve-IsThrottled two_a_minute 0 (("a", 1) ∷ ("b", 5) ∷ ("c", 1) ∷ [])

allow-recent_example :
    (allow two_a_minute "a" 30 (serve two_a_minute 0 (("a", 1) ∷ ("a", 5) ∷ []) [])).0
    ≡ ltb
        (count_if
          (is_recent two_a_minute 30)
          (attempts_of "a" (serve two_a_minute 0 (("a", 1) ∷ ("a", 5) ∷ []) [])))
        2
allow-recent_example = allow-recent two_a_minute 0 (("a", 1) ∷ ("a", 5) ∷ []) "a" 30
