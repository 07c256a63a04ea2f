-- ===== src/Runs/Budget.antt =====
-- repository.py, `run_budget_exhaustion`: when a run's budgets are open.
use swarmboard.Prelude.{ℕ, ◌+◌, ◌*◌, refl, Option, some, ◌<◌, ◌≡◌, ◌↔◌, false, none, arith}
use swarmboard.Models.{Time, Run}
use swarmboard.Runs.{run_budget_exhaustion, overdue}

-- Less than `seconds` have passed since the start, if there was one; times are in microseconds.
abbrev pub HasTime : Option Time → ℕ → Time → Type 0
HasTime none seconds now = Unit
HasTime (some started) seconds now = now < started + seconds * 1000000

overdue-HasTime :
    (start : Option Time) (seconds now : ℕ)
    → (overdue start seconds now ≡ false) ↔ HasTime start seconds now
overdue-HasTime none seconds now = ((λ h. tt), (λ h. refl))
overdue-HasTime (some started) seconds now = ((λ h. ground arith), (λ h. ground arith))

-- `run_budget_exhaustion` finds nothing exactly when each of the four budgets has something left:
-- rounds, posts, tokens and, once the run has started, time, of which less than
-- `max_duration_seconds` has passed.
pub run_budget_exhaustion-none :
    (run : Run) (now : Time)
    → (run_budget_exhaustion run now ≡ none) ↔ (
        (run.rounds_used < run.limits.max_rounds)
        × (run.posts_used < run.limits.max_posts)
        × (run.tokens_used < run.limits.max_tokens)
        × HasTime run.started_at run.limits.max_duration_seconds now)
unfolding run_budget_exhaustion
run_budget_exhaustion-none run now =
    let time = overdue-HasTime run.started_at run.limits.max_duration_seconds now in
    (
      (λ h. (ground arith, ground arith, ground arith, time.0 (ground arith))),
      (λ h. ground (arith, h.0, h.1, h.2, time.1 h.3)),
    )
