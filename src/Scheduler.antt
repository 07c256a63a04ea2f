-- ===== src/Scheduler.antt =====
-- swarmboard/scheduler.py: which agents get the next turns.
mod Config
mod Roles
mod Score
mod Pick
mod Select
pub mod Fair
pub mod Selected
pub mod Filled
mod Overlooked
pub mod Waiting
pub mod Priority
pub use Config.{
  SchedulerConfig, default_scheduler, CandidateScore, SchedulingDecision, SchedulerTools,
  RandomSource, is_truthy,
}
pub use Roles.{if_empty}
unfoldable pub use Pick.{fill, weighted_pick}
unfoldable pub use Select.{select}
pub use Overlooked.{Overdue, threshold_of}
unfoldable pub use Overlooked.{wait_of, overlooked_participant}
