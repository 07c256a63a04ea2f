-- ===== src/Safety.antt =====
-- repository.py: the invariant of the delivery ledger, and the operations.
pub mod Ledger
mod Changes
pub mod Stimuli
pub mod Cleaning
pub mod Recovering
pub mod RunControl
pub mod Histories
