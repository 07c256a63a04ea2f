-- ===== src/Models.antt =====
-- swarmboard/models.py: the enumerations and the rows of the tables that repository.py works on.
-- A number stands for a uuid, in the order of its text. A time is a count of
-- microseconds, the resolution of `datetime`.
mod Enums
mod Rows
pub use Enums.*
pub use Rows.*
