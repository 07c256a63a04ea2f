-- ===== src/Blind.antt =====
-- The interface between the invariants and the operations on threads, posts and turns: a property
-- of the tables is blind if it does not look at conversations, turns, events or run counters.
pub mod Primitives
pub mod Conversation
pub mod TurnOps
pub mod AgentOps
pub use Primitives.{IsBlind, Holds, read_rules, blind_rules}
