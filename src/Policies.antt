-- ===== src/Policies.antt =====
-- swarmboard/policies.py: whether an action that an agent proposes may be carried out.
mod Config
mod Streaks
mod Validate
pub mod PingPong
pub mod Cap
pub mod Accepted
pub use Config.{PolicyConfig, PolicyDecision, TextTools, default_config, member}
unfoldable pub use Config.{
  distinct, join, shared, normalize_text, action_fingerprint, tokens, jaccard, text_similarity,
}
pub use Streaks.{last, is_agent, is_text}
unfoldable pub use Streaks.{
  reversed, alternates, identity, identities, violates_ping_pong, reaches_cap,
  violates_consecutive_cap,
}
pub use Validate.{
  AgentView, Refusal, thread_closed, title_too_long, is_by, thread_text, looked_back, seconds_of,
  elapsed, is_positive,
}
unfoldable pub use Validate.{
  denies, first_refusal, is_cooling, newest, parent_of, repeated, check_agent, check_text,
  check_parent, check_turns, check_repeats, check_rules, validate,
}
