-- ===== src/RunPolicy.antt =====
-- swarmboard/run_policy.py: the per-run research controls and their normal form.
mod Types
mod Normalize
pub mod Normal
pub use Types.{
  Profile, production_profile, permissive_profile, custom_profile, SchemaMode, strict, capture,
  SessionType, collaboration, research, Seconds, whole, real, Policy, RunConfig,
}
unfoldable pub use Types.{production, permissive, preset}
unfoldable pub use Normalize.{
  normalize_config, to_json, is_research, policy_json, session_type_json,
}
