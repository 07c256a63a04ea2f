-- ===== src/Adapters.antt =====
-- run_policy.py: the policy of a run, applied to the scheduler, the action policy and an agent.
pub mod Effects
use swarmboard.Prelude.{Bool, true, false, not, Option, none, some, if◌then◌else◌, zero}
use swarmboard.Optional.{◌>>=◌}
use swarmboard.RunPolicy.{Policy, RunConfig, Seconds, whole, normalize_config, to_json, is_research}
use swarmboard.Models.{Run}
use swarmboard.Policies.{AgentView, PolicyConfig}
use swarmboard.Scheduler.{SchedulerConfig}

-- `none` is the `ValueError` of `normalize_config`.
unfoldable pub policy_for : Run → Option Policy
unfolding ◌>>=◌ normalize_config to_json
policy_for run = do config ← normalize_config (to_json run.config); some config.policy

unfoldable pub fenced_scheduler : Policy → SchedulerConfig → SchedulerConfig
fenced_scheduler policy base = record base {
  ping_pong_limit = if policy.loop_prevention then base.ping_pong_limit else 0;
  allow_consecutive_posts = true;
  consecutive_turn_cap = policy.consecutive_turn_cap;
  cooldowns = policy.cooldowns;
  dormancy = policy.dormancy;
}

unfoldable pub effective_scheduler_config : Run → SchedulerConfig → Option SchedulerConfig
unfolding ◌>>=◌ policy_for is_research fenced_scheduler
effective_scheduler_config run base =
    if is_research run.config
    then (policy_for run >>= (λ policy. some (fenced_scheduler policy base)))
    else some base

unfoldable pub fenced_actions : Policy → PolicyConfig → PolicyConfig
fenced_actions policy base = record base {
  max_agent_ping_pong_posts = if policy.loop_prevention then base.max_agent_ping_pong_posts else 0;
  allow_self_replies = not policy.loop_prevention;
  allow_consecutive_posts = true;
  consecutive_turn_cap = policy.consecutive_turn_cap;
  allow_repeated_posts = not policy.dedup;
  enforce_cooldown = policy.cooldowns;
}

unfoldable pub effective_action_config : Run → PolicyConfig → Option PolicyConfig
unfolding ◌>>=◌ policy_for is_research fenced_actions
effective_action_config run base =
    if is_research run.config
    then (policy_for run >>= (λ policy. some (fenced_actions policy base)))
    else some base

-- The cooldown of a research run: off, the run's own, or the agent's.
unfoldable pub cooled : Policy → AgentView → AgentView
cooled policy agent =
    if policy.cooldowns
    then elim policy.cooldown_seconds [
      | none ↦ agent
      | some seconds ↦ record agent { cooldown_seconds = seconds }
    ]
    else record agent { cooldown_seconds = whole 0; last_spoke_at = none }

-- The view is a copy: the registered agent is left alone.
unfoldable pub adapt_agent : Run → AgentView → Option AgentView
unfolding ◌>>=◌ policy_for is_research cooled
adapt_agent run agent =
    if is_research run.config
    then (policy_for run >>= (λ policy. some (cooled policy agent)))
    else some agent
