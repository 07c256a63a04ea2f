-- ===== src/Safety/Histories.antt =====
-- repository.py: the ledger invariant over histories of calls.
use swarmboard.Prelude.{List, [], ◌∷◌}
use swarmboard.Python.{Python}
use swarmboard.Exec.{state_of}
use swarmboard.Tables.{World, Tables, transaction}
use swarmboard.Blind.{Holds, read_rules}
use swarmboard.Blind.Primitives.{Holds-increment, Holds-savepoint}
use swarmboard.Blind.Conversation.{
  Holds-create_thread, Holds-create_human_thread, Holds-create_agent_thread,
  Holds-set_thread_status, Holds-wake_thread, Holds-create_post, Holds-create_human_post,
  Holds-create_agent_post,
}
use swarmboard.Blind.TurnOps.{
  Holds-create_turn, Holds-mark_turn_calling, Holds-append_turn_retry, Holds-finish_turn,
}
use swarmboard.Blind.AgentOps.{Holds-create_agent, Holds-upsert_agent, Holds-create_memory}
use swarmboard.Safety.Ledger.{IsLedger, IsLedger-IsBlind}
use swarmboard.Safety.RunControl.{
  Ledger-create_run, Ledger-control_run, Ledger-set_run_state, Ledger-heartbeat_run,
}
use swarmboard.Safety.Stimuli.{
  Ledger-add_stimulus, Ledger-claim, Ledger-mark, Ledger-complete, Ledger-release,
}
use swarmboard.Safety.Recovering.{IsLedger-of, Ledger-cleanup, Ledger-recover_inflight}
use swarmboard.History.{
  Call, perform, history, call_create_agent, call_upsert_agent, call_create_memory, call_create_run,
  call_control_run, call_set_run_state, call_cleanup_terminal_run_work, call_increment_run_counters,
  call_heartbeat_run, call_create_thread, call_create_human_thread, call_create_agent_thread,
  call_set_thread_status, call_wake_thread, call_create_post, call_create_human_post,
  call_create_agent_post, call_add_stimulus, call_claim_stimuli, call_mark_stimulus_processing,
  call_complete_stimulus, call_release_stimulus, call_create_turn, call_mark_turn_calling,
  call_append_turn_retry, call_finish_turn, call_recover_inflight_work,
}

Ledger-perform : (py : Python) (c : Call) → Holds IsLedger (perform py c)
unfolding perform
Ledger-perform py (call_create_agent a) =
    search (read_rules, Holds-create_agent IsLedger-IsBlind py a)
Ledger-perform py (call_upsert_agent handle values expertise) =
    search (read_rules, Holds-upsert_agent IsLedger-IsBlind py handle values expertise)
Ledger-perform py (call_create_memory fl a) =
    search (read_rules, Holds-create_memory IsLedger-IsBlind py fl a)
Ledger-perform py (call_create_run seed continuous config limits state) =
    search (read_rules, Ledger-create_run seed continuous config limits state)
Ledger-perform py (call_control_run id action reason) =
    search (read_rules, Ledger-control_run id action reason)
Ledger-perform py (call_set_run_state id state reason actor) =
    search (read_rules, Ledger-set_run_state id state reason actor)
Ledger-perform py (call_cleanup_terminal_run_work scope) =
    search (read_rules, IsLedger-of _ (λ runs. Ledger-cleanup scope))
Ledger-perform py (call_increment_run_counters id rounds posts tokens calls) =
    search (read_rules, Holds-increment IsLedger-IsBlind id rounds posts tokens calls)
Ledger-perform py (call_heartbeat_run id at) = search (read_rules, Ledger-heartbeat_run id at)
Ledger-perform py (call_create_thread title run summary actor actor_id) =
    search (read_rules, Holds-create_thread IsLedger-IsBlind py title run summary actor actor_id)
Ledger-perform py (call_create_human_thread a handle) =
    search (read_rules, Holds-create_human_thread IsLedger-IsBlind py a handle)
Ledger-perform py (call_create_agent_thread a agent_id) =
    search (read_rules, Holds-create_agent_thread IsLedger-IsBlind py a agent_id)
Ledger-perform py (call_set_thread_status id status reason actor actor_id) =
    search (read_rules, Holds-set_thread_status IsLedger-IsBlind id status reason actor actor_id)
Ledger-perform py (call_wake_thread id reason actor actor_id) =
    search (read_rules, Holds-wake_thread IsLedger-IsBlind id reason actor actor_id)
Ledger-perform py (call_create_post a) =
    search (read_rules, Holds-create_post IsLedger-IsBlind py a)
Ledger-perform py (call_create_human_post a) =
    search (read_rules, Holds-create_human_post IsLedger-IsBlind py a)
Ledger-perform py (call_create_agent_post agent_id a) =
    search (read_rules, Holds-create_agent_post IsLedger-IsBlind py agent_id a)
Ledger-perform py (call_add_stimulus a) =
    search (read_rules, IsLedger-of _ (λ runs. Ledger-add_stimulus a))
Ledger-perform py (call_claim_stimuli run limit at) =
    search (read_rules, IsLedger-of _ (λ runs. Ledger-claim run limit at))
Ledger-perform py (call_mark_stimulus_processing id token) =
    search (read_rules, IsLedger-of _ (λ runs. Ledger-mark id token))
Ledger-perform py (call_complete_stimulus id token) =
    search (read_rules, IsLedger-of _ (λ runs. Ledger-complete id token))
Ledger-perform py (call_release_stimulus id token error delay) =
    search (read_rules, IsLedger-of _ (λ runs. Ledger-release py id token error delay))
Ledger-perform py (call_create_turn a) =
    search (read_rules, Holds-create_turn IsLedger-IsBlind py a)
Ledger-perform py (call_mark_turn_calling id) =
    search (read_rules, Holds-mark_turn_calling IsLedger-IsBlind id)
Ledger-perform py (call_append_turn_retry id retry) =
    search (read_rules, Holds-append_turn_retry IsLedger-IsBlind id retry)
Ledger-perform py (call_finish_turn id f) =
    search (read_rules, Holds-finish_turn IsLedger-IsBlind py id f)
Ledger-perform py (call_recover_inflight_work before run) =
    search (read_rules, IsLedger-of _ (λ runs. Ledger-recover_inflight before run))

-- Every history of calls keeps the ledger invariant, whichever of its calls raise: from tables in
-- which each delivery holds a token just while it is leased, has used no more attempts than it is
-- allowed, has one left while it waits, and is live only while its run is open, they reach only
-- such tables.
pub history-IsLedger :
    (py : Python) (calls : List Call) (w : World)
    → IsLedger w.tables
    → IsLedger (history py calls w).tables
unfolding history transaction swarmboard.Tables.savepoint
history-IsLedger py [] w h = h
history-IsLedger py (c ∷ cs) w h =
    history-IsLedger py cs (state_of (transaction (perform py c) w))
      ((Holds-savepoint (perform py c) (Ledger-perform py c)).at w h)
