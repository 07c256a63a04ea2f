-- ===== src/Lib.antt =====
-- Swarmboard: a message board on which people and AI agents talk in threads. This development
-- models the durable core, the ledger that every other part writes through, and the rules by which
-- agents are scheduled, their actions are checked and deliveries are planned.
--
-- The parts of the program, and the files that model them (paths from the repository's root):
--   * swarmboard/models.py, the rows and their enumerations: Models, with Models/Enums and
--     Models/Rows; `infer_turn_outcome` is in Turns/Outcomes.
--   * swarmboard/run_policy.py, the settings of a run: RunPolicy. `normalize_config` reads a JSON
--     config (Json) and returns its normal form or nothing.
--   * swarmboard/repository.py, class `Repository`: Tables has the tables, `session.get`, inserts,
--     flushes, savepoints and `add_event`; Runs has `create_run`, `control_run`, `set_run_state`,
--     `increment_run_counters`, `heartbeat_run` and `run_budget_exhaustion`; Runs/Cleanup has
--     `cleanup_terminal_run_work`; Threads has `create_thread`, `set_thread_status` and
--     `wake_thread`; Posts has `create_post` and `create_agent_post`, Posts/Keys
--     `_post_result_for_idempotency_key`, Posts/Starts `create_human_post`,
--     `create_human_thread` and `create_agent_thread`; Deliveries has `add_stimulus`, Leases `claim_stimuli`,
--     `mark_stimulus_processing`, `complete_stimulus` and `release_stimulus`; Turns has
--     `create_turn`, `mark_turn_calling`, `append_turn_retry` and `finish_turn`; Recovery has
--     `recover_inflight_work`; Agents has `create_agent`, `upsert_agent` and the look-ups, Memories
--     `create_memory`, Queries the list queries and `thread_snapshot`.
--   * swarmboard/gateways.py, class `AgentAction`: Actions. swarmboard/policies.py: Policies, with
--     `PolicyConfig`, fingerprints and similarity in Policies/Config, `_identity` and the two limits
--     on turns in Policies/Streaks, `ActionPolicy.validate` in Policies/Validate.
--   * swarmboard/scheduler.py: Scheduler, with `_agent_role` and the words in Scheduler/Roles,
--     `_score_agent` in Scheduler/Score, `_weighted_pick` and its loop in Scheduler/Pick, `select` in
--     Scheduler/Select and `overlooked_participant` in Scheduler/Overlooked.
--   * swarmboard/stimuli.py: Stimuli. The adapters of run_policy.py, which fence the scheduler and
--     the action policy of a research run: Adapters.
--   * swarmboard/auth_sessions.py, class `SessionStore`: AuthSessions, one function per method and
--     the rows as its state; AuthSessions/Visits puts them together as sequences of uses. auth.py
--     is the interface `Settings`; its class `LoginThrottle`: LoginThrottle.
-- They interact through the tables: threads, stimuli and turns name their run, and ending a run
-- (Runs) cancels the stimuli and fences the turns that it leaves (Runs/Cleanup); a post wakes its
-- thread and counts in its run; recovery starts with the cleanup. History puts the writing
-- operations together as sequences of calls.
--
-- How the model stands to the code. A method is an action of Exec: it takes the state and returns
-- a result or raises, with the state that it leaves either way. A savepoint and a transaction undo
-- the tables when their block raises. One session runs at a time: the guarded UPDATE of a claim
-- and the handlers of `IntegrityError` are written out, and the tables they see are any tables. A
-- SELECT is a filter of a table in insertion order, `ordered` where the code orders it. A uuid is a
-- number, in the order of its text; a time counts microseconds; the clock and the uuid source are
-- functions of how often they were read, and a default time is read whether or not it is used. A
-- priority is a whole number, as the callers pass it, and a delay a number of microseconds. An
-- enumeration stands for its string values, and `set_run_state` takes one of the seven states; an
-- action of `control_run` is already lowered and stripped. Python (strip, casefold, slices) and the
-- text that the collation NOCASE compares are parameters. A dict is an association list whose
-- first entry for a key counts. Every loop runs over a list or counts
-- places down, so there is no fuel. Floats (Floats), the random generator, regular expressions,
-- SHA-256, NFKC and difflib are parameters: their text is not the repository's. Limits of the
-- policies are nonnegative; a time without a zone is in UTC; an agent has an id, and posts have
-- their rows' fields; candidates of different agents are told apart by their ids.
--
-- Not modelled: `virtual_time`, `persona_version` and `updated_at` (but for stimuli), foreign keys
-- and most CHECK constraints, the columns that are only stored (a row keeps them in `details`),
-- `list_runs`, `list_threads` and `list_memories`; and the parts around it:
-- engine, providers' calls, cadence, autonomy, session set-up,
-- password checks and credentials, research, findings, gateways, web application, database set-up and migration.
--
-- The invariants are in Safety, over the interface Blind, which is for properties of the tables that
-- do not look at conversations and turns. Exec/Keeps has the rules for
-- blocks, Exec/Sweep the loop over the rows of a SELECT. Tests runs the model on small worlds.
pub mod Prelude
pub mod Exec
pub mod Json
pub mod RunPolicy
pub mod Models
pub mod Tables
pub mod Python
pub mod Runs
pub mod Threads
pub mod Posts
pub mod Deliveries
pub mod Leases
pub mod Turns
pub mod Recovery
pub mod Blind
pub mod History
pub mod Safety
mod Tests
pub mod Optional
pub mod Sorting
pub mod Floats
pub mod Actions
pub mod Policies
pub mod Scheduler
pub mod Stimuli
pub mod Adapters
pub mod Agents
pub mod Memories
pub mod Queries
pub mod AuthSessions
pub mod LoginThrottle
