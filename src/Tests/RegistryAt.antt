-- ===== src/Tests/RegistryAt.antt =====
-- The theorems on agents and on paging at concrete inputs.
use swarmboard.Prelude.{
  arith, ℕ, Option, ◌+◌, ◌≡◌, refl, true, none, some, List, [], ◌∷◌, ◌++◌, take, drop,
}
use swarmboard.Exec.{ok, raise, invalid_state}
use swarmboard.Models.{RowId, Event, Agent, post_created}
use swarmboard.Tables.{World, event_of}
use swarmboard.Agents.{AgentArgs, agent_row, create_agent, get_agent_by_handle}
use swarmboard.Agents.Lookup.{create_agent-found, create_agent-taken}
use swarmboard.Queries.{list_events}
use swarmboard.Queries.Pages.{list_events-page}
use swarmboard.Tests.Worlds.{plain, empty_tables, on}

abbrev ada_args : AgentArgs
ada_args = record {
  handle = "ada";
  persona = "curious";
  model = "m";
  role = "critic";
  provider = "local";
  settings = none;
  permissions = none;
  cooldown_seconds = 15;
  enabled = true;
  expertise = some ("maths" ∷ []);
}

abbrev ada : Agent
ada = record {
  id = 100;
  handle = "ada";
  persona = "curious";
  role = "critic";
  provider = "local";
  model = "m";
  settings = [];
  permissions = [];
  cooldown_seconds = 15;
  enabled = true;
  last_spoke_at = none;
}

abbrev with_ada : World
with_ada = on (record empty_tables { agents = (record ada { handle = "Ada" }) ∷ [] })

create_agent-found_example :
    (w' : World) × (create_agent plain ada_args (on empty_tables)
      ≡ ok (agent_row plain ada_args "ada" 100) w')
    × (get_agent_by_handle plain "ada" w' ≡ ok (agent_row plain ada_args "ada" 100) w')
unfolding swarmboard.Agents.normalize_agent_handle swarmboard.Prelude.any_of
create_agent-found_example =
    create_agent-found plain ada_args (on empty_tables) "ada" refl "ada" refl refl

create_agent-taken_example :
    (w' : World) × (create_agent plain ada_args with_ada ≡ raise invalid_state w')
    × (w'.tables ≡ with_ada.tables)
unfolding swarmboard.Agents.normalize_agent_handle swarmboard.Prelude.find
create_agent-taken_example = create_agent-taken plain ada_args with_ada "ada" refl refl

abbrev event_at : ℕ → Option RowId → Event
event_at id run = record (event_of post_created) { id = id; run_id = run }

abbrev logged : World
logged = on (record empty_tables {
  events = event_at 1 (some 7) ∷ event_at 2 none ∷ event_at 4 (some 7) ∷ event_at 5 (some 7) ∷ [];
})

-- After the first event of the run, the next page has the two others.
list_events-page_example :
    list_events 1 (some 7) none 5 logged
    ≡ ok (take 5 (event_at 4 (some 7) ∷ event_at 5 (some 7) ∷ [])) logged
unfolding swarmboard.Prelude.keep_if
list_events-page_example =
    list_events-page (some 7) none 5 logged (event_at 1 (some 7) ∷ [])
      (event_at 4 (some 7) ∷ event_at 5 (some 7) ∷ [])
      (omega arith, (omega arith, (omega arith, (omega arith, tt)))) refl
