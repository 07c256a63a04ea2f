-- ===== src/Agents/Lookup.antt =====
-- repository.py, `create_agent` and `get_agent_by_handle` on free and on taken handles.
use swarmboard.Prelude.{
  ◌+◌, ◌≡◌, refl, ◌∙◌, String, true, false, none, some, List, [], ◌∷◌, ◌++◌, find, any_of,
  find-append, arith, str_eq, eq_iff, is_some,
}
use swarmboard.Python.{Python}
use swarmboard.Exec.{ok, raise, ◌>>=◌, state_of, invalid_state, integrity_error}
use swarmboard.Models.{Agent}
use swarmboard.Tables.{World, same_agent, insert_agent, savepoint, add_event, new_uuid}
use swarmboard.Agents.{
  normalize_agent_handle, agent_by_handle, AgentArgs, agent_row, created_event, register, or_taken,
  taken_or, create_agent, get_agent_by_handle,
}

module _ (py : Python) where
  unclaimed :
      (a : Agent) (agents : List Agent)
      → any_of (same_agent py a) agents ≡ false
      → agent_by_handle py a.handle agents ≡ none
  unfolding any_of find
  unclaimed a [] h = refl
  unclaimed a (b ∷ agents) h = ground (arith, unclaimed a agents)

  found_last :
      (a : Agent) (agents : List Agent)
      → any_of (same_agent py a) agents ≡ false
      → agent_by_handle py a.handle (agents ++ a ∷ []) ≡ some a
  unfolding find
  found_last a agents h =
      find-append (λ x. str_eq (py.nocase x.handle) (py.nocase a.handle)) agents (a ∷ [])
        (unclaimed a agents h)
      ∙ ground (arith, eq_iff (py.nocase a.handle) (py.nocase a.handle))

  taken-clash :
      (a : Agent) (agents : List Agent)
      → is_some (agent_by_handle py a.handle agents) ≡ true
      → any_of (same_agent py a) agents ≡ true
  unfolding any_of find
  taken-clash a [] h = absurd (ground arith)
  taken-clash a (b ∷ agents) h = ground (arith, taken-clash a agents)

module _ (py : Python) (a : Agent) (w : World) where
  abbrev listed : World
  listed = record w { tables = record w.tables { agents = w.agents ++ a ∷ [] } }

  register-ok :
      any_of (same_agent py a) w.agents ≡ false
      → register py a w ≡ ok a (state_of (add_event (created_event a) listed))
  unfolding register insert_agent add_event
  register-ok e = rw (◌>>=◌, insert_agent, e) refl

  register-clash :
      any_of (same_agent py a) w.agents ≡ true → register py a w ≡ raise integrity_error w
  unfolding register insert_agent
  register-clash e = rw (◌>>=◌, insert_agent, e) refl

  -- In its savepoint, with the handler.
  or_taken-ok :
      any_of (same_agent py a) w.agents ≡ false
      → or_taken py a.handle (savepoint (register py a)) w
        ≡ ok a (state_of (add_event (created_event a) listed))
  unfolding or_taken savepoint
  or_taken-ok e = rw (or_taken, savepoint, register-ok e) refl

  or_taken-clash :
      is_some (agent_by_handle py a.handle w.agents) ≡ true
      → or_taken py a.handle (savepoint (register py a)) w ≡ raise invalid_state w
  unfolding or_taken savepoint taken_or
  or_taken-clash e =
      rw (or_taken, savepoint, register-clash (taken-clash py a w.agents e), taken_or, e) refl

module _ (py : Python) (a : AgentArgs) (w : World) (handle : String)
    (canonical : normalize_agent_handle py a.handle ≡ some handle) where
  row : Agent
  row = agent_row py a handle (w.uuid w.drawn)

  after_draw : World
  after_draw = record w { drawn = w.drawn + 1 }

  -- Where no agent has the drawn id or, in the collation NOCASE, the normalized handle, creating an
  -- agent returns its row, and the agent is then found under any spelling of its handle.
  pub create_agent-found :
      (spelling : String)
      → normalize_agent_handle py spelling ≡ some handle
      → any_of (same_agent py (agent_row py a handle (w.uuid w.drawn))) w.agents ≡ false
      → (w' : World) × (create_agent py a w ≡ ok (agent_row py a handle (w.uuid w.drawn)) w')
        × (get_agent_by_handle py spelling w' ≡ ok (agent_row py a handle (w.uuid w.drawn)) w')
  unfolding create_agent get_agent_by_handle new_uuid agent_row add_event row after_draw
  create_agent-found spelling m free = (
    state_of (add_event (created_event row) (listed py row after_draw)),
    rw (canonical, ◌>>=◌) (or_taken-ok py row after_draw free),
    rw (m, ◌>>=◌) (rw (found_last py row w.agents free) refl),
  )

  -- Where an agent has the normalized handle in the collation NOCASE, creating another raises
  -- `InvalidStateError` and leaves the tables as they were.
  pub create_agent-taken :
      is_some (agent_by_handle py handle w.agents) ≡ true
      → (w' : World) × (create_agent py a w ≡ raise invalid_state w') × (w'.tables ≡ w.tables)
  unfolding create_agent new_uuid agent_row row after_draw
  create_agent-taken taken =
      (after_draw, rw (canonical, ◌>>=◌) (or_taken-clash py row after_draw taken), refl)
