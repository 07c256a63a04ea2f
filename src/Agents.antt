-- ===== src/Agents.antt =====
-- repository.py, the agents: registration under a normalized handle, changes, and look-ups.
pub mod Lookup
use Prim.Native.String.{count, compare}
use package.text.Mathlib.Text.{is_lt}
use swarmboard.Prelude.{
  ℕ, String, Bool, true, false, ◌&&◌, not, Option, none, some, List, [], ◌∷◌, ◌++◌, map, find,
  keep_if, any_of, is_some, or_else, str_eq, ltb, ◌==◌, if◌then◌else◌,
}
use swarmboard.Json.{without, Json, text, array, Dict, get}
use swarmboard.Python.{Python}
use swarmboard.Exec.{
  Error, Outcome, ok, raise, ◌>>=◌, ◌>>◌, pure, throw, or_raise, gets, not_found, invalid_state,
  value_error, type_error, integrity_error,
}
use swarmboard.Models.{RowId, Agent, Event, agent_created, agent_updated}
use swarmboard.Sorting.{sort_by}
use swarmboard.Tables.{
  World, Session, new_uuid, savepoint, insert_agent, put_agent, add_event, event_of, to_items,
}

-- `normalize_agent_handle`; `none` is `ValueError`.
unfoldable pub normalize_agent_handle : Python → String → Option String
normalize_agent_handle py value =
    let normalized = py.casefold (py.lstrip_at (py.strip value)) in
    if str_eq normalized ""
    then none
    else if ltb 80 (count normalized)
    then none
    else some normalized

-- `Agent.handle == handle`, in the collation of the column.
abbrev pub agent_by_handle : Python → String → List Agent → Option Agent
agent_by_handle py handle = find (λ a. str_eq (py.nocase a.handle) (py.nocase handle))

-- The arguments of `create_agent`.
pub record AgentArgs : Type 0 where
  pub handle : String
  pub persona : String
  pub model : String
  pub role : String
  pub provider : String
  pub settings : Option Dict
  pub permissions : Option Dict
  pub cooldown_seconds : ℕ
  pub enabled : Bool
  pub expertise : Option (List String)

abbrev pub default_settings : String → Dict
default_settings provider =
    if str_eq provider "openai_compatible"
    then ("base_url", text "https://openrouter.ai/api/v1")
      ∷ ("api_key_env", text "OPENROUTER_API_KEY")
      ∷ []
    else []

abbrev pub texts_json : List String → Json
texts_json xs = array (to_items (map (λ s. text s) xs))

-- `settings.setdefault("expertise", ...)`
unfoldable pub with_expertise : Option (List String) → Dict → Dict
unfolding get
with_expertise none settings = settings
with_expertise (some xs) settings =
    if is_some (get "expertise" settings)
    then settings
    else settings ++ (("expertise", texts_json xs) ∷ [])

unfoldable pub agent_row : Python → AgentArgs → String → RowId → Agent
unfolding with_expertise
agent_row py a handle id = record {
  id = id;
  handle = handle;
  persona = py.strip a.persona;
  role = a.role;
  provider = a.provider;
  model = a.model;
  settings = with_expertise a.expertise (or_else a.settings (default_settings a.provider));
  permissions = or_else a.permissions [];
  cooldown_seconds = a.cooldown_seconds;
  enabled = a.enabled;
  last_spoke_at = none;
}

abbrev pub created_event : Agent → Event
created_event agent = record (event_of agent_created) {
  agent_id = some agent.id;
  payload =
      ("handle", text agent.handle)
      ∷ ("role", text agent.role)
      ∷ ("provider", text agent.provider)
      ∷ [];
}

-- The savepoint's block: the row, and its event.
unfoldable pub register : Python → Agent → Session Agent
unfolding ◌>>=◌ insert_agent add_event
register py agent = do insert_agent py agent; _ ← add_event (created_event agent); pure agent

-- `except IntegrityError`: a taken handle is an `InvalidStateError`.
unfoldable pub taken_or : Python → String → Error → Session Agent
unfolding find
taken_or py handle integrity_error w =
    if is_some (agent_by_handle py handle w.agents)
    then raise invalid_state w
    else raise integrity_error w
taken_or py handle e w = raise e w

unfoldable pub or_taken : Python → String → Session Agent → Session Agent
unfolding taken_or
or_taken py handle m w = elim (m w) [ ok a w' ↦ ok a w' | raise e w' ↦ taken_or py handle e w' ]

unfoldable pub create_agent : Python → AgentArgs → Session Agent
unfolding ◌>>=◌ normalize_agent_handle agent_row register or_taken savepoint new_uuid
create_agent py a = do
  handle ← or_raise (normalize_agent_handle py a.handle) value_error
  id ← new_uuid
  or_taken py handle (savepoint (register py (agent_row py a handle id)))

-- One of the keyword arguments `values`; `set_unknown` is a name that no field has.
pub data AgentChange : Type 0 where
  set_persona set_model set_role set_provider : String → AgentChange
  set_settings set_permissions : Dict → AgentChange
  set_cooldown_seconds : ℕ → AgentChange
  set_enabled : Bool → AgentChange
  set_unknown : AgentChange

abbrev pub changed : AgentChange → Agent → Agent
changed (set_persona s) a = record a { persona = s }
changed (set_model s) a = record a { model = s }
changed (set_role s) a = record a { role = s }
changed (set_provider s) a = record a { provider = s }
changed (set_settings d) a = record a { settings = d }
changed (set_permissions d) a = record a { permissions = d }
changed (set_cooldown_seconds n) a = record a { cooldown_seconds = n }
changed (set_enabled b) a = record a { enabled = b }
changed set_unknown a = a

-- The loop over `values`: what was set before an unknown name stays set in the session.
unfoldable pub apply_changes : List AgentChange → Agent → Session Agent
unfolding ◌>>=◌ put_agent
apply_changes [] a = pure a
apply_changes (set_unknown ∷ cs) a = do put_agent a; throw value_error
apply_changes (c ∷ cs) a = apply_changes cs (changed c a)

-- The arguments that a call of `create_agent` gets from `values`: persona and model are required.
unfoldable pub gather_args :
    List AgentChange → AgentArgs → Option String → Option String → Option AgentArgs
gather_args [] a (some persona) (some model) = some (record a { persona = persona; model = model })
gather_args [] a _ _ = none
gather_args (set_persona s ∷ cs) a p m = gather_args cs a (some s) m
gather_args (set_model s ∷ cs) a p m = gather_args cs a p (some s)
gather_args (set_role s ∷ cs) a p m = gather_args cs (record a { role = s }) p m
gather_args (set_provider s ∷ cs) a p m = gather_args cs (record a { provider = s }) p m
gather_args (set_settings d ∷ cs) a p m = gather_args cs (record a { settings = some d }) p m
gather_args (set_permissions d ∷ cs) a p m = gather_args cs (record a { permissions = some d }) p m
gather_args (set_cooldown_seconds n ∷ cs) a p m =
    gather_args cs (record a { cooldown_seconds = n }) p m
gather_args (set_enabled b ∷ cs) a p m = gather_args cs (record a { enabled = b }) p m
gather_args (set_unknown ∷ cs) a p m = none

abbrev pub default_args : String → Option (List String) → AgentArgs
default_args handle expertise = record {
  handle = handle;
  persona = "";
  model = "";
  role = "specialist";
  provider = "openai_compatible";
  settings = none;
  permissions = none;
  cooldown_seconds = 15;
  enabled = true;
  expertise = expertise;
}

-- `{**agent.settings, "expertise": ...}`
unfoldable pub put_expertise : Option (List String) → Agent → Agent
put_expertise none a = a
put_expertise (some xs) a = record a {
  settings = ("expertise", texts_json xs) ∷ without "expertise" a.settings;
}

unfoldable pub update_agent : List AgentChange → Option (List String) → Agent → Session Agent
unfolding ◌>>=◌ apply_changes put_expertise put_agent add_event
update_agent values expertise agent = do
  saved ← apply_changes values agent
  put_agent (put_expertise expertise saved)
  _ ← add_event (record (event_of agent_updated) {
    agent_id = some agent.id;
    payload = ("handle", text agent.handle) ∷ [];
  })
  pure (put_expertise expertise saved)

-- An argument that `create_agent` misses or does not know is a `TypeError`.
unfoldable pub found_or_new :
    Python → List AgentChange → Option (List String) → String → Option Agent → Session Agent
unfolding ◌>>=◌ update_agent gather_args create_agent
found_or_new py values expertise handle none = do
  args ← or_raise (gather_args values (default_args handle expertise) none none) type_error
  create_agent py args
found_or_new py values expertise handle (some agent) = update_agent values expertise agent

unfoldable pub upsert_agent :
    Python → String → List AgentChange → Option (List String) → Session Agent
unfolding ◌>>=◌ normalize_agent_handle found_or_new find
upsert_agent py handle values expertise = do
  normalized ← or_raise (normalize_agent_handle py handle) value_error
  known ← gets (λ w. agent_by_handle py normalized w.agents)
  found_or_new py values expertise normalized known

unfoldable pub get_agent_by_handle : Python → String → Session Agent
unfolding ◌>>=◌ normalize_agent_handle find
get_agent_by_handle py handle = do
  normalized ← or_raise (normalize_agent_handle py handle) value_error
  found ← gets (λ w. agent_by_handle py normalized w.agents)
  or_raise found not_found

abbrev pub is_among : Option (List RowId) → RowId → Bool
unfolding any_of
is_among none id = true
is_among (some ids) id = any_of (λ x. x == id) ids

unfoldable pub list_agents : Python → Bool → Option (List RowId) → Session (List Agent)
unfolding keep_if sort_by any_of
list_agents py enabled_only ids = gets (λ w.
    sort_by (λ a b. is_lt (compare (py.nocase a.handle) (py.nocase b.handle)))
      (keep_if (λ a. (if enabled_only then a.enabled else true) && is_among ids a.id) w.agents))
