-- ===== src/Blind/AgentOps.antt =====
-- repository.py: blind properties under the operations on agents and memories.
use swarmboard.Prelude.{String, Option, none, some, List, [], ◌∷◌, arith}
use swarmboard.Floats.{Floats}
use swarmboard.Python.{Python}
use swarmboard.Exec.{Error, Outcome, ok, raise, state_of, integrity_error}
use swarmboard.Models.{Agent}
use swarmboard.Tables.{World, Tables, Session}
use swarmboard.Agents.{
  AgentArgs, AgentChange, set_persona, set_model, set_role, set_provider, set_settings,
  set_permissions, set_cooldown_seconds, set_enabled, set_unknown, register, taken_or, or_taken,
  create_agent, apply_changes, update_agent, found_or_new, upsert_agent,
}
use swarmboard.Memories.{MemoryArgs, create_memory}
use swarmboard.Blind.Primitives.{IsBlind, Holds, blind_rules}

module _ {P : Tables → Type 0} (b : IsBlind P) where
  Holds-register : (py : Python) (a : Agent) → Holds P (register py a)
  unfolding register
  Holds-register py a = search blind_rules depth 8

  Holds-taken_or : (py : Python) (handle : String) (e : Error) → Holds P (taken_or py handle e)
  unfolding taken_or
  Holds-taken_or py handle integrity_error = record { at = λ w h. ground arith }
  Holds-taken_or py handle e = record { at = λ w h. h }

  Holds-or_taken :
      (py : Python) (handle : String) (m : Session Agent)
      → Holds P m
      → Holds P (or_taken py handle m)
  unfolding or_taken
  Holds-or_taken py handle m k = record { at = λ w h. go (m w) (k.at w h) }
    where
      go :
          (o : Outcome World Agent)
          → P (state_of o).tables
          → P
              (state_of (
                let r : Outcome World Agent = elim o [
                  | ok a w' ↦ ok a w'
                  | raise e w' ↦ taken_or py handle e w'
                ] in
                r)).tables
      go (ok a w') q = q
      go (raise e w') q = (Holds-taken_or py handle e).at w' q

  pub Holds-create_agent : (py : Python) (a : AgentArgs) → Holds P (create_agent py a)
  unfolding create_agent
  Holds-create_agent py a = search (blind_rules, Holds-register, Holds-or_taken) depth 10

  Holds-apply_changes : (cs : List AgentChange) (a : Agent) → Holds P (apply_changes cs a)
  unfolding apply_changes
  Holds-apply_changes [] a = search blind_rules
  Holds-apply_changes (set_unknown ∷ cs) a = search blind_rules depth 6
  Holds-apply_changes (set_persona s ∷ cs) a = Holds-apply_changes cs _
  Holds-apply_changes (set_model s ∷ cs) a = Holds-apply_changes cs _
  Holds-apply_changes (set_role s ∷ cs) a = Holds-apply_changes cs _
  Holds-apply_changes (set_provider s ∷ cs) a = Holds-apply_changes cs _
  Holds-apply_changes (set_settings d ∷ cs) a = Holds-apply_changes cs _
  Holds-apply_changes (set_permissions d ∷ cs) a = Holds-apply_changes cs _
  Holds-apply_changes (set_cooldown_seconds n ∷ cs) a = Holds-apply_changes cs _
  Holds-apply_changes (set_enabled e ∷ cs) a = Holds-apply_changes cs _

  Holds-update_agent :
      (cs : List AgentChange) (x : Option (List String)) (a : Agent) → Holds P (update_agent cs x a)
  unfolding update_agent
  Holds-update_agent cs x a = search (blind_rules, Holds-apply_changes) depth 10

  Holds-found_or_new :
      (py : Python) (cs : List AgentChange) (x : Option (List String)) (handle : String)
      (known : Option Agent)
      → Holds P (found_or_new py cs x handle known)
  unfolding found_or_new
  Holds-found_or_new py cs x handle none = search (blind_rules, Holds-create_agent) depth 8
  Holds-found_or_new py cs x handle (some a) = search (blind_rules, Holds-update_agent)

  pub Holds-upsert_agent :
      (py : Python) (handle : String) (cs : List AgentChange) (x : Option (List String))
      → Holds P (upsert_agent py handle cs x)
  unfolding upsert_agent
  Holds-upsert_agent py handle cs x = search (blind_rules, Holds-found_or_new) depth 10

  pub Holds-create_memory :
      (py : Python) (fl : Floats) (a : MemoryArgs) → Holds P (create_memory py fl a)
  unfolding create_memory
  Holds-create_memory py fl a = search blind_rules depth 12
