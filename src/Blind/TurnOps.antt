-- ===== src/Blind/TurnOps.antt =====
-- repository.py: blind properties under the operations on turns.
use swarmboard.Prelude.{Option, none, some, ℕ}
use swarmboard.Json.{Json}
use swarmboard.Python.{Python}
use swarmboard.Models.{RowId, Turn, TurnOutcome}
use swarmboard.Tables.{Tables, Session}
use swarmboard.Turns.{
  TurnArgs, Finish, turn_config, new_turn, turn_or, create_turn, start_call, mark_turn_calling,
  append_turn_retry, check_result, count_turn, close_turn, finish_turn,
}
use swarmboard.Blind.Primitives.{IsBlind, Holds, blind_rules}

module _ {P : Tables → Type 0} (b : IsBlind P) where
  Holds-turn_config : (id : Option RowId) → Holds P (turn_config id)
  unfolding turn_config
  Holds-turn_config none = search blind_rules
  Holds-turn_config (some id) = search blind_rules

  Holds-new_turn : (py : Python) (a : TurnArgs) (run : Option RowId) → Holds P (new_turn py a run)
  unfolding new_turn
  Holds-new_turn py a run = search (blind_rules, Holds-turn_config) depth 12

  Holds-turn_or : (o : Option Turn) (m : Session Turn) → Holds P m → Holds P (turn_or o m)
  Holds-turn_or none m k = record { at = k.at }
  Holds-turn_or (some t) m k = record { at = λ w h. h }

  pub Holds-create_turn : (py : Python) (a : TurnArgs) → Holds P (create_turn py a)
  unfolding create_turn
  Holds-create_turn py a = search (blind_rules, Holds-turn_or, Holds-new_turn) depth 12

  Holds-start_call : (t : Turn) → Holds P (start_call t)
  unfolding start_call
  Holds-start_call t = search blind_rules depth 8

  pub Holds-mark_turn_calling : (id : RowId) → Holds P (mark_turn_calling id)
  unfolding mark_turn_calling
  Holds-mark_turn_calling id = search (blind_rules, Holds-start_call)

  pub Holds-append_turn_retry : (id : RowId) (retry : Json) → Holds P (append_turn_retry id retry)
  unfolding append_turn_retry
  Holds-append_turn_retry id retry = search blind_rules depth 8

  Holds-check_result : (id : Option RowId) → Holds P (check_result id)
  unfolding check_result
  Holds-check_result none = search blind_rules
  Holds-check_result (some id) = search blind_rules

  Holds-count_turn : (id : Option RowId) (tokens : ℕ) → Holds P (count_turn id tokens)
  unfolding count_turn
  Holds-count_turn none tokens = search blind_rules
  Holds-count_turn (some id) tokens = search blind_rules

  Holds-close_turn :
      (py : Python) (t : Turn) (f : Finish) (o : TurnOutcome) → Holds P (close_turn py t f o)
  unfolding close_turn
  Holds-close_turn py t f o = search (blind_rules, Holds-check_result, Holds-count_turn) depth 12

  pub Holds-finish_turn : (py : Python) (id : RowId) (f : Finish) → Holds P (finish_turn py id f)
  unfolding finish_turn
  Holds-finish_turn py id f = search (blind_rules, Holds-close_turn) depth 8
