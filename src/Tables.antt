-- ===== src/Tables.antt =====
-- The database session of repository.py: the tables in insertion order, the clock and the uuid
-- source that the session reads, and the row operations of SQLAlchemy that the repository uses.
-- Flushes write through at once; a transaction that raises is rolled back by its caller.
use swarmboard.Python.{Python}
use swarmboard.Prelude.{
  ℕ, ◌+◌, String, Option, none, some, List, [], ◌∷◌, ◌++◌, map, ◌==◌, length, find, update_where,
  any_of, str_eq, Bool, false, ◌||◌, ◌&&◌, if◌then◌else◌,
}
use swarmboard.Prelude.Int.{pos}
use swarmboard.Json.{Json, null, int, text, array, Items, nil, cons}
use swarmboard.Exec.{Exec, ok, raise, ◌>>=◌, or_raise, not_found, integrity_error}
use swarmboard.Models.{
  RowId, Time, Agent, Run, Thread, Post, Event, Stimulus, Turn, Memory, EventType,
}

pub record Tables : Type 0 where
  pub agents : List Agent
  pub runs : List Run
  pub threads : List Thread
  pub posts : List Post
  pub events : List Event
  pub stimuli : List Stimulus
  pub turns : List Turn
  pub memories : List Memory

-- `clock i` is the `i`-th time read, `uuid i` the `i`-th uuid drawn; both are the environment's.
pub record World : Type 0 where
  pub tables : Tables
  pub open tables use *
  pub clock : ℕ → Time
  pub reads : ℕ
  pub uuid : ℕ → RowId
  pub drawn : ℕ

abbrev pub Session : Type 0 → Type 0
Session A = Exec World A

unfoldable pub utc_now : Session Time
utc_now w = ok (w.clock w.reads) (record w { reads = w.reads + 1 })

unfoldable pub new_uuid : Session RowId
new_uuid w = ok (w.uuid w.drawn) (record w { drawn = w.drawn + 1 })

-- A savepoint: what the block wrote is undone if it raises. Clock and uuids do not run backwards.
unfoldable pub savepoint : {A : Type 0} → Session A → Session A
savepoint m w = elim (m w) [
  | ok a w' ↦ ok a w'
  | raise e w' ↦ raise e (record w' { tables = w.tables })
]

-- `with SessionLocal.begin()`: one transaction.
unfoldable pub transaction : {A : Type 0} → Session A → Session A
unfolding savepoint
transaction m = savepoint m

-- `session.get`
abbrev pub run_by : RowId → List Run → Option Run
run_by id = find (λ r. r.id == id)

abbrev pub thread_by : RowId → List Thread → Option Thread
thread_by id = find (λ t. t.id == id)

abbrev pub post_by : RowId → List Post → Option Post
post_by id = find (λ p. p.id == id)

abbrev pub agent_by : RowId → List Agent → Option Agent
agent_by id = find (λ a. a.id == id)

abbrev pub stimulus_by : RowId → List Stimulus → Option Stimulus
stimulus_by id = find (λ s. s.id == id)

abbrev pub turn_by : RowId → List Turn → Option Turn
turn_by id = find (λ t. t.id == id)

unfoldable pub get_event : ℕ → Session Event
unfolding or_raise
get_event id w = or_raise (find (λ e. e.id == id) w.events) not_found w

unfoldable pub get_agent : RowId → Session Agent
unfolding or_raise
get_agent id w = or_raise (agent_by id w.agents) not_found w

unfoldable pub get_run : RowId → Session Run
unfolding or_raise
get_run id w = or_raise (run_by id w.runs) not_found w

unfoldable pub get_thread : RowId → Session Thread
unfolding or_raise
get_thread id w = or_raise (thread_by id w.threads) not_found w

unfoldable pub get_post : RowId → Session Post
unfolding or_raise
get_post id w = or_raise (post_by id w.posts) not_found w

unfoldable pub get_stimulus : RowId → Session Stimulus
unfolding or_raise
get_stimulus id w = or_raise (stimulus_by id w.stimuli) not_found w

unfoldable pub get_turn : RowId → Session Turn
unfolding or_raise
get_turn id w = or_raise (turn_by id w.turns) not_found w

-- `session.add` of a new row, and its flush.
unfoldable pub insert_run : Run → Session (Unit {0})
insert_run r w = ok tt (record w { tables = record w.tables { runs = w.runs ++ r ∷ [] } })

unfoldable pub insert_thread : Thread → Session (Unit {0})
insert_thread t w = ok tt (record w { tables = record w.tables { threads = w.threads ++ t ∷ [] } })

unfoldable pub insert_stimulus : Stimulus → Session (Unit {0})
insert_stimulus s w =
    ok tt (record w { tables = record w.tables { stimuli = w.stimuli ++ s ∷ [] } })

unfoldable pub insert_turn : Turn → Session (Unit {0})
insert_turn t w = ok tt (record w { tables = record w.tables { turns = w.turns ++ t ∷ [] } })

-- The unique columns of `posts`: the primary key, the delivery key, and the place in the thread.
abbrev pub same_key : Option String → Option String → Bool
same_key (some a) (some b) = str_eq a b
same_key _ _ = false

abbrev pub clashes : Post → Post → Bool
clashes p q =
    q.id == p.id
    || same_key q.idempotency_key p.idempotency_key
    || q.thread_id == p.thread_id && q.sequence == p.sequence

unfoldable pub insert_post : Post → Session (Unit {0})
unfolding any_of
insert_post p w =
    if any_of (clashes p) w.posts
    then raise integrity_error w
    else ok tt (record w { tables = record w.tables { posts = w.posts ++ p ∷ [] } })

-- The unique columns of `agents`: the primary key and the handle.
-- The primary key, or `uq_agents_handle_nocase`.
abbrev pub same_agent : Python → Agent → Agent → Bool
same_agent py a b = b.id == a.id || str_eq (py.nocase b.handle) (py.nocase a.handle)

unfoldable pub insert_agent : Python → Agent → Session (Unit {0})
unfolding any_of
insert_agent py a w =
    if any_of (same_agent py a) w.agents
    then raise integrity_error w
    else ok tt (record w { tables = record w.tables { agents = w.agents ++ a ∷ [] } })

unfoldable pub insert_memory : Memory → Session (Unit {0})
insert_memory m w =
    ok tt (record w { tables = record w.tables { memories = w.memories ++ m ∷ [] } })

-- A flush of a changed row.
unfoldable pub put_agent : Agent → Session (Unit {0})
put_agent a w = ok tt (record w {
  tables = record w.tables { agents = update_where (λ x. x.id == a.id) (λ _. a) w.agents };
})

unfoldable pub put_run : Run → Session (Unit {0})
put_run r w = ok tt (record w {
  tables = record w.tables { runs = update_where (λ x. x.id == r.id) (λ _. r) w.runs };
})

unfoldable pub put_thread : Thread → Session (Unit {0})
put_thread t w = ok tt (record w {
  tables = record w.tables { threads = update_where (λ x. x.id == t.id) (λ _. t) w.threads };
})

unfoldable pub put_turn : Turn → Session (Unit {0})
put_turn t w = ok tt (record w {
  tables = record w.tables { turns = update_where (λ x. x.id == t.id) (λ _. t) w.turns };
})

unfoldable pub put_stimulus : Stimulus → Session (Unit {0})
put_stimulus s w = ok tt (record w {
  tables = record w.tables { stimuli = update_where (λ x. x.id == s.id) (λ _. s) w.stimuli };
})

-- A flush of a stimulus whose `updated_at` the code does not set: `onupdate=utc_now`.
unfoldable pub save_stimulus : Stimulus → Session (Unit {0})
unfolding ◌>>=◌ utc_now put_stimulus
save_stimulus s = do now ← utc_now; put_stimulus (record s { updated_at = now })

-- `Event(...)` with the defaults of `add_event`.
abbrev pub event_of : EventType → Event
event_of t = record {
  id = 0;
  event_type = t;
  run_id = none;
  thread_id = none;
  post_id = none;
  agent_id = none;
  stimulus_id = none;
  actor_type = "system";
  actor_id = none;
  payload = [];
}

-- `add_event`: the key is the next integer, since rows are never deleted.
unfoldable pub add_event : Event → Session Event
add_event e w =
    let row : Event = record e { id = length w.events + 1 } in
    ok row (record w { tables = record w.tables { events = w.events ++ row ∷ [] } })

abbrev pub opt_text : Option String → Json
opt_text none = null
opt_text (some s) = text s

abbrev pub id_json : RowId → Json
id_json id = int (pos id)

abbrev pub opt_id : Option RowId → Json
opt_id none = null
opt_id (some id) = id_json id

abbrev pub num_json : ℕ → Json
num_json n = int (pos n)

abbrev pub opt_num : Option ℕ → Json
opt_num none = null
opt_num (some n) = num_json n

pub to_items : List Json → Items
to_items [] = nil
to_items (x ∷ xs) = cons x (to_items xs)

abbrev pub ids_json : List RowId → Json
ids_json ids = array (to_items (map id_json ids))
