-- ===== src/Blind/Primitives.antt =====
-- The interface, and the row operations that keep a blind property.
use swarmboard.Python.{Python}
use swarmboard.Prelude.{
  ◌+◌, sym, subst, ==_iff, find-holds, ℕ, ◌≡◌, refl, none, some, List, ◌==◌, arith, update_where,
  any_of, Option-cases, Bool-cases, inl, inr,
}
use swarmboard.Exec.{Outcome, ok, raise, state_of, not_found}
use swarmboard.Exec.Keeps.{Keeps, keeps_rules}
use swarmboard.Models.{RowId, Run, Thread, Post, Agent, Turn, Event, Memory, Time}
use swarmboard.Tables.{
  World, Tables, Session, utc_now, new_uuid, savepoint, get_agent, get_run, get_thread, get_post,
  get_stimulus, get_turn, get_event, put_agent, put_thread, put_turn, put_run, insert_thread,
  insert_post, insert_turn, add_event, run_by, clashes, same_agent, insert_agent, insert_memory,
}
use swarmboard.Runs.{increment_run_counters}

pub record IsBlind (P : Tables → Type 0) : Type 0 where
  pub agents : (t : Tables) (xs : List Agent) → P t → P (record t { agents = xs })
  pub threads : (t : Tables) (xs : List Thread) → P t → P (record t { threads = xs })
  pub posts : (t : Tables) (xs : List Post) → P t → P (record t { posts = xs })
  pub events : (t : Tables) (xs : List Event) → P t → P (record t { events = xs })
  pub turns : (t : Tables) (xs : List Turn) → P t → P (record t { turns = xs })
  pub memories : (t : Tables) (xs : List Memory) → P t → P (record t { memories = xs })
  pub run :
      (t : Tables) (r r' : Run)
      → run_by r'.id t.runs ≡ some r
      → r'.state ≡ r.state
      → P t
      → P (record t { runs = update_where (λ x. x.id == r'.id) (λ _. r') t.runs })

-- The action keeps a property of the tables.
abbrev pub Holds : {A : Type 0} → (Tables → Type 0) → Session A → Type 0
Holds P m = Keeps (λ w. w.tables) P m

pub run_by_self :
    (id : RowId) (runs : List Run) (run : Run)
    → run_by id runs ≡ some run
    → run_by run.id runs ≡ some run
run_by_self id runs run e =
    let same : run.id ≡ id =
      (==_iff run.id id).0 (find-holds (λ (r : Run). r.id == id) runs run e) in
    subst (λ k. run_by k runs ≡ some run) (sym same) e

abbrev pub counted : Run → ℕ → ℕ → ℕ → ℕ → Time → Run
counted run rounds posts tokens calls now = record run {
  rounds_used = run.rounds_used + rounds;
  posts_used = run.posts_used + posts;
  tokens_used = run.tokens_used + tokens;
  model_calls = run.model_calls + calls;
  heartbeat_at = some now;
}

module _ (id : RowId) (rounds posts tokens calls : ℕ) (w : World) where
  pub increment-missing :
      run_by id w.runs ≡ none
      → increment_run_counters id rounds posts tokens calls w
        ≡ raise not_found (record w { reads = w.reads + 1 })
  unfolding increment_run_counters
  increment-missing e = ground arith

  -- The counters grow by exactly the given amounts.
  pub increment-eq :
      (run : Run)
      → run_by id w.runs ≡ some run
      → increment_run_counters id rounds posts tokens calls w ≡ (
          let saved = counted run rounds posts tokens calls (w.clock w.reads) in
          ok saved (state_of (put_run saved (record w { reads = w.reads + 1 }))))
  unfolding increment_run_counters
  increment-eq run e = ground arith

module _ {P : Tables → Type 0} where
  pub Holds-utc_now : Holds P utc_now
  unfolding utc_now
  Holds-utc_now = record { at = λ w h. h }

  pub Holds-new_uuid : Holds P new_uuid
  unfolding new_uuid
  Holds-new_uuid = record { at = λ w h. h }

  pub Holds-get_agent : (id : RowId) → Holds P (get_agent id)
  unfolding get_agent
  Holds-get_agent id = record { at = λ w h. ground arith }

  pub Holds-get_run : (id : RowId) → Holds P (get_run id)
  unfolding get_run
  Holds-get_run id = record { at = λ w h. ground arith }

  pub Holds-get_thread : (id : RowId) → Holds P (get_thread id)
  unfolding get_thread
  Holds-get_thread id = record { at = λ w h. ground arith }

  pub Holds-get_post : (id : RowId) → Holds P (get_post id)
  unfolding get_post
  Holds-get_post id = record { at = λ w h. ground arith }

  pub Holds-get_turn : (id : RowId) → Holds P (get_turn id)
  unfolding get_turn
  Holds-get_turn id = record { at = λ w h. ground arith }

  pub Holds-get_event : (id : ℕ) → Holds P (get_event id)
  unfolding get_event
  Holds-get_event id = record { at = λ w h. ground arith }

  pub Holds-get_stimulus : (id : RowId) → Holds P (get_stimulus id)
  unfolding get_stimulus
  Holds-get_stimulus id = record { at = λ w h. ground arith }

  -- A block that raises leaves the tables as they were.
  pub Holds-savepoint : {A : Type 0} (m : Session A) → Holds P m → Holds P (savepoint m)
  unfolding savepoint
  Holds-savepoint {A} m k = record { at = λ w h. go w (m w) h (k.at w h) }
    where
      go :
          (w : World) (o : Outcome World A)
          → P w.tables
          → P (state_of o).tables
          → P
              (state_of (
                let r : Outcome World A = elim o [
                  | ok a w' ↦ ok a w'
                  | raise e w' ↦ raise e (record w' { tables = w.tables })
                ] in
                r)).tables
      go w (ok a w') h q = q
      go w (raise e w') h q = h

module _ {P : Tables → Type 0} (b : IsBlind P) where
  pub Holds-add_event : (e : Event) → Holds P (add_event e)
  unfolding add_event
  Holds-add_event e = record { at = λ w h. b.events w.tables _ h }

  pub Holds-put_agent : (a : Agent) → Holds P (put_agent a)
  unfolding put_agent
  Holds-put_agent a = record { at = λ w h. b.agents w.tables _ h }

  pub Holds-insert_agent : (py : Python) (a : Agent) → Holds P (insert_agent py a)
  unfolding insert_agent
  Holds-insert_agent py a = record {
    at = λ w h. elim (Bool-cases (any_of (same_agent py a) w.agents)) [
      | inl e ↦ rw e h
      | inr e ↦ rw e (b.agents w.tables _ h)
    ];
  }

  pub Holds-insert_memory : (m : Memory) → Holds P (insert_memory m)
  unfolding insert_memory
  Holds-insert_memory m = record { at = λ w h. b.memories w.tables _ h }

  pub Holds-put_thread : (t : Thread) → Holds P (put_thread t)
  unfolding put_thread
  Holds-put_thread t = record { at = λ w h. b.threads w.tables _ h }

  pub Holds-insert_thread : (t : Thread) → Holds P (insert_thread t)
  unfolding insert_thread
  Holds-insert_thread t = record { at = λ w h. b.threads w.tables _ h }

  pub Holds-put_turn : (t : Turn) → Holds P (put_turn t)
  unfolding put_turn
  Holds-put_turn t = record { at = λ w h. b.turns w.tables _ h }

  pub Holds-insert_turn : (t : Turn) → Holds P (insert_turn t)
  unfolding insert_turn
  Holds-insert_turn t = record { at = λ w h. b.turns w.tables _ h }

  pub Holds-insert_post : (p : Post) → Holds P (insert_post p)
  unfolding insert_post
  Holds-insert_post p = record {
    at = λ w h. elim (Bool-cases (any_of (clashes p) w.posts)) [
      | inl e ↦ rw e h
      | inr e ↦ rw e (b.posts w.tables _ h)
    ];
  }

  pub Holds-increment :
      (id : RowId) (rounds posts tokens calls : ℕ)
      → Holds P (increment_run_counters id rounds posts tokens calls)
  unfolding put_run
  Holds-increment id rounds posts tokens calls = record {
    at = λ w h. elim (Option-cases (run_by id w.runs)) [
      | inl e ↦
          subst (λ (o : Outcome World Run). P (state_of o).tables)
            (sym (increment-missing id rounds posts tokens calls w e)) h
      | inr (run, e) ↦
          subst (λ (o : Outcome World Run). P (state_of o).tables)
            (sym (increment-eq id rounds posts tokens calls w run e))
            (b.run w.tables run (counted run rounds posts tokens calls (w.clock w.reads))
              (run_by_self id w.runs run e) refl h)
    ];
  }

-- The actions that write no row keep every property.
pub ruleset read_rules = (
  keeps_rules, Holds-utc_now, Holds-new_uuid, Holds-get_agent, Holds-get_run, Holds-get_thread,
  Holds-get_post, Holds-get_turn, Holds-get_event, Holds-get_stimulus, Holds-savepoint,
)

pub ruleset blind_rules = (
  read_rules, Holds-add_event, Holds-put_agent, Holds-put_thread, Holds-insert_thread,
  Holds-put_turn, Holds-insert_turn, Holds-insert_post, Holds-insert_agent, Holds-insert_memory,
  Holds-increment,
)
