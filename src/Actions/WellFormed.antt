-- ===== src/Actions/WellFormed.antt =====
-- gateways.py, `AgentAction.validate_action_fields`: the shapes of the actions that pass.
use swarmboard.Prelude.{
  String, ◌≡◌, ◌≢◌, ◌⊎◌, inl, inr, refl, false, Option, none, some, arith, str_eq, eq_iff,
  Bool-cases, some-inj, subst,
}
use swarmboard.Python.{Python}
use swarmboard.Actions.{
  ActionName, reply, new_thread, pass, propose_close, AgentAction, IntentName, is_blank,
  validate_place, require_intent, validate_action_fields,
}

-- The shapes that execution relies on: a pass says nothing, any other action has a text and an
-- intent, and only a new thread has a title, and then no parent.
pub data IsWellFormed (py : Python) : AgentAction → Type 0 where
  nothing :
      IsWellFormed py
        (record { action = pass; parent_post_id = none; title = none; body = none; intent = none })
  opening :
      (t s : String) (i : IntentName)
      → py.strip t ≢ ""
      → py.strip s ≢ ""
      → IsWellFormed py (record {
        action = new_thread;
        parent_post_id = none;
        title = some (py.strip t);
        body = some (py.strip s);
        intent = some i;
      })
  answer :
      (a : ActionName) (parent : Option String) (s : String) (i : IntentName)
      → (a ≡ reply) ⊎ (a ≡ propose_close)
      → py.strip s ≢ ""
      → IsWellFormed py (record {
        action = a;
        parent_post_id = parent;
        title = none;
        body = some (py.strip s);
        intent = some i;
      })

module _ (py : Python) where
  full : (s : String) → is_blank py (some s) ≡ false → py.strip s ≢ ""
  full s h e = ground (arith, eq_iff (py.strip s) "")

  pub validate_action_fields-IsWellFormed :
      (a b : AgentAction) → validate_action_fields py a ≡ some b → IsWellFormed py b
  unfolding validate_action_fields validate_place require_intent
  validate_action_fields-IsWellFormed a b h = go a.action a.parent_post_id a.title a.body a.intent h
    where
      go :
          (act : ActionName) (parent title body : Option String) (intent : Option IntentName)
          → validate_action_fields py (record {
            action = act;
            parent_post_id = parent;
            title = title;
            body = body;
            intent = intent;
          })
            ≡ some b
          → IsWellFormed py b
      go pass none none none none h = subst (IsWellFormed py) (some-inj h) nothing
      go reply parent none (some s) (some i) h = elim (Bool-cases (str_eq (py.strip s) "")) [
        | inl e ↦ absurd (ground arith)
        | inr e ↦
            subst (IsWellFormed py) (some-inj (rw e at h))
              (answer reply parent s i (inl refl) (full s e))
      ]
      go propose_close parent none (some s) (some i) h =
          elim (Bool-cases (str_eq (py.strip s) "")) [
            | inl e ↦ absurd (ground arith)
            | inr e ↦
                subst (IsWellFormed py) (some-inj (rw e at h))
                  (answer propose_close parent s i (inr refl) (full s e))
          ]
      go new_thread none (some t) (some s) (some i) h = elim (Bool-cases (str_eq (py.strip s) "")) [
        | inl e ↦ absurd (ground arith)
        | inr e ↦ elim (Bool-cases (str_eq (py.strip t) "")) [
          | inl f ↦ absurd (ground arith)
          | inr f ↦
              subst (IsWellFormed py) (some-inj (rw f at (rw e at h)))
                (opening t s i (full t f) (full s e))
        ]
      ]
      go _ _ _ _ _ h = absurd (ground arith)
