-- ===== src/RunPolicy/Normal.antt =====
-- run_policy.py, `normalize_config` on configs that are normal already.
use swarmboard.Prelude.{
  some-inj, String, ◌≢◌, subst, ℕ, ◌≡◌, refl, true, Option, none, some, arith, ap, str_eq,
  if◌then◌else◌, Bool-cases, inl, inr, ◌⊎◌, ◌∷◌, [], ◌∙◌,
}
use swarmboard.Prelude.Int.{pos}
use swarmboard.Json.{
  Json, null, int, float, text, object, Dict, entries, to_fields, entries-to_fields, get, without,
  without_idem, without_comm,
}
use swarmboard.RunPolicy.Types.{
  Profile, production_profile, permissive_profile, custom_profile, collaboration, research, strict,
  capture, SessionType, Seconds, Policy, RunConfig, production, permissive, preset, SchemaMode,
}
use swarmboard.Optional.{◌>>=◌}
use swarmboard.RunPolicy.Normalize.{
  read_session_type, read_profile, read_known, read_bool, read_schema_mode, known_keys,
  read_seconds, read_cap, settle_profile, read_object, read_policy, check_fence, normalize_entries,
  normalize_config, to_json, policy_dict, profile_name, mode_name, seconds_json, cap_json,
  session_type_name,
}

-- A policy that normalization can return.
record IsChecked (p : Policy) : Type 0 where
  seconds :
      (b : Option Seconds)
      → read_seconds b (some (seconds_json p.cooldown_seconds)) ≡ some p.cooldown_seconds
  cap :
      (b : Option ℕ)
      → read_cap b (some (cap_json p.consecutive_turn_cap)) ≡ some p.consecutive_turn_cap
  settled : settle_profile p.profile p ≡ p

production-IsChecked : IsChecked production
unfolding production read_seconds read_cap settle_profile
production-IsChecked = record { seconds = λ b. refl; cap = λ b. refl; settled = refl }

permissive-IsChecked : IsChecked permissive
unfolding permissive read_seconds read_cap settle_profile
permissive-IsChecked = record { seconds = λ b. refl; cap = λ b. refl; settled = refl }

settle_profile_idem :
    (f : Profile) (p : Policy)
    → settle_profile (settle_profile f p).profile (settle_profile f p) ≡ settle_profile f p
unfolding settle_profile
settle_profile_idem production_profile p = ground arith
settle_profile_idem permissive_profile p = ground arith
settle_profile_idem custom_profile p = refl

read_seconds-checked :
    (base : Option Seconds) (o : Option Json) (s b : Option Seconds)
    → base ≡ none
    → read_seconds base o ≡ some s
    → read_seconds b (some (seconds_json s)) ≡ some s
unfolding read_seconds
read_seconds-checked base none s b e h = ground arith
read_seconds-checked base (some null) s b e h = ground arith
read_seconds-checked base (some (int (pos n))) s b e h = ground arith
read_seconds-checked base (some (float bits)) s b e h = ground arith
read_seconds-checked base (some _) s b e h = ground arith

read_cap-checked :
    (base : Option ℕ) (o : Option Json) (c b : Option ℕ)
    → (base ≡ none) ⊎ (base ≡ some 1)
    → read_cap base o ≡ some c
    → read_cap b (some (cap_json c)) ≡ some c
unfolding read_cap
read_cap-checked base none c b e h = ground arith
read_cap-checked base (some null) c b e h = ground arith
read_cap-checked base (some (int (pos n))) c b e h = ground arith
read_cap-checked base (some _) c b e h = ground arith

-- `Q` holds of the value, if there is one.
record Ensures {A : Type 0} (Q : A → Type 0) (o : Option A) : Type 0 where
  at : (a : A) → o ≡ some a → Q a

Ensures-some : {A : Type 0} {Q : A → Type 0} (a : A) → Q a → Ensures Q (some a)
Ensures-some {Q = Q} a q = record { at = λ b e. subst Q (some-inj e) q }

Ensures-bind :
    {A B : Type 0} {Q : B → Type 0} (m : Option A) (f : A → Option B)
    → ((a : A) → m ≡ some a → Ensures Q (f a))
    → Ensures Q (m >>= f)
unfolding ◌>>=◌
Ensures-bind none f h = record { at = λ b e. cc }
Ensures-bind (some a) f h = h a refl

settle_profile-rules :
    (f : Profile) (q : Policy)
    → ((settle_profile f q).cooldown_seconds ≡ q.cooldown_seconds)
      × ((settle_profile f q).consecutive_turn_cap ≡ q.consecutive_turn_cap)
unfolding settle_profile
settle_profile-rules f q = ground arith

preset-base :
    (f : Profile)
    → ((preset f).cooldown_seconds ≡ none)
      × (((preset f).consecutive_turn_cap ≡ none) ⊎ ((preset f).consecutive_turn_cap ≡ some 1))
unfolding preset
preset-base production_profile = (refl, inr refl)
preset-base permissive_profile = (refl, inl refl)
preset-base custom_profile = (refl, inr refl)

settled-IsChecked :
    (f : Profile) (q : Policy) (so co : Option Json)
    → read_seconds (preset f).cooldown_seconds so ≡ some q.cooldown_seconds
    → read_cap (preset f).consecutive_turn_cap co ≡ some q.consecutive_turn_cap
    → IsChecked (settle_profile f q)
settled-IsChecked f q so co hs hc =
    let (es, ec) = settle_profile-rules f q in
    let (bs, bc) = preset-base f in
    record {
      seconds = λ b. rw es (read_seconds-checked _ so _ b bs hs);
      cap = λ b. rw ec (read_cap-checked _ co _ b bc hc);
      settled = settle_profile_idem f q;
    }

read_known-IsChecked : (d : Dict) → Ensures IsChecked (read_known d)
unfolding read_known
read_known-IsChecked d = search (Ensures-bind, Ensures-some, settled-IsChecked) depth 20

read_policy-IsChecked : (o : Option Json) (p : Policy) → read_policy o ≡ some p → IsChecked p
unfolding read_policy read_object
read_policy-IsChecked none p h = subst IsChecked (some-inj h) production-IsChecked
read_policy-IsChecked (some (text s)) p h = elim (Bool-cases (str_eq s "production")) [
  | inl e ↦ subst IsChecked (ground arith) production-IsChecked
  | inr e ↦ subst IsChecked (ground arith) permissive-IsChecked
]
read_policy-IsChecked (some (object fs)) p h =
    (read_known-IsChecked (entries fs)).at p (ground arith)
read_policy-IsChecked (some null) p h = cc
read_policy-IsChecked (some _) p h = cc

read_profile-name : (f : Profile) → read_profile (some (text (profile_name f))) ≡ some f
unfolding read_profile
read_profile-name production_profile = refl
read_profile-name permissive_profile = refl
read_profile-name custom_profile = refl

read_mode-name : (b m : SchemaMode) → read_schema_mode b (some (text (mode_name m))) ≡ some m
unfolding read_schema_mode
read_mode-name b strict = refl
read_mode-name b capture = refl

read_object-policy_dict : (p : Policy) → IsChecked p → read_object (policy_dict p) ≡ some p
unfolding read_object read_known policy_dict read_bool get known_keys
read_object-policy_dict p v =
    rw (read_profile-name, v.seconds, v.cap, read_mode-name) (ap some v.settled)

record IsNormal (c : RunConfig) : Type 0 where
  checked : IsChecked c.policy
  fenced : check_fence c.session_type c.policy ≡ true
  stripped : without "policy" (without "session_type" c.settings) ≡ c.settings

without_both_idem :
    (k j : String) (d : Dict)
    → without k (without j (without k (without j d))) ≡ without k (without j d)
without_both_idem k j d =
    rw (without_comm j k (without j d), without_idem j d, without_idem k (without j d))

dict-IsNormal :
    (t : SessionType) (p : Policy) (d : Dict)
    → IsChecked p
    → Ensures IsNormal (
        if check_fence t p
        then some (record {
          session_type = t;
          policy = p;
          settings = without "policy" (without "session_type" d);
        })
        else none)
dict-IsNormal t p d v = elim (Bool-cases (check_fence t p)) [
  | inl e ↦ rw e (
      Ensures-some _ (record {
        checked = v;
        fenced = e;
        stripped = without_both_idem "policy" "session_type" d;
      }))
  | inr e ↦ rw e (record { at = λ c h. cc })
]

normalize_entries-IsNormal : (d : Dict) → Ensures IsNormal (normalize_entries d)
unfolding normalize_entries
normalize_entries-IsNormal d = Ensures-bind (read_session_type (get "session_type" d)) _ λ t _.
    Ensures-bind (read_policy (get "policy" d)) _
      λ p e. dict-IsNormal t p d (read_policy-IsChecked (get "policy" d) p e)

normalize_config-IsNormal : (j : Json) (c : RunConfig) → normalize_config j ≡ some c → IsNormal c
unfolding normalize_config
normalize_config-IsNormal null c h = (normalize_entries-IsNormal []).at c h
normalize_config-IsNormal (object fs) c h = (normalize_entries-IsNormal (entries fs)).at c h
normalize_config-IsNormal _ c h = absurd (cc)

read_session_type-name :
    (t : SessionType) → read_session_type (some (text (session_type_name t))) ≡ some t
unfolding read_session_type
read_session_type-name collaboration = refl
read_session_type-name research = refl

stored_entries : RunConfig → Dict
stored_entries c =
    ("session_type", text (session_type_name c.session_type))
    ∷ ("policy", object (to_fields (policy_dict c.policy)))
    ∷ c.settings

normalize_entries-stored :
    (c : RunConfig) → IsNormal c → normalize_entries (stored_entries c) ≡ some c
unfolding normalize_entries stored_entries read_policy ◌>>=◌
normalize_entries-stored c v = rw (
  read_session_type-name,
  entries-to_fields (policy_dict c.policy),
  read_object-policy_dict c.policy v.checked,
  v.fenced,
  v.stripped,
)

-- Normalizing the stored form of a normal config gives that config back, whatever was supplied.
pub normalize_config_stable :
    (j : Json) (c : RunConfig) → normalize_config j ≡ some c → normalize_config (to_json c) ≡ some c
unfolding normalize_config to_json stored_entries
normalize_config_stable j c h =
    ap normalize_entries (entries-to_fields (stored_entries c))
    ∙ normalize_entries-stored c (normalize_config-IsNormal j c h)

fence-production : (p : Policy) → check_fence collaboration p ≡ true → p ≡ production
unfolding check_fence
fence-production p h = ground arith

settled-preset :
    (f : Profile) (p : Policy)
    → p.profile ≡ f
    → settle_profile f p ≡ p
    → f ≢ custom_profile
    → p ≡ preset f
unfolding settle_profile
settled-preset production_profile p e h n = ground arith
settled-preset permissive_profile p e h n = ground arith
settled-preset custom_profile p e h n = absurd (n refl)

-- A normal collaboration config has the production policy, and any normal config whose profile
-- names a preset has exactly that preset's rules.
pub normalize_config-preset :
    (j : Json) (c : RunConfig)
    → normalize_config j ≡ some c
    → (c.session_type ≡ collaboration → c.policy ≡ production)
      × (c.policy.profile ≢ custom_profile → c.policy ≡ preset c.policy.profile)
normalize_config-preset j c h =
    let v = normalize_config-IsNormal j c h in
    (
      λ e. fence-production c.policy (subst (λ t. check_fence t c.policy ≡ true) e v.fenced),
      λ n. settled-preset c.policy.profile c.policy refl v.checked.settled n,
    )
