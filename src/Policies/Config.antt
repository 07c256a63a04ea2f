-- ===== src/Policies/Config.antt =====
-- policies.py: the settings of the action policy, its decisions, and the texts it compares.
use Prim.Native.String.{◌++◌ as then_text}
use swarmboard.Prelude.{
  ℕ, zero, suc, ◌+◌, ◌-◌, String, Bool, true, false, Option, none, List, [], ◌∷◌, map, length,
  any_of, or_else, str_eq, if◌then◌else◌,
}
use swarmboard.Json.{Dict}
use swarmboard.Python.{Python}
use swarmboard.Floats.{Float, Floats, max_of}
use swarmboard.Actions.{AgentAction, ActionName, reply, new_thread, pass, propose_close}

pub record PolicyConfig : Type 0 where
  pub max_body_chars : ℕ
  pub max_title_chars : ℕ
  pub duplicate_lookback : ℕ
  pub exact_duplicate_case_sensitive : Bool
  pub similarity_threshold : Float
  pub min_similarity_chars : ℕ
  pub max_agent_ping_pong_posts : ℕ
  pub allow_consecutive_posts : Bool
  pub allow_self_replies : Bool
  pub allow_repeated_posts : Bool
  pub require_known_parent : Bool
  pub consecutive_turn_cap : Option ℕ
  pub enforce_cooldown : Bool

pub record PolicyDecision : Type 0 where
  pub accepted : Bool
  pub action : Option AgentAction
  pub reason : String
  pub fingerprint : Option String
  pub metadata : Dict

-- What policies.py calls beyond the text methods: NFKC normalization, `_SPACE_RE.sub(" ", s)`,
-- `_WORD_RE.findall(s)`, the hexadecimal SHA-256 digest and `SequenceMatcher(...).ratio()`.
pub record TextTools : Type 0 where
  pub nfkc : String → String
  pub join_spaces : String → String
  pub find_words : String → List String
  pub sha256 : String → String
  pub sequence_ratio : String → String → Float

abbrev pub default_config : Floats → PolicyConfig
default_config fl = record {
  max_body_chars = 20000;
  max_title_chars = 240;
  duplicate_lookback = 40;
  exact_duplicate_case_sensitive = false;
  similarity_threshold = fl.literal "0.92";
  min_similarity_chars = 80;
  max_agent_ping_pong_posts = 4;
  allow_consecutive_posts = false;
  allow_self_replies = false;
  allow_repeated_posts = false;
  require_known_parent = true;
  consecutive_turn_cap = none;
  enforce_cooldown = false;
}

abbrev pub member : String → List String → Bool
member s xs = any_of (str_eq s) xs

-- `set(xs)`, as a list without repetitions.
unfoldable pub distinct : List String → List String
unfolding any_of
distinct [] = []
distinct (x ∷ xs) = let rest = distinct xs in if member x rest then rest else x ∷ rest

abbrev pub action_text : ActionName → String
action_text reply = "reply"
action_text new_thread = "new_thread"
action_text pass = "pass"
action_text propose_close = "propose_close"

-- `sep.join(parts)`
unfoldable pub join : String → List String → String
join sep [] = ""
join sep (x ∷ []) = x
join sep (x ∷ y ∷ ys) = then_text x (then_text sep (join sep (y ∷ ys)))

-- `len(left & right)`
unfoldable pub shared : List String → List String → ℕ
unfolding any_of
shared [] ys = 0
shared (x ∷ xs) ys = (if member x ys then 1 else 0) + shared xs ys

module _ (py : Python) (tools : TextTools) where
  unfoldable pub normalize_text : Bool → String → String
  normalize_text case_sensitive s =
      let value = py.strip (tools.join_spaces (tools.nfkc s)) in
      if case_sensitive then value else py.casefold value

  unfoldable pub action_fingerprint : AgentAction → Option String → Option String → String
  unfolding normalize_text join
  action_fingerprint a agent_id thread_id = tools.sha256 (
      join "\u{1f}" (
        or_else thread_id ""
        ∷ or_else agent_id ""
        ∷ action_text a.action
        ∷ or_else a.parent_post_id ""
        ∷ normalize_text false (or_else a.title "")
        ∷ normalize_text false (or_else a.body "")
        ∷ []))

  unfoldable pub tokens : String → List String
  unfolding distinct
  tokens s = distinct (map py.casefold (tools.find_words s))

  module _ (fl : Floats) where
    -- len(left & right) / len(left | right), 0.0 where both are empty
    unfoldable pub jaccard : List String → List String → Float
    unfolding shared
    jaccard left right =
        let common = shared left right in
        elim (length left + length right) [
          | zero ↦ fl.literal "0.0"
          | suc n ↦ fl.divide (fl.of_nat common) (fl.of_nat (suc n - common))
        ]

    unfoldable pub text_similarity : String → String → Float
    unfolding normalize_text tokens jaccard
    text_similarity left right =
        let a = normalize_text false left in
        let b = normalize_text false right in
        let sequence = tools.sequence_ratio a b in
        if str_eq a b
        then fl.literal "1.0"
        else max_of fl sequence
            (fl.divide (fl.plus (jaccard (tokens a) (tokens b)) sequence) (fl.literal "2.0"))
