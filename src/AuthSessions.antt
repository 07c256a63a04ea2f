-- ===== src/AuthSessions.antt =====
-- swarmboard/auth_sessions.py: `SessionStore`, the login sessions of collaborators.
pub mod Accepted
pub mod Bounded
pub mod Revoked
pub mod Visits
pub mod Issued
use Prim.Native.String.{compare}
use text.Mathlib.Text.{is_lt}
use swarmboard.Prelude.{
  ℕ, ◌+◌, ◌*◌, min, String, Bool, true, false, ◌&&◌, ◌||◌, not, Option, none, some, List, [], ◌∷◌,
  ◌++◌, map, drop, find, keep_if, update_where, any_of, is_some, str_eq, ltb, leb, if◌then◌else◌,
}
use swarmboard.Models.{Time}
use swarmboard.Sorting.{sort_by}

pub record AuthSession : Type 0 where
  pub token_hash : String
  pub username : String
  pub credential_fingerprint : String
  pub created_at : Time
  pub last_activity_at : Time
  pub revoked_at : Option Time

abbrev pub Sessions : Type 0
Sessions = List AuthSession

-- `AuthSettings` of auth.py, as the store uses it: the fingerprint of a user's credentials, and the
-- user that a name and a password authenticate.
pub record Settings : Type 0 where
  pub fingerprint : String → Option String
  pub authenticate : String → String → Option String

-- The lifetimes of a store, in seconds, and the two functions on tokens: `_TOKEN.fullmatch` and
-- the hexadecimal SHA-256 digest.
pub record SessionStore : Type 0 where
  pub idle_seconds : ℕ
  pub absolute_seconds : ℕ
  pub is_token : String → Bool
  pub sha256 : String → String

pub data Reason : Type 0 where
  authentication_required logged_out credentials_changed absolute_expired idle_expired : Reason

-- What `_status` tells of a session: its user and its ends, or the reason that there is none.
pub record Status : Type 0 where
  pub authenticated : Bool
  pub user : Option String
  pub server_time : Time
  pub idle_expires_at : Option Time
  pub absolute_expires_at : Option Time
  pub reason : Option Reason

abbrev pub max_user_sessions : ℕ
max_user_sessions = 20

-- `timedelta(seconds=n)`, in microseconds.
abbrev pub seconds : ℕ → ℕ
seconds n = n * 1000000

abbrev pub with_hash : String → AuthSession → Bool
with_hash digest row = str_eq row.token_hash digest

abbrev pub is_active : AuthSession → Bool
is_active row = not (is_some row.revoked_at)

abbrev pub revoked : Time → AuthSession → AuthSession
revoked now row = record row { revoked_at = some now }

-- `not hmac.compare_digest(fingerprint, ...)`, or no fingerprint.
abbrev pub mismatches : Option String → String → Bool
mismatches none f = true
mismatches (some g) f = not (str_eq g f)

abbrev pub is_active_of : String → AuthSession → Bool
is_active_of username row = str_eq row.username username && is_active row

abbrev pub newer : AuthSession → AuthSession → Bool
newer a b =
    if ltb b.created_at a.created_at
    then true
    else if ltb a.created_at b.created_at
    then false
    else is_lt (compare a.token_hash b.token_hash)

-- The sessions of a user beyond the newest nineteen.
unfoldable pub surplus : String → Sessions → Sessions
unfolding sort_by keep_if
surplus username rows = drop 19 (sort_by newer (keep_if (is_active_of username) rows))

abbrev pub fingerprint_of : Settings → Option String → Option String
fingerprint_of settings none = none
fingerprint_of settings (some username) = settings.fingerprint username

module _ (store : SessionStore) where
  -- `_hash`: of a text that has the form of a token.
  unfoldable pub hash : Option String → Option String
  hash none = none
  hash (some token) = if store.is_token token then some (store.sha256 token) else none

  abbrev pub absolute_end : AuthSession → Time
  absolute_end row = row.created_at + seconds store.absolute_seconds

  abbrev pub idle_end : AuthSession → Time
  idle_end row = row.last_activity_at + seconds store.idle_seconds

  abbrev pub status_of : AuthSession → Time → Status
  status_of row now = record {
    authenticated = true;
    user = some row.username;
    server_time = now;
    idle_expires_at = some (min (idle_end row) (absolute_end row));
    absolute_expires_at = some (absolute_end row);
    reason = none;
  }

  abbrev pub no_status : Reason → Time → Status
  no_status reason now = record {
    authenticated = false;
    user = none;
    server_time = now;
    idle_expires_at = none;
    absolute_expires_at = none;
    reason = some reason;
  }

  -- `_reason`: why a row does not authenticate, if it does not.
  unfoldable pub reason_for : Option AuthSession → Settings → Time → Option Reason
  reason_for none settings now = some logged_out
  reason_for (some row) settings now =
      if is_some row.revoked_at
      then some logged_out
      else if mismatches (settings.fingerprint row.username) row.credential_fingerprint
      then some credentials_changed
      else if leb (absolute_end row) now
      then some absolute_expired
      else if leb (idle_end row) now
      then some idle_expired
      else none

  -- A session whose credentials have changed is revoked when it is next used.
  unfoldable pub settle_reason : Reason → String → Time → Sessions → Sessions
  unfolding update_where
  settle_reason credentials_changed digest now rows =
      update_where (with_hash digest) (revoked now) rows
  settle_reason reason digest now rows = rows

  -- The outcome of a look at a row: its status, or the reason and what becomes of the rows.
  unfoldable pub look :
      Option Reason → Option AuthSession → String → Time → Sessions → Status × Sessions
  unfolding settle_reason
  look (some reason) row digest now rows =
      (no_status reason now, settle_reason reason digest now rows)
  look none none digest now rows = (no_status logged_out now, rows)
  look none (some row) digest now rows = (status_of row now, rows)

  unfoldable pub inspect : Settings → Time → Option String → Sessions → Status × Sessions
  unfolding hash reason_for look find
  inspect settings now token rows = elim (hash token) [
    | none ↦ (no_status authentication_required now, rows)
    | some digest ↦
        let row = find (with_hash digest) rows in
        look (reason_for row settings now) row digest now rows
  ]

  -- `valid`; `none` stands for settings that raise `ValueError`.
  unfoldable pub valid : Option Settings → Time → Option String → Sessions → Bool
  unfolding inspect
  valid none now token rows = false
  valid (some settings) now token rows = (inspect settings now token rows).0.authenticated

  -- `activity` on a row that authenticates moves its idle end.
  unfoldable pub touch :
      Option Reason → Option AuthSession → String → Time → Sessions → Status × Sessions
  unfolding settle_reason update_where
  touch (some reason) row digest now rows =
      (no_status reason now, settle_reason reason digest now rows)
  touch none none digest now rows = (no_status logged_out now, rows)
  touch none (some row) digest now rows =
      let active = record row { last_activity_at = now } in
      (status_of active now, update_where (with_hash digest) (λ _. active) rows)

  unfoldable pub activity : Settings → Time → Option String → Sessions → Status × Sessions
  unfolding hash reason_for touch find
  activity settings now token rows = elim (hash token) [
    | none ↦ (no_status authentication_required now, rows)
    | some digest ↦
        let row = find (with_hash digest) rows in
        touch (reason_for row settings now) row digest now rows
  ]

  -- A row that is not revoked yet is revoked.
  unfoldable pub revoke_active : Time → String → Sessions → Sessions
  unfolding update_where
  revoke_active now digest rows =
      update_where (λ row. with_hash digest row && is_active row) (revoked now) rows

  unfoldable pub logout : Time → Option String → Sessions → Status × Sessions
  unfolding hash revoke_active
  logout now token rows = elim (hash token) [
    | none ↦ (no_status logged_out now, rows)
    | some digest ↦ (no_status logged_out now, revoke_active now digest rows)
  ]

  -- `_cleanup`: the rows that are revoked or expired are deleted.
  abbrev pub is_dead : Time → AuthSession → Bool
  is_dead now row = is_some row.revoked_at || leb (absolute_end row) now || leb (idle_end row) now

  unfoldable pub cleanup : Time → Sessions → Sessions
  unfolding keep_if
  cleanup now rows = keep_if (λ row. not (is_dead now row)) rows

  -- `previous.revoked_at = now`, where the previous token has a session.
  unfoldable pub revoke_previous : Time → Option String → Sessions → Sessions
  unfolding hash update_where
  revoke_previous now previous rows = elim (hash previous) [
    | none ↦ rows
    | some digest ↦ update_where (with_hash digest) (revoked now) rows
  ]

  -- What `issue` leaves of the older sessions: no session of the user under other credentials, and
  -- none of the surplus.
  unfoldable pub make_room : Time → String → String → Option String → Sessions → Sessions
  unfolding cleanup revoke_previous surplus update_where any_of
  make_room now username fingerprint previous rows =
      let kept = revoke_previous now previous (cleanup now rows) in
      let current =
        update_where
          (λ row. is_active_of username row && not (str_eq row.credential_fingerprint fingerprint))
          (revoked now) kept in
      let extra = surplus username current in
      update_where (λ row. any_of (λ other. str_eq other.token_hash row.token_hash) extra)
        (revoked now) current

  abbrev pub new_session : String → String → String → Time → AuthSession
  new_session token username fingerprint now = record {
    token_hash = store.sha256 token;
    username = username;
    credential_fingerprint = fingerprint;
    created_at = now;
    last_activity_at = now;
    revoked_at = none;
  }

  pub data Issue : Type 0 where
    denied : Issue
    -- `TypeError` or `IntegrityError`; the transaction is rolled back.
    failed : Issue
    issued : String → Status → Issue

  -- The row is inserted where its key is free.
  unfoldable pub admit : String → Time → AuthSession → Sessions → Sessions → Issue × Sessions
  unfolding any_of
  admit token now row before rows =
      if any_of (with_hash row.token_hash) rows
      then (failed, before)
      else (issued token (status_of row now), rows ++ row ∷ [])

  -- With the user that was authenticated, and the fingerprint of the credentials.
  unfoldable pub issue_to :
      Time → String → Option String → Option String → Option String → Sessions → Issue × Sessions
  unfolding make_room admit
  issue_to now token previous none fingerprint rows = (denied, rows)
  issue_to now token previous (some username) none rows = (failed, rows)
  issue_to now token previous (some username) (some fingerprint) rows =
      admit token now (new_session token username fingerprint now) rows
        (make_room now username fingerprint previous rows)

  -- `token` is what `secrets.token_urlsafe(32)` returns.
  unfoldable pub issue :
      Settings → Time → String → String → String → Option String → Sessions → Issue × Sessions
  unfolding issue_to
  issue settings now token username password previous rows =
      let user = settings.authenticate username password in
      issue_to now token previous user (fingerprint_of settings user) rows
