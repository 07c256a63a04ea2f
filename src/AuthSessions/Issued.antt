-- ===== src/AuthSessions/Issued.antt =====
-- auth_sessions.py, `issue` and a later `inspect` of the token.
use swarmboard.Prelude.{
  ◌+◌, ◌<◌, ◌≡◌, ◌∙◌, refl, ap, subst, String, true, false, Option, none, some, [], ◌∷◌, arith,
  find, find-append, any_of, eq_iff, Bool-cases, inl, inr,
}
use swarmboard.Models.{Time}
use swarmboard.AuthSessions.{
  AuthSession, Sessions, Settings, SessionStore, issued, Status, with_hash, hash, seconds, inspect,
  make_room, new_session, admit, issue_to, issue,
}
use swarmboard.AuthSessions.Accepted.{inspect-IsLive}

find-none :
    (digest : String) (rows : Sessions)
    → any_of (with_hash digest) rows ≡ false
    → find (with_hash digest) rows ≡ none
unfolding any_of find
find-none digest [] h = refl
find-none digest (row ∷ rows) h = ground (arith, find-none digest rows)

find-only : (row : AuthSession) → find (with_hash row.token_hash) (row ∷ []) ≡ some row
unfolding find
find-only row = ground (arith, eq_iff row.token_hash row.token_hash)

admit-found :
    (store : SessionStore) (token drawn : String) (now : Time) (row : AuthSession)
    (before room after : Sessions) (status : Status)
    → admit store token now row before room ≡ (issued drawn status, after)
    → find (with_hash row.token_hash) after ≡ some row
unfolding admit
admit-found store token drawn now row before room after status h =
    elim (Bool-cases (any_of (with_hash row.token_hash) room)) [
      | inl e ↦ absurd (ground (arith, ap (λ r. r.0) (rw e at h)))
      | inr e ↦
          subst (λ rows. find (with_hash row.token_hash) rows ≡ some row)
            (ap (λ r. r.1) (rw e at h))
            (find-append (with_hash row.token_hash) room (row ∷ []) (find-none _ room e)
              ∙ find-only row)
    ]

-- A login that returns a token returns the one that was drawn.
admit-drawn :
    (store : SessionStore) (token drawn : String) (now : Time) (row : AuthSession)
    (before room after : Sessions) (status : Status)
    → admit store token now row before room ≡ (issued drawn status, after)
    → token ≡ drawn
unfolding admit
admit-drawn store token drawn now row before room after status h =
    elim (Bool-cases (any_of (with_hash row.token_hash) room)) [
      | inl e ↦ absurd (ground (arith, ap (λ r. r.0) (rw e at h)))
      | inr e ↦ ground (arith, ap (λ r. r.0) (rw e at h))
    ]

module _ (store : SessionStore) where
  hash-token :
      (token : String)
      → store.is_token token ≡ true
      → hash store (some token) ≡ some (store.sha256 token)
  unfolding hash
  hash-token token h = rw h refl

  -- The token that a login returns authenticates with the same credentials at every later time that
  -- is before its absolute and its idle end.
  pub issue-authenticates :
      (settings : Settings) (now later : Time) (token username password user fingerprint : String)
      (previous : Option String) (rows after : Sessions) (drawn : String) (status : Status)
      → store.is_token token ≡ true
      → settings.authenticate username password ≡ some user
      → settings.fingerprint user ≡ some fingerprint
      → issue store settings now token username password previous rows
        ≡ (issued drawn status, after)
      → later < now + seconds store.absolute_seconds
      → later < now + seconds store.idle_seconds
      → (inspect store settings later (some drawn) after).0.authenticated ≡ true
  unfolding issue issue_to
  issue-authenticates settings now later token username password user fingerprint previous rows
        after drawn status t u f h a i =
      let row = new_session store token user fingerprint now in
      let room = make_room store now user fingerprint previous rows in
      let admitted = rw f at (rw u at h) in
      subst (λ d. (inspect store settings later (some d) after).0.authenticated ≡ true)
        (admit-drawn store token drawn now row rows room after status admitted)
        ((inspect-IsLive store settings later (some token) (store.sha256 token) after
            (hash-token token t)).1
          (
            row,
            admit-found store token drawn now row rows room after status admitted,
            record { active = refl; current = f; before_absolute = a; before_idle = i },
          ))
