-- ===== src/AuthSessions/Visits.antt =====
-- auth_sessions.py: sequences of uses of `SessionStore` after a `logout`.
use swarmboard.Prelude.{
  ◌≡◌, refl, String, false, ◌&&◌, Option, some, List, [], ◌∷◌, All, All-update, All-trivial, arith,
  str_eq,
}
use swarmboard.Models.{Time}
use swarmboard.AuthSessions.{
  Sessions, Settings, SessionStore, with_hash, is_active, revoked, hash, look, inspect, activity,
  revoke_active, logout, cleanup, issue, fingerprint_of,
}
use swarmboard.AuthSessions.Revoked.{
  Barred, IsOut, reason_for-barred, IsOut-inspect, IsOut-activity, IsOut-logout, IsOut-cleanup,
  IsOut-issue_to,
}

-- One use of the store, with its arguments and the time that it reads.
pub data Visit : Type 0 where
  visit_inspect visit_activity : Settings → Time → Option String → Visit
  visit_logout : Time → Option String → Visit
  visit_cleanup : Time → Visit
  visit_issue : Settings → Time → (token username password : String) → Option String → Visit

module _ (store : SessionStore) where
  -- What a use leaves of the sessions.
  unfoldable pub visit : Visit → Sessions → Sessions
  unfolding inspect activity logout cleanup issue
  visit (visit_inspect settings now token) rows = (inspect store settings now token rows).1
  visit (visit_activity settings now token) rows = (activity store settings now token rows).1
  visit (visit_logout now token) rows = (logout store now token rows).1
  visit (visit_cleanup now) rows = cleanup store now rows
  visit (visit_issue settings now token username password previous) rows =
      (issue store settings now token username password previous rows).1

  unfoldable pub visits : List Visit → Sessions → Sessions
  unfolding visit
  visits [] rows = rows
  visits (v ∷ vs) rows = visits vs (visit v rows)

  -- The visit draws no token with this hash.
  abbrev pub Spares : String → Visit → Type 0
  Spares digest (visit_issue settings now token username password previous) =
      str_eq (store.sha256 token) digest ≡ false
  Spares digest _ = Unit

  module _ (digest : String) where
    IsOut-visit :
        (v : Visit) (rows : Sessions)
        → Spares digest v
        → IsOut digest rows
        → IsOut digest (visit v rows)
    unfolding visit issue
    IsOut-visit (visit_inspect settings now token) rows s a =
        IsOut-inspect store digest settings now token rows a
    IsOut-visit (visit_activity settings now token) rows s a =
        IsOut-activity store digest settings now token rows a
    IsOut-visit (visit_logout now token) rows s a = IsOut-logout store digest now token rows a
    IsOut-visit (visit_cleanup now) rows s a = IsOut-cleanup store digest now rows a
    IsOut-visit (visit_issue settings now token username password previous) rows s a =
        let user = settings.authenticate username password in
        IsOut-issue_to store digest now token previous user (fingerprint_of settings user) rows s a

    IsOut-visits :
        (vs : List Visit) (rows : Sessions)
        → All (Spares digest) vs
        → IsOut digest rows
        → IsOut digest (visits vs rows)
    unfolding visits
    IsOut-visits [] rows s a = a
    IsOut-visits (v ∷ vs) rows s a = IsOut-visits vs (visit v rows) s.1 (IsOut-visit v rows s.0 a)

    revoke_active-IsOut :
        (now : Time) (rows : Sessions) → IsOut digest (revoke_active store now digest rows)
    unfolding revoke_active
    revoke_active-IsOut now rows =
        All-update (λ row. Unit {0}) (Barred digest) (λ row. with_hash digest row && is_active row)
          (revoked now) rows (λ row e u h. refl) (λ row e u h. ground arith)
          (All-trivial (λ row. Unit {0}) rows (λ row. tt))

    inspect-out :
        (settings : Settings) (now : Time) (token : Option String) (rows : Sessions)
        → hash store token ≡ some digest
        → IsOut digest rows
        → (inspect store settings now token rows).0.authenticated ≡ false
    unfolding inspect look
    inspect-out settings now token rows h a =
        rw (inspect, h) (rw (reason_for-barred store digest rows settings now a) refl)

  -- After a logout the token never authenticates again, under whatever settings and at whatever
  -- time, and however the store is used in between, while no login draws a token with its hash.
  pub logout-for_good :
      (token : Option String) (digest : String) (now later : Time) (rows : Sessions)
      (vs : List Visit) (settings : Settings)
      → hash store token ≡ some digest
      → All (Spares digest) vs
      → (inspect store settings later token
          (visits vs (logout store now token rows).1)).0.authenticated
        ≡ false
  unfolding logout
  logout-for_good token digest now later rows vs settings h s =
      inspect-out digest settings later token (visits vs (logout store now token rows).1) h
        (IsOut-visits digest vs _ s (rw (logout, h) (revoke_active-IsOut digest now rows)))
