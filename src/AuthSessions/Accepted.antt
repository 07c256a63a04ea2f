-- ===== src/AuthSessions/Accepted.antt =====
-- auth_sessions.py, `inspect`: when a token authenticates.
use swarmboard.Prelude.{
  ◌<◌, ◌≡◌, ◌↔◌, refl, sym, subst, String, true, Option, none, some, arith, find, eq_iff,
  Option-cases, inl, inr, some-inj,
}
use swarmboard.Models.{Time}
use swarmboard.AuthSessions.{
  AuthSession, Sessions, Settings, SessionStore, logged_out, with_hash, hash, absolute_end,
  idle_end, reason_for, look, inspect,
}

module _ (store : SessionStore) where
  -- The session is not revoked, its credentials are the current ones, and neither of its ends has
  -- come.
  pub record IsLive (settings : Settings) (now : Time) (row : AuthSession) : Type 0 where
    pub active : row.revoked_at ≡ none
    pub current : settings.fingerprint row.username ≡ some row.credential_fingerprint
    pub before_absolute : now < absolute_end store row
    pub before_idle : now < idle_end store row

  reason_for-only :
      (row : AuthSession) (settings : Settings) (now : Time)
      → reason_for store (some row) settings now ≡ none
      → IsLive settings now row
  unfolding reason_for
  reason_for-only row settings now h = elim (Option-cases row.revoked_at) [
    | inr (t, r) ↦ absurd (ground arith)
    | inl r ↦ elim (Option-cases (settings.fingerprint row.username)) [
      | inl n ↦ absurd (ground arith)
      | inr (f, e) ↦ record {
        active = r;
        current = ground (arith, eq_iff f row.credential_fingerprint);
        before_absolute = ground arith;
        before_idle = ground arith;
      }
    ]
  ]

  pub reason_for-if :
      (row : AuthSession) (settings : Settings) (now : Time)
      → IsLive settings now row
      → reason_for store (some row) settings now ≡ none
  unfolding reason_for
  reason_for-if row settings now l = ground (
    arith,
    l.active,
    l.current,
    l.before_absolute,
    l.before_idle,
    eq_iff row.credential_fingerprint row.credential_fingerprint,
  )

  reason_for-none :
      (settings : Settings) (now : Time) → reason_for store none settings now ≡ some logged_out
  unfolding reason_for
  reason_for-none settings now = refl

  look-IsLive :
      (o : Option AuthSession) (settings : Settings) (digest : String) (now : Time)
      (rows : Sessions)
      → ((look store (reason_for store o settings now) o digest now rows).0.authenticated ≡ true)
        ↔ ((row : AuthSession) × (o ≡ some row) × IsLive settings now row)
  unfolding look
  look-IsLive none settings digest now rows = (
    (λ h. absurd (ground (arith, reason_for-none settings now))),
    (λ (row, e, l). absurd (ground arith)),
  )
  look-IsLive (some row) settings digest now rows = (
    (λ h. elim (Option-cases (reason_for store (some row) settings now)) [
      | inl n ↦ (row, refl, reason_for-only row settings now n)
      | inr (r, e) ↦ absurd (ground arith)
    ]),
    (λ (x, e, l).
        ground (
          arith,
          reason_for-if row settings now (subst (IsLive settings now) (sym (some-inj e)) l),
        )),
  )

  -- A token authenticates exactly when it has a session that is not revoked, has the user's current
  -- credentials and has reached neither its idle nor its absolute end.
  pub inspect-IsLive :
      (settings : Settings) (now : Time) (token : Option String) (digest : String) (rows : Sessions)
      → hash store token ≡ some digest
      → ((inspect store settings now token rows).0.authenticated ≡ true) ↔ (
          (row : AuthSession) × (find (with_hash digest) rows ≡ some row) × IsLive settings now row)
  unfolding inspect
  inspect-IsLive settings now token digest rows h =
      rw (inspect, h) (look-IsLive (find (with_hash digest) rows) settings digest now rows)
