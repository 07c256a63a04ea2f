-- ===== src/AuthSessions/Revoked.antt =====
-- auth_sessions.py: revoked sessions under the operations of `SessionStore`.
use swarmboard.Prelude.{
  ◌≡◌, refl, subst, ap, String, Bool, true, false, ◌&&◌, not, Option, none, some, [], ◌∷◌, All,
  All-append, All-update, All-keep_if, arith, find, find-holds, update_where, any_of, str_eq,
  eq_iff, Bool-cases, Option-cases, inl, inr,
}
use swarmboard.Models.{Time}
use swarmboard.AuthSessions.{
  AuthSession, Sessions, Settings, SessionStore, Reason, logged_out, authentication_required,
  credentials_changed, absolute_expired, idle_expired, with_hash, is_active, revoked, hash,
  reason_for, settle_reason, look, inspect, touch, activity, revoke_active, logout, is_dead,
  cleanup, revoke_previous, make_room, new_session, admit, issue_to,
}

-- No row under this hash is active.
abbrev pub Barred : String → AuthSession → Type 0
Barred digest row = with_hash digest row ≡ true → is_active row ≡ false

abbrev pub IsOut : String → Sessions → Type 0
IsOut digest rows = All (Barred digest) rows

-- Revoking rows bars no fewer.
IsOut-revoked :
    (digest : String) (q : AuthSession → Bool) (now : Time) (rows : Sessions)
    → IsOut digest rows
    → IsOut digest (update_where q (revoked now) rows)
IsOut-revoked digest q now rows a =
    All-update (Barred digest) (Barred digest) q (revoked now) rows (λ row e b h. refl)
      (λ row e b. b) a

module _ (store : SessionStore) (digest : String) where
  IsOut-settle :
      (r : Reason) (other : String) (now : Time) (rows : Sessions)
      → IsOut digest rows
      → IsOut digest (settle_reason store r other now rows)
  unfolding settle_reason
  IsOut-settle credentials_changed other now rows a =
      IsOut-revoked digest (with_hash other) now rows a
  IsOut-settle authentication_required other now rows a = a
  IsOut-settle logged_out other now rows a = a
  IsOut-settle absolute_expired other now rows a = a
  IsOut-settle idle_expired other now rows a = a

  -- A barred row is found, if one is, but has been logged out.
  pub reason_for-barred :
      (rows : Sessions) (settings : Settings) (now : Time)
      → IsOut digest rows
      → reason_for store (find (with_hash digest) rows) settings now ≡ some logged_out
  unfolding find reason_for
  reason_for-barred [] settings now a = refl
  reason_for-barred (row ∷ rows) settings now a = elim (Bool-cases (str_eq row.token_hash digest)) [
    | inl e ↦ rw e (ground (arith, a.0 e))
    | inr e ↦ rw e (reason_for-barred rows settings now a.1)
  ]

  IsOut-look :
      (o : Option Reason) (row : Option AuthSession) (other : String) (now : Time) (rows : Sessions)
      → IsOut digest rows
      → IsOut digest (look store o row other now rows).1
  unfolding look
  IsOut-look (some r) row other now rows a = IsOut-settle r other now rows a
  IsOut-look none none other now rows a = a
  IsOut-look none (some row) other now rows a = a

  pub IsOut-inspect :
      (settings : Settings) (now : Time) (token : Option String) (rows : Sessions)
      → IsOut digest rows
      → IsOut digest (inspect store settings now token rows).1
  unfolding inspect
  IsOut-inspect settings now token rows a = elim (Option-cases (hash store token)) [
    | inl e ↦ rw (inspect, e) a
    | inr (other, e) ↦ rw (inspect, e) (IsOut-look _ _ other now rows a)
  ]

  IsOut-touch :
      (settings : Settings) (other : String) (now : Time) (rows : Sessions) (r : Option Reason)
      (o : Option AuthSession)
      → find (with_hash other) rows ≡ o
      → reason_for store o settings now ≡ r
      → IsOut digest rows
      → IsOut digest (touch store r o other now rows).1
  unfolding touch
  IsOut-touch settings other now rows (some r) o f e a = IsOut-settle r other now rows a
  IsOut-touch settings other now rows none none f e a = a
  IsOut-touch settings other now rows none (some row) f e a =
      All-update (Barred digest) (Barred digest) (with_hash other) _ rows
        (λ x m b h. absurd (clash h)) (λ x m b. b) a
    where
      clash : with_hash digest row ≡ true → ⊥
      clash h =
          let same : digest ≡ other = ground (
            arith,
            eq_iff row.token_hash digest,
            eq_iff row.token_hash other,
            find-holds (with_hash other) rows row f,
          ) in
          let barred = reason_for-barred rows settings now a in
          ground (
            arith,
            subst (λ d. reason_for store (find (with_hash d) rows) settings now ≡ some logged_out)
                same barred,
            ap (λ x. reason_for store x settings now) f,
            e,
          )

  pub IsOut-activity :
      (settings : Settings) (now : Time) (token : Option String) (rows : Sessions)
      → IsOut digest rows
      → IsOut digest (activity store settings now token rows).1
  unfolding activity
  IsOut-activity settings now token rows a = elim (Option-cases (hash store token)) [
    | inl e ↦ rw (activity, e) a
    | inr (other, e) ↦ rw (activity, e) (IsOut-touch settings other now rows _ _ refl refl a)
  ]

  pub IsOut-logout :
      (now : Time) (token : Option String) (rows : Sessions)
      → IsOut digest rows
      → IsOut digest (logout store now token rows).1
  unfolding logout revoke_active
  IsOut-logout now token rows a = elim (Option-cases (hash store token)) [
    | inl e ↦ rw (logout, e) a
    | inr (other, e) ↦
        rw (logout, e)
          (IsOut-revoked digest (λ row. with_hash other row && is_active row) now rows a)
  ]

  pub IsOut-cleanup :
      (now : Time) (rows : Sessions) → IsOut digest rows → IsOut digest (cleanup store now rows)
  unfolding cleanup
  IsOut-cleanup now rows a =
      All-keep_if (Barred digest) (Barred digest) (λ row. not (is_dead store now row)) rows
        (λ row e b. b) a

  IsOut-previous :
      (now : Time) (previous : Option String) (rows : Sessions)
      → IsOut digest rows
      → IsOut digest (revoke_previous store now previous rows)
  unfolding revoke_previous
  IsOut-previous now previous rows a = elim (Option-cases (hash store previous)) [
    | inl e ↦ rw (revoke_previous, e) a
    | inr (other, e) ↦ rw (revoke_previous, e) (IsOut-revoked digest (with_hash other) now rows a)
  ]

  IsOut-make_room :
      (now : Time) (user fingerprint : String) (previous : Option String) (rows : Sessions)
      → IsOut digest rows
      → IsOut digest (make_room store now user fingerprint previous rows)
  unfolding make_room
  IsOut-make_room now user fingerprint previous rows a =
      IsOut-revoked digest _ now _
        (IsOut-revoked digest _ now _ (IsOut-previous now previous _ (IsOut-cleanup now rows a)))

  IsOut-admit :
      (token : String) (now : Time) (row : AuthSession) (before room : Sessions)
      → str_eq row.token_hash digest ≡ false
      → IsOut digest before
      → IsOut digest room
      → IsOut digest (admit store token now row before room).1
  unfolding admit
  IsOut-admit token now row before room d a b =
      elim (Bool-cases (any_of (with_hash row.token_hash) room)) [
        | inl e ↦ rw e a
        | inr e ↦
            rw e (All-append (Barred digest) room (row ∷ []) b ((λ h. absurd (ground arith)), tt))
      ]

  pub IsOut-issue_to :
      (now : Time) (token : String) (previous user fingerprint : Option String) (rows : Sessions)
      → str_eq (store.sha256 token) digest ≡ false
      → IsOut digest rows
      → IsOut digest (issue_to store now token previous user fingerprint rows).1
  unfolding issue_to
  IsOut-issue_to now token previous none fingerprint rows d a = a
  IsOut-issue_to now token previous (some user) none rows d a = a
  IsOut-issue_to now token previous (some user) (some f) rows d a =
      IsOut-admit token now (new_session store token user f now) rows _ d a
        (IsOut-make_room now user f previous rows a)
