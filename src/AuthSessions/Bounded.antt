-- ===== src/AuthSessions/Bounded.antt =====
-- auth_sessions.py, `issue`: the sessions of the user after a login.
use swarmboard.Prelude.{
  ℕ, zero, suc, ◌+◌, ◌≤◌, ◌≡◌, ◌∙◌, refl, ap, subst, String, Bool, true, false, ◌&&◌, not, Option,
  none, some, List, [], ◌∷◌, ◌++◌, take, drop, All, All-mono, arith, count_if, keep_if,
  update_where, any_of, str_eq, eq_iff, Bool-cases, inl, inr,
}
use swarmboard.Models.{Time}
use swarmboard.Sorting.{insert_by, sort_by}
use swarmboard.AuthSessions.{
  AuthSession, Sessions, SessionStore, Settings, issued, Status, max_user_sessions, is_active_of,
  revoked, surplus, newer, with_hash, make_room, new_session, admit, issue_to, issue,
  fingerprint_of,
}

module _ {A : Type 0} where
  count_if-append :
      (p : A → Bool) (xs ys : List A) → count_if p (xs ++ ys) ≡ count_if p xs + count_if p ys
  unfolding count_if
  count_if-append p [] ys = omega arith
  count_if-append p (x ∷ xs) ys = omega (arith, count_if-append p xs ys)

  count_if-insert_by :
      (p : A → Bool) (before : A → A → Bool) (x : A) (xs : List A)
      → count_if p (insert_by before x xs) ≡ count_if p (x ∷ xs)
  unfolding count_if insert_by
  count_if-insert_by p before x [] = refl
  count_if-insert_by p before x (y ∷ ys) = elim (Bool-cases (before y x)) [
    | inl e ↦ rw e (omega (arith, count_if-insert_by p before x ys))
    | inr e ↦ rw e refl
  ]

  count_if-sort_by :
      (p : A → Bool) (before : A → A → Bool) (xs : List A)
      → count_if p (sort_by before xs) ≡ count_if p xs
  unfolding count_if sort_by
  count_if-sort_by p before [] = refl
  count_if-sort_by p before (x ∷ xs) =
      count_if-insert_by p before x (sort_by before xs)
      ∙ omega (arith, count_if-sort_by p before xs)

  count_if-keep_if :
      (p q : A → Bool) (xs : List A) → count_if p (keep_if q xs) ≡ count_if (λ x. q x && p x) xs
  unfolding count_if keep_if
  count_if-keep_if p q [] = refl
  count_if-keep_if p q (x ∷ xs) = elim (Bool-cases (q x)) [
    | inl e ↦ rw e (omega (arith, count_if-keep_if p q xs))
    | inr e ↦ rw e (omega (arith, count_if-keep_if p q xs))
  ]

  count_if-take : (p : A → Bool) (n : ℕ) (xs : List A) → count_if p (take n xs) ≤ n
  unfolding count_if
  count_if-take p zero xs = omega arith
  count_if-take p (suc n) [] = omega arith
  count_if-take p (suc n) (x ∷ xs) = ground (arith, count_if-take p n xs)

  count_if-none : (p : A → Bool) (xs : List A) → All (λ x. p x ≡ false) xs → count_if p xs ≡ 0
  unfolding count_if
  count_if-none p [] a = refl
  count_if-none p (x ∷ xs) a = ground (arith, a.0, count_if-none p xs a.1)

  take-drop : (n : ℕ) (xs : List A) → take n xs ++ drop n xs ≡ xs
  take-drop zero xs = refl
  take-drop (suc n) [] = refl
  take-drop (suc n) (x ∷ xs) = ap (λ ys. x ∷ ys) (take-drop n xs)

  -- Of the elements, those past the first `n` fail the test, so at most `n` pass it.
  count_if-cut :
      (p : A → Bool) (n : ℕ) (xs : List A) → All (λ x. p x ≡ false) (drop n xs) → count_if p xs ≤ n
  count_if-cut p n xs a =
      subst (λ ys. count_if p ys ≤ n) (take-drop n xs)
        (omega (
          arith,
          count_if-append p (take n xs) (drop n xs),
          count_if-take p n xs,
          count_if-none p (drop n xs) a,
        ))

abbrev listed_in : Sessions → AuthSession → Bool
listed_in extra row = any_of (λ other. str_eq other.token_hash row.token_hash) extra

All-listed : (extra : Sessions) → All (λ row. listed_in extra row ≡ true) extra
unfolding any_of
All-listed [] = tt
All-listed (x ∷ xs) = (
  ground (arith, eq_iff x.token_hash x.token_hash),
  All-mono (λ row. listed_in xs row ≡ true) _ xs (λ row h. ground (arith, h)) (All-listed xs),
)

-- Of the rows that are revoked where `q` holds, the active ones are those where it does not.
count_active :
    (username : String) (q : AuthSession → Bool) (now : Time) (rows : Sessions)
    → count_if (is_active_of username) (update_where q (revoked now) rows)
      ≡ count_if (λ row. is_active_of username row && not (q row)) rows
unfolding count_if update_where
count_active username q now [] = refl
count_active username q now (row ∷ rows) = elim (Bool-cases (q row)) [
  | inl e ↦ ground (arith, count_active username q now rows)
  | inr e ↦ ground (arith, count_active username q now rows)
]

surplus-bound :
    (username : String) (now : Time) (rows : Sessions)
    → count_if
        (is_active_of username)
        (update_where (listed_in (surplus username rows)) (revoked now) rows)
      ≤ 19
unfolding surplus
surplus-bound username now rows =
    let sorted = sort_by newer (keep_if (is_active_of username) rows) in
    let spared = λ (row : AuthSession). not (listed_in (drop 19 sorted) row) in
    omega (
      arith,
      count_active username (listed_in (drop 19 sorted)) now rows,
      count_if-keep_if spared (is_active_of username) rows,
      count_if-sort_by spared newer (keep_if (is_active_of username) rows),
      count_if-cut spared 19 sorted (
          All-mono _ _ (drop 19 sorted) (λ row h. ground (arith, h)) (All-listed (drop 19 sorted))),
    )

make_room-bound :
    (store : SessionStore) (now : Time) (user fingerprint : String) (previous : Option String)
    (rows : Sessions)
    → count_if (is_active_of user) (make_room store now user fingerprint previous rows) ≤ 19
unfolding make_room
make_room-bound store now user fingerprint previous rows = surplus-bound user now _

admit-bound :
    (store : SessionStore) (token drawn user : String) (now : Time) (row : AuthSession)
    (before room after : Sessions) (status : Status)
    → count_if (is_active_of user) room ≤ 19
    → admit store token now row before room ≡ (issued drawn status, after)
    → count_if (is_active_of user) after ≤ 20
unfolding admit
admit-bound store token drawn user now row before room after status l h =
    elim (Bool-cases (any_of (with_hash row.token_hash) room)) [
      | inl e ↦ absurd (ground (arith, ap (λ r. r.0) (rw e at h)))
      | inr e ↦
          subst (λ xs. count_if (is_active_of user) xs ≤ 20) (ap (λ r. r.1) (rw e at h))
            (omega (
              arith,
              l,
              count_if-append (is_active_of user) room (row ∷ []),
              count_if-take (is_active_of user) 1 (row ∷ []),
            ))
    ]

issue_to-bound :
    (store : SessionStore) (now : Time) (token drawn user : String) (previous : Option String)
    (fingerprint : Option String) (rows after : Sessions) (status : Status)
    → issue_to store now token previous (some user) fingerprint rows ≡ (issued drawn status, after)
    → count_if (is_active_of user) after ≤ 20
unfolding issue_to
issue_to-bound store now token drawn user previous none rows after status h =
    absurd (ground (arith, ap (λ r. r.0) h))
issue_to-bound store now token drawn user previous (some f) rows after status h =
    admit-bound store token drawn user now (new_session store token user f now) rows
      (make_room store now user f previous rows) after status
      (make_room-bound store now user f previous rows) h

-- After a login that returns a token, the user that was authenticated has at most twenty sessions
-- that are not revoked.
pub issue-bound :
    (store : SessionStore) (settings : Settings) (now : Time)
    (token username password user : String) (previous : Option String) (rows after : Sessions)
    (drawn : String) (status : Status)
    → settings.authenticate username password ≡ some user
    → issue store settings now token username password previous rows ≡ (issued drawn status, after)
    → count_if (is_active_of user) after ≤ max_user_sessions
unfolding issue
issue-bound store settings now token username password user previous rows after drawn status u h =
    issue_to-bound store now token drawn user previous (fingerprint_of settings (some user)) rows
      after status (rw u at h)
