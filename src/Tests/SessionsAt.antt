-- ===== src/Tests/SessionsAt.antt =====
-- The theorems on login sessions at concrete inputs.
use swarmboard.Prelude.{
  ◌≤◌, ◌≡◌, ◌↔◌, refl, true, false, none, some, [], ◌∷◌, arith, find, count_if, str_eq,
  if◌then◌else◌,
}
use swarmboard.AuthSessions.{
  AuthSession, Sessions, Settings, SessionStore, with_hash, is_active_of, max_user_sessions,
  inspect, logout, issue,
}
use swarmboard.AuthSessions.Accepted.{IsLive, inspect-IsLive}
use swarmboard.AuthSessions.Bounded.{issue-bound}
use swarmboard.AuthSessions.Issued.{issue-authenticates}
use swarmboard.AuthSessions.Visits.{
  visit_inspect, visit_issue, visit_cleanup, visits, logout-for_good,
}

abbrev half_hour : SessionStore
half_hour = record {
  idle_seconds = 1800;
  absolute_seconds = 28800;
  is_token = λ s. true;
  sha256 = λ s. s;
}

abbrev one_user : Settings
one_user = record {
  fingerprint = λ user. if str_eq user "kim" then some "f" else none;
  authenticate = λ user password. if str_eq password "secret" then some user else none;
}

abbrev kim : AuthSession
kim = record {
  token_hash = "t";
  username = "kim";
  credential_fingerprint = "f";
  created_at = 0;
  last_activity_at = 0;
  revoked_at = none;
}

inspect-IsLive_example :
    ((inspect half_hour one_user 5 (some "t") (kim ∷ [])).0.authenticated ≡ true) ↔ (
      (row : AuthSession) × (find (with_hash "t") (kim ∷ []) ≡ some row)
      × IsLive half_hour one_user 5 row)
unfolding swarmboard.AuthSessions.hash
inspect-IsLive_example = inspect-IsLive half_hour one_user 5 (some "t") "t" (kim ∷ []) refl

issue-bound_example :
    count_if (is_active_of "kim") (issue half_hour one_user 9 "u" "kim" "secret" none (kim ∷ [])).1
    ≤ max_user_sessions
unfolding issue
issue-bound_example =
    issue-bound half_hour one_user 9 "u" "kim" "secret" "kim" none (kim ∷ []) _ "u" _ refl refl

issue-authenticates_example :
    (inspect half_hour one_user 10
      (some "u")
      (issue half_hour one_user 9 "u" "kim" "secret" none (kim ∷ [])).1).0.authenticated
    ≡ true
unfolding issue
issue-authenticates_example =
    issue-authenticates half_hour one_user 9 10 "u" "kim" "secret" "kim" "f" none (kim ∷ []) _ "u" _
      refl refl refl refl (omega arith) (omega arith)

logout-for_good_example :
    (inspect half_hour one_user 20 (some "t") (
      visits half_hour
        (visit_issue one_user 9 "u" "kim" "secret" none
          ∷ visit_inspect one_user 10 (some "t")
          ∷ visit_cleanup 11
          ∷ [])
        (logout half_hour 8 (some "t") (kim ∷ [])).1)).0.authenticated
    ≡ false
unfolding swarmboard.AuthSessions.hash
logout-for_good_example =
    logout-for_good half_hour (some "t") "t" 8 20 (kim ∷ [])
      (visit_issue one_user 9 "u" "kim" "secret" none
        ∷ visit_inspect one_user 10 (some "t")
        ∷ visit_cleanup 11
        ∷ [])
      one_user refl (refl, (tt, (tt, tt)))
