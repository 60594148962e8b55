-- ===== src/Auth/Session.antt =====
-- cxAuth/libcx_auth/src/iauth_session.h and iauth_session.cpp: a session, which keeps the outcome of
-- the last authentication for each password index. An authenticator is an address; what stands
-- there at a call is given with the call. The members of each operation run under one mutex.
pub mod History
pub mod Identity
mod Tests
use cx_framework.Base.{
  ℕ, Bool, true, false, not, ◌+◌, ◌-◌, ◌&&◌, Option, none, some, List, [], ◌∷◌, String, Bytes,
  lookup, insert, nat_eq, ltb, ◌==◌, if◌then◌else◌,
}
use cx_framework.Auth.Reason.{
  AuthReason, authenticated, expired, internal_error, unauthenticated, is_authenticated_reason,
  AuthMode,
}
use cx_framework.Auth.Password.{Digests}
use cx_framework.Auth.Account.{Backend}
use cx_framework.Auth.Account

-- `sAuthenticationPolicy`, whose only member is the number of seconds that an authentication is
-- valid for, 0 for ever.
pub record AuthenticationPolicy : Type 0 where
  pub valid_time : ℕ

-- `sCurrentAuthentication`.
pub record CurrentAuthentication : Type 0 where
  pub last_auth_reason : AuthReason
  pub auth_time : ℕ

-- `IAuth_Session`.
pub record Session : Type 0 where
  pub authenticator : Option ℕ
  pub auth_user : String
  pub auth_domain : String
  pub session_id : String
  pub auth_matrix : List (ℕ × CurrentAuthentication)
  pub auth_policies : List (ℕ × AuthenticationPolicy)
  pub first_activity : ℕ
  pub last_activity : ℕ

-- The constructor. It leaves the two times as they stand in memory; the identifier is random.
abbrev pub new_session : String → ℕ → ℕ → Session
new_session id first last = record {
  authenticator = none;
  auth_user = "";
  auth_domain = "";
  session_id = id;
  auth_matrix = [];
  auth_policies = [];
  first_activity = first;
  last_activity = last;
}

-- `operator=`, which keeps the last activity of the session that is assigned to.
pub assign : Session → Session → Session
assign this value = record value { last_activity = this.last_activity }

-- A default `sCurrentAuthentication` has no time set; it is not read.
pub get_current_authentication : Session → ℕ → CurrentAuthentication
get_current_authentication s index = elim (lookup index s.auth_matrix) [
  | none ↦ record { last_auth_reason = unauthenticated; auth_time = 0 }
  | some current ↦ current
]

-- The policy of an index has a time limit, which has passed.
policy_expired : Option AuthenticationPolicy → ℕ → ℕ → Bool
policy_expired none auth_time now = false
policy_expired (some policy) auth_time now =
    ltb 0 policy.valid_time && ltb (auth_time + policy.valid_time) now

pub is_authenticated : Session → ℕ → ℕ → AuthReason
unfolding policy_expired
is_authenticated s index now =
    let current = get_current_authentication s index in
    if is_authenticated_reason current.last_auth_reason
      && policy_expired (lookup index s.auth_policies) current.auth_time now
    then expired
    else current.last_auth_reason

pub update_last_activity : ℕ → Session → Session
update_last_activity now s = record s { last_activity = now }

-- The arguments of a call of `authenticate`.
pub record Request : Type 0 where
  pub account : String
  pub domain : String
  pub password : Bytes
  pub index : ℕ
  pub mode : AuthMode
  pub cram_salt : Bytes

-- The times at which a call reads the clock, in order: at the account's expiration, the password's,
-- in `setCurrentTime` and in `updateLastActivity`.
pub record Times : Type 0 where
  pub at_account : ℕ
  pub at_password : ℕ
  pub at_matrix : ℕ
  pub at_activity : ℕ

-- The entry that an outcome leaves for the index.
set_outcome : ℕ → AuthReason → ℕ → Session → Session
set_outcome index reason time s = record s {
  auth_matrix = insert index (record { last_auth_reason = reason; auth_time = time }) s.auth_matrix;
}

-- `updateLastActivity(); firstActivity = lastActivity;`, after a success.
touch : AuthReason → ℕ → Session → Session
unfolding update_last_activity
touch reason time s =
    if is_authenticated_reason reason
    then record (update_last_activity time s) {
      first_activity = (update_last_activity time s).last_activity;
    }
    else s

-- The main password names the user.
set_identity : Request → AuthReason → Session → Session
set_identity r reason s =
    if r.index == 0 && is_authenticated_reason reason
    then record s { auth_user = r.account; auth_domain = r.domain }
    else s

module _ (d : Digests) (heap : ℕ → Backend) where
  -- The call of `IAuth::authenticate` on the authenticator at an address.
  pub ask : ℕ → Request → Times → AuthReason
  ask p r t =
      Account.authenticate (heap p) d t.at_account t.at_password r.account r.domain r.password
        r.index r.mode r.cram_salt

  pub authenticate : Request → Times → Session → Session × AuthReason
  unfolding set_outcome touch set_identity
  authenticate r t s = elim s.authenticator [
    | none ↦ (s, internal_error)
    | some p ↦
        let reason = ask p r t in
        (
          set_identity r reason
              (touch reason t.at_activity (set_outcome r.index reason t.at_matrix s)),
          reason,
        )
  ]

-- The difference of times is signed, and below 0 no limit is passed.
pub is_last_activity_expired : Session → ℕ → ℕ → Bool
is_last_activity_expired s seconds now = ltb seconds (now - s.last_activity)

pub set_last_activity : ℕ → Session → Session
set_last_activity value s = record s { last_activity = value }

-- The text of two random numbers.
pub regen_session_id : String → Session → Session
regen_session_id id s = record s { session_id = id }

pub set_auth_user : String → Session → Session
set_auth_user value s = record s { auth_user = value }

pub set_session_id : String → Session → Session
set_session_id value s = record s { session_id = value }

pub set_index_authentication_policy : ℕ → AuthenticationPolicy → Session → Session
set_index_authentication_policy index policy s = record s {
  auth_policies = insert index policy s.auth_policies;
}

pub set_authenticator : Option ℕ → Session → Session
set_authenticator value s = record s { authenticator = value }
