-- ===== src/Auth/Session/History.antt =====
-- What a session answers, read off the calls that were made on it.
use cx_framework.Base.{
  ℕ, ◌≡◌, ◌+◌, inl, inr, refl, ◌&&◌, Option, none, some, List, [], ◌∷◌, String, lookup,
  lookup-insert, nat_eq, ltb, ◌==◌, if◌then◌else◌, arith, Option-cases,
}
use cx_framework.Auth.Reason.{AuthReason, expired, unauthenticated, is_authenticated_reason}
use cx_framework.Auth.Password.{Digests}
use cx_framework.Auth.Account.{Backend}
use cx_framework.Auth.Session.{
  Session, Request, Times, AuthenticationPolicy, CurrentAuthentication, new_session,
  get_current_authentication, is_authenticated, update_last_activity, ask, authenticate,
  set_last_activity, regen_session_id, set_auth_user, set_session_id,
  set_index_authentication_policy, set_authenticator,
}

-- A call of a member that changes the session. The accounts that an authenticator finds are those at
-- the time of the call.
pub data Call : Type 0 where
  authenticates : (ℕ → Backend) → Request → Times → Call
  sets_authenticator : Option ℕ → Call
  sets_policy : ℕ → AuthenticationPolicy → Call
  sets_user : String → Call
  sets_id : String → Call
  regenerates_id : String → Call
  sets_activity : ℕ → Call
  updates_activity : ℕ → Call

module _ (d : Digests) where
  unfoldable pub apply : Call → Session → Session
  apply (authenticates heap r t) s = (authenticate d heap r t s).0
  apply (sets_authenticator p) s = set_authenticator p s
  apply (sets_policy i policy) s = set_index_authentication_policy i policy s
  apply (sets_user user) s = set_auth_user user s
  apply (sets_id id) s = set_session_id id s
  apply (regenerates_id id) s = regen_session_id id s
  apply (sets_activity t) s = set_last_activity t s
  apply (updates_activity t) s = update_last_activity t s

  -- The session after some calls, the latest first, on a new one.
  unfoldable pub session_after : Session → List Call → Session
  session_after s [] = s
  session_after s (c ∷ earlier) = apply c (session_after s earlier)

  -- The authenticator set last.
  abbrev pub authenticator_in : List Call → Option ℕ
  authenticator_in [] = none
  authenticator_in (sets_authenticator p ∷ earlier) = p
  authenticator_in (_ ∷ earlier) = authenticator_in earlier

  -- The outcome and the time of the last attempt at an index that reached an authenticator.
  unfoldable pub last_attempt : ℕ → List Call → Option (AuthReason × ℕ)
  last_attempt i [] = none
  last_attempt i (authenticates heap r t ∷ earlier) =
      let before = last_attempt i earlier in
      elim (authenticator_in earlier) [
        | none ↦ before
        | some p ↦ if r.index == i then some (ask d heap p r t, t.at_matrix) else before
      ]
  last_attempt i (_ ∷ earlier) = last_attempt i earlier

  -- The seconds that an authentication at an index is valid for by the last policy, or 0.
  unfoldable pub validity : ℕ → List Call → ℕ
  validity i [] = 0
  validity i (sets_policy j policy ∷ earlier) =
      if j == i then policy.valid_time else validity i earlier
  validity i (_ ∷ earlier) = validity i earlier

  -- The verdict on an attempt.
  abbrev pub verdict : Option (AuthReason × ℕ) → ℕ → ℕ → AuthReason
  verdict none valid now = unauthenticated
  verdict (some (reason, time)) valid now =
      if is_authenticated_reason reason && ltb 0 valid && ltb (time + valid) now
      then expired
      else reason

  abbrev attempt_of : Option CurrentAuthentication → Option (AuthReason × ℕ)
  attempt_of none = none
  attempt_of (some c) = some (c.last_auth_reason, c.auth_time)

  abbrev validity_of : Option AuthenticationPolicy → ℕ
  validity_of none = 0
  validity_of (some policy) = policy.valid_time

  authenticate_keeps :
      (heap : ℕ → Backend) (r : Request) (t : Times) (s : Session)
      → ((authenticate d heap r t s).0.authenticator ≡ s.authenticator)
        × ((authenticate d heap r t s).0.auth_policies ≡ s.auth_policies)
  unfolding authenticate
  authenticate_keeps heap r t s = ground arith

  -- The entry of an index after an attempt.
  authenticate_entry :
      (heap : ℕ → Backend) (r : Request) (t : Times) (s : Session) (i : ℕ)
      → attempt_of (lookup i (authenticate d heap r t s).0.auth_matrix) ≡ (elim s.authenticator [
        | none ↦ attempt_of (lookup i s.auth_matrix)
        | some p ↦
            if r.index == i
            then some (ask d heap p r t, t.at_matrix)
            else attempt_of (lookup i s.auth_matrix)
      ])
  unfolding authenticate
  authenticate_entry heap r t s i = elim (Option-cases s.authenticator) [
    | inl e ↦ rw (e, authenticate)
    | inr (p, e) ↦
        rw (e, authenticate)
          (ground (
            arith,
            lookup-insert r.index i
                (record { last_auth_reason = ask d heap p r t; auth_time = t.at_matrix })
                s.auth_matrix,
          ))
  ]

  module _ (id : String) (first last : ℕ) where
    abbrev pub after : List Call → Session
    after calls = session_after (new_session id first last) calls

    pub after-authenticator :
        (calls : List Call) → (after calls).authenticator ≡ authenticator_in calls
    unfolding session_after apply set_authenticator set_index_authentication_policy set_auth_user
        set_session_id regen_session_id set_last_activity update_last_activity
    after-authenticator [] = refl
    after-authenticator (authenticates heap r t ∷ calls) =
        ground (arith, authenticate_keeps heap r t (after calls), after-authenticator calls)
    after-authenticator (sets_authenticator p ∷ calls) = refl
    after-authenticator (_ ∷ calls) = after-authenticator calls

    after-attempt :
        (i : ℕ) (calls : List Call)
        → attempt_of (lookup i (after calls).auth_matrix) ≡ last_attempt i calls
    unfolding session_after apply last_attempt set_authenticator set_index_authentication_policy
        set_auth_user set_session_id regen_session_id set_last_activity update_last_activity lookup
    after-attempt i [] = refl
    after-attempt i (authenticates heap r t ∷ calls) = ground (
      arith,
      authenticate_entry heap r t (after calls) i,
      after-authenticator calls,
      after-attempt i calls,
    )
    after-attempt i (_ ∷ calls) = after-attempt i calls

    after-validity :
        (i : ℕ) (calls : List Call)
        → validity_of (lookup i (after calls).auth_policies) ≡ validity i calls
    unfolding session_after apply validity set_authenticator set_index_authentication_policy
        set_auth_user set_session_id regen_session_id set_last_activity update_last_activity lookup
    after-validity i [] = refl
    after-validity i (authenticates heap r t ∷ calls) =
        ground (arith, authenticate_keeps heap r t (after calls), after-validity i calls)
    after-validity i (sets_policy j policy ∷ calls) =
        ground (arith, lookup-insert j i policy (after calls).auth_policies, after-validity i calls)
    after-validity i (_ ∷ calls) = after-validity i calls

    -- After any calls, `isAuthenticated` answers for an index what the last attempt there that
    -- reached an authenticator came to, `EXPIRED` in place of a success whose validity under the
    -- last policy of the index has passed, and `UNAUTHENTICATED` if there was no such attempt.
    pub is_authenticated-session_after :
        (i now : ℕ) (calls : List Call)
        → is_authenticated (after calls) i now
          ≡ verdict (last_attempt i calls) (validity i calls) now
    unfolding is_authenticated get_current_authentication
    is_authenticated-session_after i now calls =
        ground (arith, after-attempt i calls, after-validity i calls)
