-- ===== src/Auth/Session/Identity.antt =====
-- The user and the activity of a session, read off the calls that were made on it.
use cx_framework.Base.{
  ℕ, Bool, false, ◌≡◌, refl, ◌&&◌, none, some, List, [], ◌∷◌, String, nat_eq, ◌==◌, if◌then◌else◌,
  arith,
}
use cx_framework.Auth.Reason.{is_authenticated_reason}
use cx_framework.Auth.Password.{Digests}
use cx_framework.Auth.Account.{Backend}
use cx_framework.Auth.Session.{
  Session, Request, Times, update_last_activity, ask, authenticate, set_last_activity,
  regen_session_id, set_auth_user, set_session_id, set_index_authentication_policy,
  set_authenticator,
}
use cx_framework.Auth.Session.History.{
  Call, authenticates, sets_user, sets_activity, updates_activity, apply, session_after,
  authenticator_in, after, after-authenticator,
}

module _ (d : Digests) where
  -- Whether an attempt, after some calls, reaches an authenticator and succeeds.
  unfoldable pub succeeds : (ℕ → Backend) → Request → Times → List Call → Bool
  succeeds heap r t earlier = elim (authenticator_in d earlier) [
    | none ↦ false
    | some p ↦ is_authenticated_reason (ask d heap p r t)
  ]

  -- The user and the domain: of the last success with the main password, or as set since.
  unfoldable pub identity_in : List Call → String × String
  identity_in [] = ("", "")
  identity_in (authenticates heap r t ∷ earlier) =
      let before = identity_in earlier in
      if succeeds heap r t earlier && r.index == 0 then (r.account, r.domain) else before
  identity_in (sets_user user ∷ earlier) = (user, (identity_in earlier).1)
  identity_in (_ ∷ earlier) = identity_in earlier

  -- The first and the last activity: a success, at any index, sets both.
  unfoldable pub activity_in : ℕ × ℕ → List Call → ℕ × ℕ
  activity_in start [] = start
  activity_in start (authenticates heap r t ∷ earlier) =
      let before = activity_in start earlier in
      if succeeds heap r t earlier then (t.at_activity, t.at_activity) else before
  activity_in start (sets_activity t ∷ earlier) = ((activity_in start earlier).0, t)
  activity_in start (updates_activity t ∷ earlier) = ((activity_in start earlier).0, t)
  activity_in start (_ ∷ earlier) = activity_in start earlier

  -- What an attempt changes in these members.
  authenticate_members :
      (heap : ℕ → Backend) (r : Request) (t : Times) (s : Session) (calls : List Call)
      → s.authenticator ≡ authenticator_in d calls
      → ((authenticate d heap r t s).0.auth_user
          ≡ (if succeeds heap r t calls && r.index == 0 then r.account else s.auth_user))
        × ((authenticate d heap r t s).0.auth_domain
            ≡ (if succeeds heap r t calls && r.index == 0 then r.domain else s.auth_domain))
        × ((authenticate d heap r t s).0.first_activity
            ≡ (if succeeds heap r t calls then t.at_activity else s.first_activity))
        × ((authenticate d heap r t s).0.last_activity
            ≡ (if succeeds heap r t calls then t.at_activity else s.last_activity))
  unfolding authenticate succeeds update_last_activity
  authenticate_members heap r t s calls e = ground arith

  module _ (id : String) (first last : ℕ) where
    -- After any calls, the user and the domain of the session are those of the last attempt with
    -- the main password, index 0, that an authenticator accepted, the user as `setAuthUser` changed
    -- it since, and the first and the last activity are the time of the last success at any index,
    -- the last one as it was set or updated since.
    pub identity-session_after :
        (calls : List Call)
        → ((after d id first last calls).auth_user ≡ (identity_in calls).0)
          × ((after d id first last calls).auth_domain ≡ (identity_in calls).1)
          × ((after d id first last calls).first_activity ≡ (activity_in (first, last) calls).0)
          × ((after d id first last calls).last_activity ≡ (activity_in (first, last) calls).1)
    unfolding session_after apply set_authenticator set_index_authentication_policy set_auth_user
        set_session_id regen_session_id set_last_activity update_last_activity identity_in
        activity_in
    identity-session_after [] = (refl, refl, refl, refl)
    identity-session_after (authenticates heap r t ∷ calls) = ground (
      arith,
      authenticate_members heap r t (after d id first last calls) calls
          (after-authenticator d id first last calls),
      identity-session_after calls,
    )
    identity-session_after (sets_user u ∷ calls) = ground (arith, identity-session_after calls)
    identity-session_after (_ ∷ calls) = ground (arith, identity-session_after calls)
