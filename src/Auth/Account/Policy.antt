-- ===== src/Auth/Account/Policy.antt =====
-- Who is authenticated, and why another is not.
use cx_framework.Base.{
  ℕ, ◌≤◌, true, false, ◌≡◌, ◌≢◌, ◌↔◌, ◌⊎◌, inl, inr, none, some, String, Bytes, arith, Bool-cases,
  Option-cases,
}
use cx_framework.Auth.Reason.{
  AuthReason, authenticated, unconfirmed_account, disabled_account, expired_account, bad_account,
  AuthMode, plain,
}
use cx_framework.Auth.Password.{Digests, PasswordData, validate_password}
use cx_framework.Auth.Password.Matching.{Matches, validate_password_iff}
use cx_framework.Auth.Account.{Backend, is_account_expired, authenticate}

module _ (b : Backend) where
  -- The account may be used at a time: it is confirmed, enabled, and not past an expiration date;
  -- the date 0 stands for none.
  pub record IsUsable (account domain : String) (now : ℕ) : Type 0 where
    pub confirmed : b.is_account_confirmed account domain ≡ true
    pub enabled : b.is_account_disabled account domain ≡ false
    pub in_time :
        (b.account_expiration_date account domain ≡ 0)
        ⊎ (now ≤ b.account_expiration_date account domain)

  expired_iff :
      (now : ℕ) (account domain : String)
      → (is_account_expired b now account domain ≡ false) ↔ (
          (b.account_expiration_date account domain ≡ 0)
          ⊎ (now ≤ b.account_expiration_date account domain))
  unfolding is_account_expired
  expired_iff now account domain = ground arith

  module _ (d : Digests) (now later : ℕ) (account domain : String) (password : Bytes) (index : ℕ)
      (mode : AuthMode) (cs : Bytes) where
    -- What `authenticate` answers for a record that was found.
    pub data Verdict (stored : PasswordData) : AuthReason → Type 0 where
      unconfirmed :
          b.is_account_confirmed account domain ≡ false → Verdict stored unconfirmed_account
      disabled :
          b.is_account_confirmed account domain ≡ true
          → b.is_account_disabled account domain ≡ true
          → Verdict stored disabled_account
      expired_at :
          b.is_account_confirmed account domain ≡ true
          → b.is_account_disabled account domain ≡ false
          → is_account_expired b now account domain ≡ true
          → Verdict stored expired_account
      tested :
          IsUsable account domain now
          → Verdict stored (validate_password d later stored password cs mode)

    open-Verdict :
        (stored : PasswordData)
        → b.retrieve_password account domain index ≡ some stored
        → Verdict stored (authenticate b d now later account domain password index mode cs)
    unfolding authenticate
    open-Verdict stored e =
        rw (e, authenticate)
          (elim (Bool-cases (b.is_account_confirmed account domain)) [
            | inr n ↦ rw n (unconfirmed n)
            | inl c ↦ rw c (elim (Bool-cases (b.is_account_disabled account domain)) [
              | inl x ↦ rw x (disabled c x)
              | inr x ↦ rw x (elim (Bool-cases (is_account_expired b now account domain)) [
                | inl t ↦ rw t (expired_at c x t)
                | inr t ↦ rw t (
                    tested (record {
                      confirmed = c;
                      enabled = x;
                      in_time = (expired_iff now account domain).0 t;
                    }))
              ])
            ])
          ])

    -- `authenticate` answers that the account is bad when no password is stored at the index, else
    -- that it is unconfirmed, else that it is disabled, else that it has expired, and else what
    -- `validatePassword` says of the stored password: the first of these that applies.
    pub authenticate-Verdict :
        ((b.retrieve_password account domain index ≡ none)
          × (authenticate b d now later account domain password index mode cs ≡ bad_account))
        ⊎ ((stored : PasswordData) × (b.retrieve_password account domain index ≡ some stored)
            × Verdict stored (authenticate b d now later account domain password index mode cs))
    unfolding authenticate
    authenticate-Verdict = elim (Option-cases (b.retrieve_password account domain index)) [
      | inl e ↦ inl (e, rw (e, authenticate))
      | inr (stored, e) ↦ inr (stored, e, open-Verdict stored e)
    ]

    accepted :
        {stored : PasswordData} {r : AuthReason}
        → Verdict stored r
        → r ≡ authenticated
        → IsUsable account domain now
          × (validate_password d later stored password cs mode ≡ authenticated)
    accepted (unconfirmed _) h = cc
    accepted (disabled _ _) h = cc
    accepted (expired_at _ _ _) h = cc
    accepted (tested u) h = (u, h)

    usable_tested :
        (stored : PasswordData)
        → b.retrieve_password account domain index ≡ some stored
        → IsUsable account domain now
        → authenticate b d now later account domain password index mode cs
          ≡ validate_password d later stored password cs mode
    unfolding authenticate
    usable_tested stored e u =
        rw (e, authenticate, u.confirmed, u.enabled, (expired_iff now account domain).1 u.in_time)

    bad_account_ne : bad_account ≢ authenticated
    bad_account_ne h = cc

    -- `authenticate` authenticates exactly when a password is stored at the index, the account is
    -- confirmed, is not disabled and has no expiration date that is past, the comparison is in plain
    -- mode, the stored password has not expired by its date nor by force, and the password given fits it.
    pub authenticate_iff :
        (authenticate b d now later account domain password index mode cs ≡ authenticated) ↔ (
          (stored : PasswordData) × (b.retrieve_password account domain index ≡ some stored)
          × IsUsable account domain now
          × (mode ≡ plain)
          × (later ≤ stored.expiration)
          × (stored.force_expiration ≡ false)
          × Matches d stored password stored.password_mode)
    authenticate_iff = (
      λ h. elim authenticate-Verdict [
        | inl (e, refused) ↦ absurd (bad_account_ne (cc))
        | inr (stored, e, v) ↦
            let (u, ok) = accepted v h in
            let (is_plain, fresh, kept, fits) =
              (validate_password_iff d later stored password cs mode).0 ok in
            (stored, e, u, is_plain, fresh, kept, fits)
      ],
      λ (stored, e, u, is_plain, fresh, kept, fits).
          rw (usable_tested stored e u) (
            (validate_password_iff d later stored password cs mode).1
              (is_plain, fresh, kept, fits)),
    )
