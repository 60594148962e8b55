-- ===== src/Auth/Password/Matching.antt =====
-- `validatePassword` and `genPassword`, on every mode.
use cx_framework.Base.{
  ℕ, ◌≤◌, Bool, true, false, ◌≡◌, ◌≢◌, ◌↔◌, inl, inr, refl, sym, subst, [], Bytes, bytes_eq_iff,
  ◌++◌, arith, Bool-cases,
}
use cx_framework.Auth.Reason.{
  authenticated, PasswordMode, mode_plain, mode_sha256, mode_sha512, mode_ssha256, mode_ssha512,
  mode_gauthtime, mode_notfound, mode_other, AuthMode, plain, cram,
}
use cx_framework.AuthStrings.{str_to_hex}
use cx_framework.Auth.Password.{
  PasswordData, Digests, calc_sha256, calc_sha512, calc_ssha256, calc_ssha512, gen_password,
  validate_by, compare_by, is_password_expired, validate_password,
}

module _ (d : Digests) where
  -- A password fits what is stored under a mode.
  pub data Matches (stored : PasswordData) (input : Bytes) : PasswordMode → Type 0 where
    in_plain : stored.hash ≡ input → Matches stored input mode_plain
    by_sha256 : stored.hash ≡ str_to_hex (d.sha256 input) → Matches stored input mode_sha256
    by_sha512 : stored.hash ≡ str_to_hex (d.sha512 input) → Matches stored input mode_sha512
    by_ssha256 :
        stored.hash ≡ str_to_hex (d.sha256 (input ++ stored.ssalt))
        → Matches stored input mode_ssha256
    by_ssha512 :
        stored.hash ≡ str_to_hex (d.sha512 (input ++ stored.ssalt))
        → Matches stored input mode_ssha512
    unchecked : (n : ℕ) → stored.hash ≡ [] → Matches stored input (mode_other n)

  validate_by_accepts :
      (m : PasswordMode) (stored : PasswordData) (input cram_salt : Bytes)
      → Matches stored input m
      → validate_by d m stored input cram_salt plain ≡ authenticated
  unfolding validate_by
  validate_by_accepts mode_plain stored input cs (in_plain h) =
      ground (arith, bytes_eq_iff stored.hash input)
  validate_by_accepts mode_sha256 stored input cs (by_sha256 h) =
      ground (arith, bytes_eq_iff stored.hash (calc_sha256 d input))
  validate_by_accepts mode_sha512 stored input cs (by_sha512 h) =
      ground (arith, bytes_eq_iff stored.hash (calc_sha512 d input))
  validate_by_accepts mode_ssha256 stored input cs (by_ssha256 h) =
      ground (arith, bytes_eq_iff stored.hash (calc_ssha256 d input stored.ssalt))
  validate_by_accepts mode_ssha512 stored input cs (by_ssha512 h) =
      ground (arith, bytes_eq_iff stored.hash (calc_ssha512 d input stored.ssalt))
  validate_by_accepts (mode_other n) stored input cs (unchecked _ h) =
      ground (arith, bytes_eq_iff stored.hash [])
  validate_by_accepts mode_gauthtime stored input cs h = elim h [ ]
  validate_by_accepts mode_notfound stored input cs h = elim h [ ]

  accepted_eq :
      (stored : PasswordData) (input cs other : Bytes) (salted : Bool)
      → compare_by d plain stored input cs other salted ≡ authenticated
      → stored.hash ≡ other
  unfolding compare_by
  accepted_eq stored input cs other salted h = ground (arith, bytes_eq_iff stored.hash other)

  validate_by_only :
      (m : PasswordMode) (stored : PasswordData) (input cs : Bytes)
      → validate_by d m stored input cs plain ≡ authenticated
      → Matches stored input m
  unfolding validate_by
  validate_by_only mode_plain stored input cs h =
      in_plain (accepted_eq stored input cs input false h)
  validate_by_only mode_sha256 stored input cs h =
      by_sha256 (accepted_eq stored input cs (calc_sha256 d input) false h)
  validate_by_only mode_sha512 stored input cs h =
      by_sha512 (accepted_eq stored input cs (calc_sha512 d input) false h)
  validate_by_only mode_ssha256 stored input cs h =
      by_ssha256 (accepted_eq stored input cs (calc_ssha256 d input stored.ssalt) true h)
  validate_by_only mode_ssha512 stored input cs h =
      by_ssha512 (accepted_eq stored input cs (calc_ssha512 d input stored.ssalt) true h)
  validate_by_only (mode_other n) stored input cs h =
      unchecked n (accepted_eq stored input cs [] false h)
  validate_by_only mode_gauthtime stored input cs h = cc
  validate_by_only mode_notfound stored input cs h = cc

  validate_by-cram :
      (m : PasswordMode) (stored : PasswordData) (input cs : Bytes)
      → validate_by d m stored input cs cram ≢ authenticated
  unfolding validate_by
  validate_by-cram m stored input cs h =
      elim m as (λ m. validate_by d m stored input cs cram ≡ authenticated → ⊥) [
        | mode_plain ↦ λ h. cc
        | mode_sha256 ↦ λ h. cc
        | mode_sha512 ↦ λ h. cc
        | mode_ssha256 ↦ λ h. cc
        | mode_ssha512 ↦ λ h. cc
        | mode_gauthtime ↦ λ h. cc
        | mode_notfound ↦ λ h. cc
        | mode_other n ↦ λ h. cc
      ]
        h

  unexpired :
      (stored : PasswordData) (now : ℕ)
      → (is_password_expired stored now ≡ false)
        ↔ ((now ≤ stored.expiration) × (stored.force_expiration ≡ false))
  unfolding is_password_expired
  unexpired stored now = ground arith

  -- `validatePassword` authenticates exactly in the plain mode of comparison, up to the expiration date
  -- of a record whose expiration is not forced, a password that fits the stored hash under the stored
  -- mode: the hash is the password itself, the hexadecimal text of its digest, or that of the digest of
  -- the password and the stored salt behind it. A mode that has no name fits an empty hash, and no
  -- password fits a time based or a missing one.
  pub validate_password_iff :
      (now : ℕ) (stored : PasswordData) (input cs : Bytes) (mode : AuthMode)
      → (validate_password d now stored input cs mode ≡ authenticated) ↔ (
          (mode ≡ plain)
          × (now ≤ stored.expiration)
          × (stored.force_expiration ≡ false)
          × Matches stored input stored.password_mode)
  unfolding validate_password
  validate_password_iff now stored input cs plain =
      elim (Bool-cases (is_password_expired stored now)) [
        | inl e ↦ (λ h. cc (rw e at h), λ p. cc ((unexpired stored now).1 (p.1, p.2), e))
        | inr e ↦
            let (in_time, unforced) = (unexpired stored now).0 e in
            (
              λ h. (
                refl,
                in_time,
                unforced,
                validate_by_only stored.password_mode stored input cs (rw e at h),
              ),
              λ p. rw e (validate_by_accepts stored.password_mode stored input cs p.3),
            )
      ]
  validate_password_iff now stored input cs cram =
      elim (Bool-cases (is_password_expired stored now)) [
        | inl e ↦ (λ h. cc (rw e at h), λ p. cc (p.0))
        | inr e ↦ (
          λ h. absurd (validate_by-cram stored.password_mode stored input cs (rw e at h)),
          λ p. cc (p.0),
        )
      ]

  -- A mode that `genPassword` can store a password for and `validatePassword` compares it in.
  abbrev pub IsStored : PasswordMode → Type 0
  IsStored mode_gauthtime = ⊥
  IsStored mode_notfound = ⊥
  IsStored (mode_other n) = ⊥
  IsStored _ = Unit

  gen_password-Matches :
      (m : PasswordMode) (input : Bytes) (force : Bool) (date steps : ℕ) (salt : Bytes)
      → IsStored m
      → Matches (gen_password d input m force date steps salt) input m
  unfolding gen_password
  gen_password-Matches mode_plain input force date steps salt h = in_plain refl
  gen_password-Matches mode_sha256 input force date steps salt h = by_sha256 refl
  gen_password-Matches mode_sha512 input force date steps salt h = by_sha512 refl
  gen_password-Matches mode_ssha256 input force date steps salt h = by_ssha256 refl
  gen_password-Matches mode_ssha512 input force date steps salt h = by_ssha512 refl
  gen_password-Matches mode_gauthtime input force date steps salt h = absurd h
  gen_password-Matches mode_notfound input force date steps salt h = absurd h
  gen_password-Matches (mode_other n) input force date steps salt h = absurd h

  gen_password_fields :
      (m : PasswordMode) (input : Bytes) (force : Bool) (date steps : ℕ) (salt : Bytes)
      → ((gen_password d input m force date steps salt).password_mode ≡ m)
        × ((gen_password d input m force date steps salt).expiration ≡ date)
        × ((gen_password d input m force date steps salt).force_expiration ≡ force)
  unfolding gen_password
  gen_password_fields mode_plain input force date steps salt = (refl, refl, refl)
  gen_password_fields mode_sha256 input force date steps salt = (refl, refl, refl)
  gen_password_fields mode_sha512 input force date steps salt = (refl, refl, refl)
  gen_password_fields mode_ssha256 input force date steps salt = (refl, refl, refl)
  gen_password_fields mode_ssha512 input force date steps salt = (refl, refl, refl)
  gen_password_fields mode_gauthtime input force date steps salt = (refl, refl, refl)
  gen_password_fields mode_notfound input force date steps salt = (refl, refl, refl)
  gen_password_fields (mode_other n) input force date steps salt = (refl, refl, refl)

  in_time_of :
      (r : PasswordData) (date now : ℕ) → r.expiration ≡ date → now ≤ date → now ≤ r.expiration
  in_time_of r date now e h = omega (arith, e, h)

  -- A record that `genPassword` makes without forced expiration accepts the password it was made
  -- from until its expiration date, for each plain, hashed and salted mode and every salt.
  pub gen_password-validate_password :
      (m : PasswordMode) (input : Bytes) (date now steps : ℕ) (salt cs : Bytes)
      → IsStored m
      → now ≤ date
      → validate_password d now (gen_password d input m false date steps salt) input cs plain
        ≡ authenticated
  gen_password-validate_password m input date now steps salt cs h in_time =
      let r = gen_password d input m false date steps salt in
      let fs = gen_password_fields m input false date steps salt in
      (validate_password_iff now r input cs plain).1 (
        refl,
        in_time_of r date now fs.1 in_time,
        fs.2,
        subst (λ (k : PasswordMode). Matches r input k) (sym fs.0)
            (gen_password-Matches m input false date steps salt h),
      )
