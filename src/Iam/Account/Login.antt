-- ===== src/Iam/Account/Login.antt =====
-- `IamClient._authenticate_user_with_password`: who is authenticated.
use exordos_core.Base.{
  ℕ, ◌≡◌, refl, subst, true, false, Option, none, some, List, ◌∷◌, arith, inl, inr, ◌⊎◌, Bool-cases,
}
use exordos_core.Base.Result.{ok, Result-cases}
use exordos_core.Iam.Account.{
  User, UserSource, iam, keycloak, Library, check_secret, set_secret, process_secret, validate_otp,
  check_otp, authenticate_user_with_password,
}
use exordos_core.Iam.Account.Secrets.{with_secret}

module _ (lib : Library) where
  -- The password was accepted here, or by the Keycloak server, and then it is kept.
  abbrev pub IsAccepted : (salt password : ℕ) (user u : User) → Type 0
  IsAccepted salt password user u =
      ((check_secret lib user password ≡ true) × (user ≡ u))
      ⊎ ((endpoint realm : ℕ) × (user.source ≡ keycloak endpoint realm)
          × (lib.check_password endpoint realm user.email password ≡ true)
          × (with_secret lib salt password user ≡ u))

  pub record IsAuthenticated (salt now password : ℕ) (otp_code : Option ℕ) (user u : User)
      : Type 0 where
    pub person : user.is_service ≡ false
    pub accepted : IsAccepted salt password user u
    pub otp :
        u.otp_enabled ≡ true
        → (c : ℕ) × (otp_code ≡ some c) × (lib.verify u.otp_secret c now ≡ true)

  source_cases :
      (s : UserSource) → (s ≡ iam) ⊎ ((endpoint realm : ℕ) × (s ≡ keycloak endpoint realm))
  source_cases iam = inl refl
  source_cases (keycloak endpoint realm) = inr (endpoint, realm, refl)

  process_secret-IsAccepted :
      (salt password : ℕ) (user u : User)
      → user.is_service ≡ false
      → process_secret lib salt password user ≡ ok u
      → IsAccepted salt password user u
  unfolding process_secret set_secret
  process_secret-IsAccepted salt password user u person h =
      elim (Bool-cases (check_secret lib user password)) [
        | inl right ↦ inl (right, ground (arith, right, h))
        | inr wrong ↦ elim (source_cases user.source) [
          | inl here ↦ absurd (ground (arith, wrong, here, h))
          | inr (endpoint, realm, there) ↦
              elim (Bool-cases (lib.check_password endpoint realm user.email password)) [
                | inl known ↦
                    inr (
                      endpoint,
                      realm,
                      there,
                      known,
                      ground (arith, wrong, there, known, person, h),
                    )
                | inr unknown ↦ absurd (ground (arith, wrong, there, unknown, h))
              ]
        ]
      ]

  check_otp-ok :
      (now : ℕ) (otp_code : Option ℕ) (v u : User)
      → check_otp lib now otp_code v ≡ ok u
      → (v ≡ u)
        × (v.otp_enabled ≡ true
            → (c : ℕ) × (otp_code ≡ some c) × (lib.verify v.otp_secret c now ≡ true))
  unfolding check_otp validate_otp
  check_otp-ok now none v u h = (ground (arith, h), λ on. absurd (ground (arith, on, h)))
  check_otp-ok now (some c) v u h = (ground (arith, h), λ on. (c, refl, ground (arith, on, h)))

  -- Who is authenticated is no service account, gave a password that was accepted, and, with one-time
  -- codes turned on, a code that was valid at the time.
  pub authenticate-IsAuthenticated :
      (salt now password : ℕ) (otp_code : Option ℕ) (user u : User) (users : List User)
      → authenticate_user_with_password lib salt now password otp_code (user ∷ users) ≡ ok u
      → IsAuthenticated salt now password otp_code user u
  unfolding authenticate_user_with_password
  authenticate-IsAuthenticated salt now password otp_code user u users h =
      elim (Bool-cases user.is_service) [
        | inl service ↦ absurd (ground (arith, service, h))
        | inr person ↦ elim (Result-cases (process_secret lib salt password user)) [
          | inr (e, refused) ↦ absurd (ground (arith, person, refused, h))
          | inl (v, done) ↦
              let (same, otp) = check_otp-ok now otp_code v u (passed v person done) in
              record {
                person = person;
                accepted =
                    subst (IsAccepted salt password user) same
                      (process_secret-IsAccepted salt password user v person done);
                otp =
                    subst
                      (λ x.
                        x.otp_enabled ≡ true
                        → (c : ℕ) × (otp_code ≡ some c) × (lib.verify x.otp_secret c now ≡ true))
                      same otp;
              }
        ]
      ]
    where
      passed :
          (v : User)
          → user.is_service ≡ false
          → process_secret lib salt password user ≡ ok v
          → check_otp lib now otp_code v ≡ ok u
      passed v person done = ground (arith, person, done, h)

  -- A person with the right password and no one-time codes is authenticated, and not changed.
  pub authenticate_total :
      (salt now password : ℕ) (otp_code : Option ℕ) (user : User) (users : List User)
      → user.is_service ≡ false
      → check_secret lib user password ≡ true
      → user.otp_enabled ≡ false
      → authenticate_user_with_password lib salt now password otp_code (user ∷ users) ≡ ok user
  unfolding authenticate_user_with_password process_secret check_otp
  authenticate_total salt now password otp_code user users person right off =
      ground (arith, person, right, off)
