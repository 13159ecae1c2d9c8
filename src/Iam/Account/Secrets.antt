-- ===== src/Iam/Account/Secrets.antt =====
-- Passwords: who may change one, and what a change does.
use exordos_core.Base.{
  ℕ, ◌≡◌, refl, ap, sym, ◌∙◌, ◌==◌, Bool, true, false, Option, List, [], ◌∷◌, arith, if◌then◌else◌,
  inl, inr,
}
use exordos_core.Base.Result.{Result, ok, err, ◌>>=◌, Result-cases}
use exordos_core.Iam.Account.{
  User, Library, AccountError, credentials_are_invalid, otp_already_enabled,
  service_account_password_auth, service_account_password_change, generate_hash, check_secret,
  validate_secret, set_secret, change_secret_safe, process_secret, enable_otp, activate_otp,
  disable_otp, create_confirmation_code, clear_confirmation_code, confirm_email, reset_secret,
  reset_secret_by_code, authenticate_user_with_password,
}

module _ (lib : Library) where
  -- A user with another password.
  abbrev pub with_secret : (salt secret : ℕ) → User → User
  with_secret salt secret user = record user {
    salt = salt;
    secret_hash = generate_hash lib secret salt;
  }

  check_secret-with_secret :
      (salt new_secret : ℕ) (user : User) (secret : ℕ)
      → check_secret lib (with_secret salt new_secret user) secret
        ≡ (generate_hash lib new_secret salt == generate_hash lib secret salt)
  unfolding check_secret
  check_secret-with_secret salt new_secret user secret = refl

  -- A wrong old password raises, a service account raises, and otherwise nothing but the salt and
  -- the hash changes, and a password is accepted exactly if its hash is that of the new one.
  pub change_secret_safe_lem :
      (salt old_secret new_secret : ℕ) (user : User)
      → (check_secret lib user old_secret ≡ false
          → change_secret_safe lib salt old_secret new_secret user ≡ err credentials_are_invalid)
        × (check_secret lib user old_secret ≡ true
            → user.is_service ≡ true
            → change_secret_safe lib salt old_secret new_secret user
              ≡ err service_account_password_change)
        × (check_secret lib user old_secret ≡ true
            → user.is_service ≡ false
            → (change_secret_safe lib salt old_secret new_secret user
                ≡ ok (with_secret salt new_secret user))
              × ((secret : ℕ)
                  → check_secret lib (with_secret salt new_secret user) secret
                    ≡ (generate_hash lib new_secret salt == generate_hash lib secret salt)))
  unfolding change_secret_safe validate_secret set_secret
  change_secret_safe_lem salt old_secret new_secret user = (
    λ wrong. ground (arith, wrong),
    λ right service. ground (arith, right, service),
    λ right person. (ground (arith, right, person), check_secret-with_secret salt new_secret user),
  )

-- The methods of a user that can change it. A call that raises changes nothing.
pub data Action : Type 0 where
  to_change_secret : (salt old_secret new_secret : ℕ) → Action
  to_reset_secret : (salt now new_secret : ℕ) (code : Option ℕ) → Action
  to_process_secret : (salt secret : ℕ) → Action
  to_enable_otp : (salt fresh password : ℕ) → Action
  to_activate_otp : (now code : ℕ) → Action
  to_disable_otp : (salt password : ℕ) → Action
  to_create_code : (fresh now : ℕ) → Action
  to_clear_code : Action
  to_confirm_email : Action

abbrev pub after : User → Result AccountError User → User
after user (ok u) = u
after user (err e) = user

module _ (lib : Library) where
  unfoldable pub act : Action → User → User
  act (to_change_secret salt old_secret new_secret) user =
      after user (change_secret_safe lib salt old_secret new_secret user)
  act (to_reset_secret salt now new_secret code) user =
      after user (reset_secret_by_code lib salt now new_secret code user)
  act (to_process_secret salt secret) user = after user (process_secret lib salt secret user)
  act (to_enable_otp salt fresh password) user =
      after user (enable_otp lib salt fresh password user)
  act (to_activate_otp now code) user = after user (activate_otp lib now code user)
  act (to_disable_otp salt password) user = after user (disable_otp lib salt password user)
  act (to_create_code fresh now) user = create_confirmation_code fresh now user
  act to_clear_code user = clear_confirmation_code user
  act to_confirm_email user = (confirm_email user []).0

  unfoldable pub act_all : List Action → User → User
  act_all [] user = user
  act_all (a ∷ actions) user = act_all actions (act a user)

  -- Two users with the same password, of the same type.
  pub record SameSecret (u v : User) : Type 0 where
    pub salt : v.salt ≡ u.salt
    pub secret_hash : v.secret_hash ≡ u.secret_hash
    pub is_service : v.is_service ≡ u.is_service

  set_secret-service :
      (salt secret : ℕ) (user : User)
      → user.is_service ≡ true
      → set_secret lib salt secret user ≡ err service_account_password_change
  unfolding set_secret
  set_secret-service salt secret user service = ground (arith, service)

  process_secret-service :
      (salt secret : ℕ) (user u : User)
      → user.is_service ≡ true
      → process_secret lib salt secret user ≡ ok u
      → user ≡ u
  unfolding process_secret
  process_secret-service salt secret user u service h =
      ground (arith, h, set_secret-service salt secret user service)

  same : (u v : User) → u ≡ v → SameSecret u v
  same u v e = record {
    salt = ap (λ x. x.salt) (sym e);
    secret_hash = ap (λ x. x.secret_hash) (sym e);
    is_service = ap (λ x. x.is_service) (sym e);
  }

  SameSecret-trans : (u v w : User) → SameSecret u v → SameSecret v w → SameSecret u w
  SameSecret-trans u v w a b = record {
    salt = b.salt ∙ a.salt;
    secret_hash = b.secret_hash ∙ a.secret_hash;
    is_service = b.is_service ∙ a.is_service;
  }

  after-SameSecret :
      (user : User) (r : Result AccountError User)
      → ((u : User) → r ≡ ok u → SameSecret user u)
      → SameSecret user (after user r)
  after-SameSecret user (ok u) h = h u refl
  after-SameSecret user (err e) h = same user user refl

  -- What comes behind a password check that leaves the password.
  processed-SameSecret :
      (salt secret : ℕ) (user : User) (f : User → User)
      → user.is_service ≡ true
      → ((u : User) → SameSecret u (f u))
      → SameSecret user (after user (process_secret lib salt secret user >>= λ u. ok (f u)))
  processed-SameSecret salt secret user f service keeps =
      elim (Result-cases (process_secret lib salt secret user)) [
        | inl (u, done) ↦
            let e = process_secret-service salt secret user u service done in
            rw done (SameSecret-trans user u (f u) (same user u e) (keeps u))
        | inr (e, raised) ↦ rw raised (same user user refl)
      ]

  guarded-SameSecret :
      (user : User) (guard : Bool) (e : AccountError) (r : Result AccountError User)
      → SameSecret user (after user r)
      → SameSecret user (after user (if guard then err e else r))
  guarded-SameSecret user true e r h = same user user refl
  guarded-SameSecret user false e r h = h

  act-SameSecret :
      (a : Action) (user : User) → user.is_service ≡ true → SameSecret user (act a user)
  unfolding act change_secret_safe validate_secret reset_secret_by_code reset_secret enable_otp
      activate_otp disable_otp create_confirmation_code clear_confirmation_code confirm_email
  act-SameSecret (to_change_secret salt old_secret new_secret) user service =
      same user _ (ground (arith, set_secret-service salt new_secret user service))
  act-SameSecret (to_reset_secret salt now new_secret code) user service =
      same user _ (ground (arith, set_secret-service salt new_secret user service))
  act-SameSecret (to_process_secret salt secret) user service =
      elim (Result-cases (process_secret lib salt secret user)) [
        | inl (u, done) ↦
            rw done (same user u (process_secret-service salt secret user u service done))
        | inr (e, raised) ↦ rw raised (same user user refl)
      ]
  act-SameSecret (to_enable_otp salt fresh password) user service =
      guarded-SameSecret user user.otp_enabled otp_already_enabled
        (process_secret lib salt password user >>= λ u. ok (record u { otp_secret = fresh }))
        (processed-SameSecret salt password user (λ u. record u { otp_secret = fresh }) service
          (λ u. record { salt = refl; secret_hash = refl; is_service = refl }))
  act-SameSecret (to_activate_otp now code) user service =
      after-SameSecret user (activate_otp lib now code user) (λ u h. record {
        salt = ground (arith, h);
        secret_hash = ground (arith, h);
        is_service = ground (arith, h);
      })
  act-SameSecret (to_disable_otp salt password) user service =
      processed-SameSecret salt password user
        (λ u. record u { otp_secret = 0; otp_enabled = false }) service
        (λ u. record { salt = refl; secret_hash = refl; is_service = refl })
  act-SameSecret (to_create_code fresh now) user service = record {
    salt = refl;
    secret_hash = refl;
    is_service = refl;
  }
  act-SameSecret to_clear_code user service = record {
    salt = refl;
    secret_hash = refl;
    is_service = refl;
  }
  act-SameSecret to_confirm_email user service = record {
    salt = refl;
    secret_hash = refl;
    is_service = refl;
  }

  -- Whatever methods are called on a service account, its password and its type stay, and it can not
  -- authenticate with a password.
  pub act_all-service :
      (actions : List Action) (user : User)
      → user.is_service ≡ true
      → SameSecret user (act_all actions user)
        × ((salt now password : ℕ) (otp_code : Option ℕ) (users : List User)
            → authenticate_user_with_password lib salt now password otp_code
                (act_all actions user ∷ users)
              ≡ err service_account_password_auth)
  unfolding act_all authenticate_user_with_password
  act_all-service [] user service =
      (same user user refl, λ salt now password otp_code users. ground (arith, service))
  act_all-service (a ∷ actions) user service =
      let one = act-SameSecret a user service in
      let (rest, no_password) = act_all-service actions (act a user) (one.is_service ∙ service) in
      (SameSecret-trans user (act a user) (act_all actions (act a user)) one rest, no_password)
