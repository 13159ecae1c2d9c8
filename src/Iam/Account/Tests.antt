-- ===== src/Iam/Account/Tests.antt =====
-- Two users, and the theorems on them.
use exordos_core.Base.{
  ℕ, ◌+◌, ◌*◌, ◌≤◌, ◌≡◌, refl, ap, sym, ◌∙◌, ◌==◌, length, true, false, Option, none, some, List,
  [], ◌∷◌, map, filter, any, arith, inl, inr,
}
use exordos_core.Base.Result.{ok, err}
use exordos_core.Iam.Account.{
  User, iam, Library, can_not_confirm_user, service_account_password_auth, generate_hash,
  check_secret, validate_secret, set_secret, change_secret_safe, process_secret, validate_otp,
  create_confirmation_code, clear_confirmation_code, code_fits, check_confirmation_code,
  confirm_email, confirm_email_by_code, reset_secret, reset_secret_by_code, is_bad, earlier,
  insert_by_age, sort_by_age, take, clear_all, clean_bad_confirmation_codes, check_otp,
  authenticate_user_with_password,
}
use exordos_core.Iam.Account.Secrets.{
  to_change_secret, to_create_code, SameSecret, act_all, act_all-service,
}
use exordos_core.Iam.Account.Codes.{
  creates, confirms, code_call, code_calls, IsGuarded, code_calls-IsGuarded,
}
use exordos_core.Iam.Account.Login.{IsAuthenticated, authenticate-IsAuthenticated}
use exordos_core.Iam.Account.Janitor.{IsKeyed, clean_bad_confirmation_codes_lem}

program : Unit {0}
unfolding filter any generate_hash check_secret validate_secret set_secret change_secret_safe
    process_secret validate_otp create_confirmation_code clear_confirmation_code code_fits
    check_confirmation_code confirm_email confirm_email_by_code reset_secret reset_secret_by_code
    is_bad earlier insert_by_age sort_by_age take clear_all clean_bad_confirmation_codes check_otp
    authenticate_user_with_password code_call code_calls
program = tt

-- A weak hash, and a code that is right at one time.
abbrev lib : Library
lib = record {
  pbkdf2_hmac = λ secret salt iterations. secret * 1000 + length salt;
  b64decode = λ s. s ∷ [];
  verify = λ otp_secret code now. otp_secret + now == code;
  check_password = λ endpoint realm login password. false;
  global_salt = 3;
}

abbrev person : User
person = record {
  uuid = 1;
  email = 10;
  is_service = false;
  source = iam;
  salt = 20;
  secret_hash = 77002;
  email_verified = false;
  confirmation_code = none;
  confirmation_code_made_at = none;
  otp_secret = 5;
  otp_enabled = true;
}

abbrev service : User
service = record person { uuid = 2; is_service = true; secret_hash = 2 }

authenticated :
    authenticate_user_with_password lib 9 600 77 (some 605) (person ∷ service ∷ []) ≡ ok person
unfolding program
authenticated = refl

authenticate-IsAuthenticated_example : IsAuthenticated lib 9 600 77 (some 605) person person
authenticate-IsAuthenticated_example =
    authenticate-IsAuthenticated lib 9 600 77 (some 605) person person (service ∷ []) authenticated

act_all-service_example :
    SameSecret lib service
      (act_all lib (to_create_code 4 100 ∷ to_change_secret 9 0 8 ∷ []) service)
    × ((salt now password : ℕ) (otp_code : Option ℕ) (users : List User)
        → authenticate_user_with_password lib salt now password otp_code
            (act_all lib (to_create_code 4 100 ∷ to_change_secret 9 0 8 ∷ []) service ∷ users)
          ≡ err service_account_password_auth)
act_all-service_example =
    act_all-service lib (to_create_code 4 100 ∷ to_change_secret 9 0 8 ∷ []) service refl

-- An hour and a microsecond later the code is refused.
too_late :
    confirm_email_by_code 3600000101 (some 4) (create_confirmation_code 4 100 person) []
    ≡ err (can_not_confirm_user (some 4))
unfolding program
too_late = refl

code_calls-IsGuarded_example :
    IsGuarded lib
      (creates 4 100 ∷ confirms 99 (some 3) ∷ [])
      (code_calls lib (creates 4 100 ∷ confirms 99 (some 3) ∷ []) person)
code_calls-IsGuarded_example =
    code_calls-IsGuarded lib (creates 4 100 ∷ confirms 99 (some 3) ∷ []) person refl

abbrev asking : List User
asking =
    record person { confirmation_code = some 4; confirmation_code_made_at = some 100 }
    ∷ record service { confirmation_code = some 6; confirmation_code_made_at = some 3000000000 }
    ∷ []

cleaned :
    clean_bad_confirmation_codes 5 3600000101 asking
    ≡ person
      ∷ record service { confirmation_code = some 6; confirmation_code_made_at = some 3000000000 }
      ∷ []
unfolding program
cleaned = refl

asking-IsKeyed : IsKeyed asking
asking-IsKeyed u v (inl e) (inl f) same = e ∙ sym f
asking-IsKeyed u v (inl e) (inr (inl f)) same =
    absurd (ground (arith, same, ap (λ x. x.uuid) e, ap (λ x. x.uuid) f))
asking-IsKeyed u v (inr (inl e)) (inl f) same =
    absurd (ground (arith, same, ap (λ x. x.uuid) e, ap (λ x. x.uuid) f))
asking-IsKeyed u v (inr (inl e)) (inr (inl f)) same = e ∙ sym f
asking-IsKeyed u v i (inr (inr j)) same = absurd j
asking-IsKeyed u v (inr (inr j)) i same = absurd j

clean_bad_confirmation_codes_lem_example :
    ((later : ℕ) (code : Option ℕ)
      → 3600000101 ≤ later
      → map (check_confirmation_code later code) (clean_bad_confirmation_codes 5 3600000101 asking)
        ≡ map (check_confirmation_code later code) asking)
    × (length (filter (is_bad 3600000101) asking) ≤ 5
        → filter (is_bad 3600000101) (clean_bad_confirmation_codes 5 3600000101 asking) ≡ [])
clean_bad_confirmation_codes_lem_example =
    clean_bad_confirmation_codes_lem 5 3600000101 asking asking-IsKeyed
