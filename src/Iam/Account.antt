-- ===== src/Iam/Account.antt =====
-- exordos_core/user_api/iam/dm/models.py: `ModelWithSecret` and `User`, with the sources of users; and
-- exordos_core/janitor/service.py. Strings are numbers, the empty one is 0. A time is a number of
-- microseconds; the time, a fresh salt, code or one-time secret is an argument of the call that takes it.
pub mod Secrets
pub mod Codes
pub mod Login
pub mod Janitor
mod Tests
use exordos_core.Base.{
  ℕ, ◌+◌, ◌-◌, ◌*◌, ◌==◌, ltb, leb, Bool, true, false, not, ◌&&◌, ◌||◌, Option, none, some, List,
  [], ◌∷◌, ◌++◌, filter, any, if◌then◌else◌,
}
use exordos_core.Base.Result.{Result, ok, err, ◌>>=◌}

-- `iam_c.USER_CONFIRMATION_CODE_TTL`, one hour.
abbrev pub user_confirmation_code_ttl : ℕ
user_confirmation_code_ttl = 3600 * 1000000

abbrev pub iterations : ℕ
iterations = 251685

-- Where the password of a user is checked: here, or by a Keycloak server too.
pub data UserSource : Type 0 where
  iam : UserSource
  keycloak : (endpoint realm : ℕ) → UserSource

-- A user, by what the modelled methods read and write.
pub record User : Type 0 where
  pub uuid : ℕ
  pub email : ℕ
  pub is_service : Bool
  pub source : UserSource
  pub salt : ℕ
  pub secret_hash : ℕ
  pub email_verified : Bool
  pub confirmation_code : Option ℕ
  pub confirmation_code_made_at : Option ℕ
  pub otp_secret : ℕ
  pub otp_enabled : Bool

-- What the models call of other libraries: `hashlib.pbkdf2_hmac` with its result in hexadecimal,
-- `base64.b64decode`, `verify` of `pyotp.TOTP`, and the server of a Keycloak source.
pub record Library : Type 0 where
  pub pbkdf2_hmac : (secret : ℕ) (salt : List ℕ) (iterations : ℕ) → ℕ
  pub b64decode : ℕ → List ℕ
  pub verify : (otp_secret code now : ℕ) → Bool
  pub check_password : (endpoint realm login password : ℕ) → Bool
  pub global_salt : ℕ

pub data AccountError : Type 0 where
  credentials_are_invalid : AccountError
  service_account_password_change : AccountError
  service_account_password_auth : AccountError
  otp_not_enabled : AccountError
  otp_already_enabled : AccountError
  otp_invalid_code : AccountError
  can_not_confirm_user : (code : Option ℕ) → AccountError

-- The role that `make_newcomer` binds, in no project.
pub record NewcomerBinding : Type 0 where
  pub user : ℕ

module _ (lib : Library) where
  -- `_generate_hash`
  unfoldable pub generate_hash : (secret secret_salt : ℕ) → ℕ
  generate_hash secret secret_salt =
      lib.pbkdf2_hmac secret (lib.b64decode secret_salt ++ lib.b64decode lib.global_salt) iterations

  -- `ModelWithSecret.__init__`, on a user that has all but its secret.
  unfoldable pub init_secret : (secret salt : ℕ) → User → User
  init_secret secret salt user =
      let used = if user.is_service then 0 else secret in
      record user { salt = salt; secret_hash = generate_hash used salt }

  unfoldable pub check_secret : User → ℕ → Bool
  check_secret user secret = user.secret_hash == generate_hash secret user.salt

  unfoldable pub validate_secret : User → ℕ → Result AccountError Unit
  validate_secret user secret =
      if check_secret user secret then ok tt else err credentials_are_invalid

  -- The setter of `secret`.
  unfoldable pub set_secret : (salt value : ℕ) → User → Result AccountError User
  set_secret salt value user =
      if user.is_service
      then err service_account_password_change
      else ok (record user { salt = salt; secret_hash = generate_hash value salt })

  unfoldable pub change_secret_safe :
      (salt old_secret new_secret : ℕ) → User → Result AccountError User
  change_secret_safe salt old_secret new_secret user =
      validate_secret user old_secret >>= λ _. set_secret salt new_secret user

  -- `process_secret` of the source of the user: a Keycloak source keeps a password that it accepted.
  unfoldable pub process_secret : (salt secret : ℕ) → User → Result AccountError User
  process_secret salt secret user = if check_secret user secret then ok user else elim user.source [
    | iam ↦ err credentials_are_invalid
    | keycloak endpoint realm ↦
        if lib.check_password endpoint realm user.email secret
        then set_secret salt secret user
        else err credentials_are_invalid
  ]

  unfoldable pub validate_otp : (now : ℕ) (code : Option ℕ) → User → Result AccountError Bool
  validate_otp now code user =
      if not user.otp_enabled
      then err otp_not_enabled
      else elim code [ none ↦ ok false | some c ↦ ok (lib.verify user.otp_secret c now) ]

  unfoldable pub enable_otp : (salt fresh password : ℕ) → User → Result AccountError User
  enable_otp salt fresh password user =
      if user.otp_enabled
      then err otp_already_enabled
      else process_secret salt password user >>= λ u. ok (record u { otp_secret = fresh })

  unfoldable pub activate_otp : (now code : ℕ) → User → Result AccountError User
  activate_otp now code user =
      if user.otp_enabled
      then err otp_already_enabled
      else if user.otp_secret == 0
      then err otp_not_enabled
      else if not (lib.verify user.otp_secret code now)
      then err otp_invalid_code
      else ok (record user { otp_enabled = true })

  unfoldable pub disable_otp : (salt password : ℕ) → User → Result AccountError User
  disable_otp salt password user = process_secret salt password user >>= λ u.
      ok (record u { otp_secret = 0; otp_enabled = false })

-- `self.confirmation_code or uuid4()`
unfoldable pub create_confirmation_code : (fresh now : ℕ) → User → User
create_confirmation_code fresh now user = record user {
  confirmation_code = elim user.confirmation_code [ none ↦ some fresh | some c ↦ some c ];
  confirmation_code_made_at = some now;
}

unfoldable pub clear_confirmation_code : User → User
clear_confirmation_code user = record user {
  confirmation_code = none;
  confirmation_code_made_at = none;
}

-- The comparison behind the age, on the codes that are there.
unfoldable pub code_fits : (now code stored made_at : ℕ) → Bool
code_fits now code stored made_at =
    if ltb (made_at + user_confirmation_code_ttl) now then false else stored == code

unfoldable pub check_confirmation_code : (now : ℕ) (code : Option ℕ) → User → Bool
check_confirmation_code now code user = elim code [
  | none ↦ false
  | some c ↦ elim user.confirmation_code [
    | none ↦ false
    | some stored ↦ elim user.confirmation_code_made_at [
      | none ↦ false
      | some made_at ↦ code_fits now c stored made_at
    ]
  ]
]

-- `confirm_email`, with the role bindings.
unfoldable pub confirm_email : User → List NewcomerBinding → User × List NewcomerBinding
confirm_email user bindings = (
  clear_confirmation_code (record user { email_verified = true }),
  bindings ++ record { user = user.uuid } ∷ [],
)

unfoldable pub confirm_email_by_code :
    (now : ℕ) (code : Option ℕ)
    → User
    → List NewcomerBinding
    → Result AccountError (User × List NewcomerBinding)
confirm_email_by_code now code user bindings =
    if check_confirmation_code now code user
    then ok (confirm_email user bindings)
    else err (can_not_confirm_user code)

module _ (lib : Library) where
  unfoldable pub reset_secret : (salt new_secret : ℕ) → User → Result AccountError User
  reset_secret salt new_secret user =
      set_secret lib salt new_secret user >>= λ u. ok (clear_confirmation_code u)

  unfoldable pub reset_secret_by_code :
      (salt now new_secret : ℕ) (code : Option ℕ) → User → Result AccountError User
  reset_secret_by_code salt now new_secret code user =
      if check_confirmation_code now code user
      then reset_secret salt new_secret user
      else err (can_not_confirm_user code)

-- The filter of `_clean_bad_confirmation_codes`.
unfoldable pub is_bad : (now : ℕ) → User → Bool
is_bad now user = elim user.confirmation_code_made_at [
  | some made_at ↦ ltb (made_at + user_confirmation_code_ttl) now
  | none ↦ elim user.confirmation_code [ none ↦ false | some c ↦ true ]
]

-- `ORDER BY confirmation_code_made_at ASC`: the rows without a time stand last.
unfoldable pub earlier : User → User → Bool
earlier u v = elim v.confirmation_code_made_at [
  | none ↦ true
  | some t ↦ elim u.confirmation_code_made_at [ none ↦ false | some s ↦ leb s t ]
]

unfoldable pub insert_by_age : User → List User → List User
insert_by_age u [] = u ∷ []
insert_by_age u (v ∷ users) =
    let later = v ∷ insert_by_age u users in if earlier u v then u ∷ v ∷ users else later

unfoldable pub sort_by_age : List User → List User
sort_by_age [] = []
sort_by_age (u ∷ users) = insert_by_age u (sort_by_age users)

unfoldable pub take : {A : Type 0} → ℕ → List A → List A
take n [] = []
take n (x ∷ xs) = let rest = take (n - 1) xs in if n == 0 then [] else x ∷ rest

-- The saved rows of the users that are cleared.
unfoldable pub clear_all : List User → List User → List User
clear_all bad [] = []
clear_all bad (u ∷ users) =
    (if any (λ b. b.uuid == u.uuid) bad then clear_confirmation_code u else u) ∷ clear_all bad users

-- `_clean_bad_confirmation_codes`
unfoldable pub clean_bad_confirmation_codes : (limit now : ℕ) → List User → List User
clean_bad_confirmation_codes limit now users =
    clear_all (take limit (sort_by_age (filter (is_bad now) users))) users

module _ (lib : Library) where
  -- The test of the one-time code, behind the password.
  unfoldable pub check_otp : (now : ℕ) (otp_code : Option ℕ) → User → Result AccountError User
  check_otp now otp_code u =
      if u.otp_enabled
      then (validate_otp lib now otp_code u >>= λ valid.
          if valid then ok u else err otp_invalid_code)
      else ok u

  -- `IamClient._authenticate_user` on the result of the query, and the exception of
  -- `_authenticate_user_with_password` when there is no user. The loop ends with the first user.
  unfoldable pub authenticate_user_with_password :
      (salt now password : ℕ) (otp_code : Option ℕ) → List User → Result AccountError User
  authenticate_user_with_password salt now password otp_code [] = err credentials_are_invalid
  authenticate_user_with_password salt now password otp_code (user ∷ users) =
      if user.is_service
      then err service_account_password_auth
      else process_secret lib salt password user >>= check_otp now otp_code
