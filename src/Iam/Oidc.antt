-- ===== src/Iam/Oidc.antt =====
-- exordos_core/user_api/iam/dm/models.py: `Idp` and `IdpAuthorizationInfo`, and
-- `get_token_by_authorization_code` of `IamClient`. Texts are lists of characters, times are numbers of
-- microseconds. A raised exception leaves the rows as they were, as the session is rolled back.
pub mod Exchange
pub mod Flow
mod Tests
use exordos_core.Base.{
  ℕ, ◌+◌, ◌*◌, ◌==◌, ltb, leb, Bool, true, false, not, ◌&&◌, ◌||◌, Option, none, some, List, [],
  ◌∷◌, length, filter, any, is_empty, if◌then◌else◌,
}
use exordos_core.Base.Result.{Result, ok, err, ◌>>=◌}
use exordos_core.Base.Texts.{Text, text_eq, all_chars, is_url_safe, is_unreserved}
use exordos_core.Iam.Base64.{encode_digest}
use exordos_core.Iam.Directory.{Tables, Piece, get_project_by_scope}
use exordos_core.Iam.Token.{Token, default_expiration_delta, default_refresh_expiration_delta}

-- What the models call of other libraries: `re.fullmatch` for a stored pattern, and `hashlib.sha256`
-- of a text.
pub record Library : Type 0 where
  pub fullmatch : (pattern text : Text) → Bool
  pub sha256 : Text → List ℕ

pub data IdpCallback : Type 0 where
  callback_uri : Text → IdpCallback
  callback_uri_list : List Text → IdpCallback
  callback_regexp : (pattern : Text) → IdpCallback

pub record Idp : Type 0 where
  pub uuid : ℕ
  pub iam_client : ℕ
  pub client_id : Text
  pub callback : IdpCallback
  pub nonce_required : Bool

-- A row of `IdpAuthorizationInfo`.
pub record AuthInfo : Type 0 where
  pub uuid : ℕ
  pub idp : Idp
  pub state : Text
  pub nonce : Text
  pub scope : List Piece
  pub redirect_uri : Text
  pub expiration_time_at : ℕ
  pub token : Option Token
  pub code : ℕ
  pub code_challenge : Option Text
  pub code_challenge_method : Option Text

-- The arguments of `authorize`; a missing one is none.
pub record Request : Type 0 where
  pub client_id : Option Text
  pub redirect_uri : Option Text
  pub state : Option Text
  pub response_type : Option Text
  pub scope : Option (List Piece)
  pub nonce : Text
  pub code_challenge : Option Text
  pub code_challenge_method : Option Text

pub data OidcError : Type 0 where
  invalid_client_id : OidcError
  invalid_redirect_uri : OidcError
  invalid_nonce : OidcError
  invalid_pkce_grant : OidcError
  credentials_are_invalid : OidcError

pub data RedirectError : Type 0 where
  response_type_is_required : RedirectError
  unsupported_response_type : RedirectError
  scope_is_required : RedirectError
  nonce_is_required : RedirectError
  pkce_requires_challenge : RedirectError

-- The address to go to: the page of the client with an error and the state, or the login page for a row.
pub data Answer : Type 0 where
  error_redirect : (redirect_uri : Text) → RedirectError → (state : Option Text) → Answer
  login : (auth_uuid client_uuid idp_uuid : ℕ) → Answer

-- What a request gives as a code verifier: nothing, a text, or a value of another type.
pub data Verifier : Type 0 where
  missing : Verifier
  text : Text → Verifier
  other_value : Verifier

-- "code" and "S256"
abbrev pub code_type : Text
code_type = 99 ∷ 111 ∷ 100 ∷ 101 ∷ []

abbrev pub s256 : Text
s256 = 83 ∷ 50 ∷ 53 ∷ 54 ∷ []

-- Ten minutes.
abbrev pub code_lifetime : ℕ
code_lifetime = 10 * 60 * 1000000

-- The text of an optional argument; a missing one is falsy as the empty one is.
abbrev pub or_empty : Option Text → Text
or_empty none = []
or_empty (some t) = t

unfoldable pub is_challenge : Text → Bool
is_challenge t = length t == 43 && all_chars is_url_safe t

unfoldable pub is_verifier : Text → Bool
is_verifier t = leb 43 (length t) && leb (length t) 128 && all_chars is_unreserved t

-- Both arguments are missing, or the method is S256 and the challenge has its form.
unfoldable pub check_pkce : (challenge method : Option Text) → Bool
check_pkce none none = true
check_pkce none (some m) = false
check_pkce (some c) none = false
check_pkce (some c) (some m) = text_eq m s256 && is_challenge c

-- `Token.__init__` at `confirm`: the project of the session, or the one of the scope.
unfoldable pub project_of : Tables → Token → List Piece → Option ℕ
project_of db current scope = elim current.project [
  | some p ↦ some p
  | none ↦ get_project_by_scope db current.user scope
]

unfoldable pub confirm_token :
    Tables → (now uuid refresh_uuid : ℕ) (current : Token) → AuthInfo → Token
confirm_token db now uuid refresh_uuid current info = record {
  uuid = uuid;
  user = current.user;
  iam_client = info.idp.iam_client;
  project = project_of db current info.scope;
  scope = info.scope;
  expiration_delta = default_expiration_delta;
  expiration_at = now + default_expiration_delta;
  refresh_expiration_at = now + default_refresh_expiration_delta;
  refresh_token_uuid = refresh_uuid;
  managed = false;
  auto_renew = false;
  generation = 0;
}

-- `IdpAuthorizationInfo.confirm`, for the session of the token `current`: the row is updated.
unfoldable pub confirm :
    Tables → (now uuid refresh_uuid : ℕ) (current : Token) → AuthInfo → Result OidcError AuthInfo
confirm db now uuid refresh_uuid current info =
    if info.idp.nonce_required && is_empty info.nonce
    then err invalid_nonce
    else ok (record info { token = some (confirm_token db now uuid refresh_uuid current info) })

-- `construct_callback_uri`: the address before `?code=`, the code and the state.
unfoldable pub construct_callback_uri : AuthInfo → Result OidcError (Text × ℕ × Text)
construct_callback_uri info =
    if is_empty info.redirect_uri
    then err invalid_redirect_uri
    else ok (info.redirect_uri, info.code, info.state)

abbrev pub is_some : Option Token → Bool
is_some none = false
is_some (some t) = true

abbrev pub delete_info : (uuid : ℕ) → List AuthInfo → List AuthInfo
delete_info uuid = filter (λ (i : AuthInfo). not (i.uuid == uuid))

module _ (lib : Library) where
  unfoldable pub check_callback : IdpCallback → Text → Bool
  check_callback (callback_uri uri) redirect_uri = text_eq uri redirect_uri
  check_callback (callback_uri_list uris) redirect_uri =
      any (λ (uri : Text). text_eq uri redirect_uri) uris
  check_callback (callback_regexp pattern) redirect_uri = lib.fullmatch pattern redirect_uri

  -- The row that `authorize` inserts.
  unfoldable pub new_info : (now uuid code : ℕ) → Idp → Request → AuthInfo
  new_info now uuid code idp r = record {
    uuid = uuid;
    idp = idp;
    state = or_empty r.state;
    nonce = r.nonce;
    scope = elim r.scope [ none ↦ [] | some pieces ↦ pieces ];
    redirect_uri = or_empty r.redirect_uri;
    expiration_time_at = now + code_lifetime;
    token = none;
    code = code;
    code_challenge = r.code_challenge;
    code_challenge_method = r.code_challenge_method;
  }

  -- The checks behind the ones of the client and of the address.
  unfoldable pub redirect_error : Idp → Request → Option RedirectError
  redirect_error idp r =
      if is_empty (or_empty r.response_type)
      then some response_type_is_required
      else if not (text_eq (or_empty r.response_type) code_type)
      then some unsupported_response_type
      else elim r.scope [
        | none ↦ some scope_is_required
        | some pieces ↦
            if idp.nonce_required && is_empty r.nonce
            then some nonce_is_required
            else if check_pkce r.code_challenge r.code_challenge_method
            then none
            else some pkce_requires_challenge
      ]

  -- `Idp.authorize`, with a fresh uuid and a fresh code.
  unfoldable pub authorize :
      (now uuid code : ℕ)
      → Idp
      → Request
      → List AuthInfo
      → Result OidcError (Answer × List AuthInfo)
  authorize now uuid code idp r rows =
      if is_empty (or_empty r.client_id) || not (text_eq idp.client_id (or_empty r.client_id))
      then err invalid_client_id
      else if is_empty (or_empty r.redirect_uri)
          || not (check_callback idp.callback (or_empty r.redirect_uri))
      then err invalid_redirect_uri
      else elim (redirect_error idp r) [
        | some e ↦ ok (error_redirect (or_empty r.redirect_uri) e r.state, rows)
        | none ↦ ok (login uuid idp.iam_client idp.uuid, new_info now uuid code idp r ∷ rows)
      ]

  -- The base64 text of the digest of a verifier, without its padding.
  unfoldable pub challenge_of : Text → Text
  challenge_of verifier = encode_digest (lib.sha256 verifier)

  -- The tests of a row with a challenge.
  unfoldable pub check_challenged :
      (client now : ℕ) (redirect_uri challenge verifier : Text) → AuthInfo → Bool
  check_challenged client now redirect_uri challenge verifier info =
      info.idp.iam_client == client
      && text_eq info.redirect_uri redirect_uri
      && ltb now info.expiration_time_at
      && is_some info.token
      && is_verifier verifier
      && text_eq (or_empty info.code_challenge_method) s256
      && text_eq (challenge_of verifier) challenge

  -- Without a challenge only the absence of a verifier is tested; another address is logged.
  unfoldable pub check_grant : (client now : ℕ) (redirect_uri : Text) → Verifier → AuthInfo → Bool
  check_grant client now redirect_uri missing info = is_empty (or_empty info.code_challenge)
  check_grant client now redirect_uri (text verifier) info =
      not (is_empty (or_empty info.code_challenge))
      && check_challenged client now redirect_uri (or_empty info.code_challenge) verifier info
  check_grant client now redirect_uri other_value info = false

  -- The loop of the exchange over the rows with the code.
  unfoldable pub exchange_from :
      (client now : ℕ) (redirect_uri : Text)
      → Verifier
      → (rows selected : List AuthInfo) → Result OidcError (Option Token × List AuthInfo)
  exchange_from client now redirect_uri verifier rows [] = err credentials_are_invalid
  exchange_from client now redirect_uri verifier rows (info ∷ selected) =
      if check_grant client now redirect_uri verifier info
      then ok (info.token, delete_info info.uuid rows)
      else err invalid_pkce_grant

  unfoldable pub get_token_by_authorization_code :
      (client now code : ℕ) (redirect_uri : Text)
      → Verifier
      → List AuthInfo
      → Result OidcError (Option Token × List AuthInfo)
  get_token_by_authorization_code client now code redirect_uri verifier rows =
      exchange_from client now redirect_uri verifier rows
        (filter (λ (i : AuthInfo). i.code == code) rows)
