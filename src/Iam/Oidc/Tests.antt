-- ===== src/Iam/Oidc/Tests.antt =====
-- Runs of the authorization code flow of exordos_core/user_api/iam/dm/models.py.
use exordos_core.Base.{
  ℕ, zero, suc, All, ◌≡◌, refl, true, false, [], ◌∷◌, none, some, arith, IsIn, filter, length,
}
use exordos_core.Base.Result.{ok, err}
use exordos_core.Base.Texts.{Text, text_eq, all_chars, is_url_safe, is_unreserved}
use exordos_core.Iam.Base64.{IsByte, encode_digest, urlsafe_b64encode, rstrip, b64_char}
use exordos_core.Iam.Directory.{Tables}
use exordos_core.Iam.Token.{Token}
use exordos_core.Iam.Oidc.{
  Library, Idp, callback_uri, AuthInfo, Request, login, credentials_are_invalid, missing, text,
  code_type, s256, is_verifier, confirm_token, confirm, check_callback, authorize, challenge_of,
  check_grant, delete_info, exchange_from, get_token_by_authorization_code,
}
use exordos_core.Iam.Oidc.Exchange.{IsGranted, exchange-IsGranted}
use exordos_core.Iam.Oidc.Flow.{IsCodeRequest, code_flow}

-- "light work." of RFC 4648
light_work : encode_digest (20 ∷ 251 ∷ 156 ∷ 3 ∷ []) ≡ 70 ∷ 80 ∷ 117 ∷ 99 ∷ 65 ∷ 119 ∷ []
unfolding encode_digest urlsafe_b64encode rstrip b64_char
light_work = refl

abbrev repeat : ℕ → ℕ → Text
repeat zero c = []
repeat (suc n) c = c ∷ repeat n c

repeat-IsByte : (n c : ℕ) → IsByte c → All IsByte (repeat n c)
repeat-IsByte zero c small = tt
repeat-IsByte (suc n) c small = (small, repeat-IsByte n c small)

abbrev lib : Library
lib = record { fullmatch = λ pattern address. false; sha256 = λ t. repeat 32 (length t) }

abbrev no_rows : Tables
no_rows = record { projects = []; members = []; role_bindings = []; permission_bindings = [] }

abbrev provider : Idp
provider = record {
  uuid = 5;
  iam_client = 6;
  client_id = 97 ∷ [];
  callback = callback_uri (98 ∷ []);
  nonce_required = true;
}

abbrev verifier : Text
verifier = repeat 43 97

abbrev request : Request
request = record {
  client_id = some (97 ∷ []);
  redirect_uri = some (98 ∷ []);
  state = none;
  response_type = some code_type;
  scope = some [];
  nonce = 99 ∷ [];
  code_challenge = some (challenge_of lib verifier);
  code_challenge_method = some s256;
}

abbrev session : Token
session = record {
  uuid = 7;
  user = 1;
  iam_client = 2;
  project = none;
  scope = [];
  expiration_delta = 100;
  expiration_at = 150;
  refresh_expiration_at = 1000;
  refresh_token_uuid = 8;
  managed = false;
  auto_renew = false;
  generation = 0;
}

-- A row without a challenge, long expired, of another client.
abbrev stale : AuthInfo
stale = record {
  uuid = 1;
  idp = provider;
  state = [];
  nonce = [];
  scope = [];
  redirect_uri = 98 ∷ [];
  expiration_time_at = 10;
  token = some session;
  code = 40;
  code_challenge = none;
  code_challenge_method = none;
}

stale_exchanged :
    get_token_by_authorization_code lib 77 1000000 40 (120 ∷ []) missing (stale ∷ [])
    ≡ ok (some session, [])
unfolding get_token_by_authorization_code exchange_from check_grant filter
stale_exchanged = refl

exchange-IsGranted_example :
    (info : AuthInfo) × IsIn info (stale ∷ [])
    × (info.code ≡ 40)
    × (info.token ≡ some session)
    × (delete_info info.uuid (stale ∷ []) ≡ [])
    × IsGranted lib 77 1000000 (120 ∷ []) missing info
exchange-IsGranted_example =
    exchange-IsGranted lib 77 1000000 40 (120 ∷ []) missing (stale ∷ []) [] (some session)
      stale_exchanged

request-IsCodeRequest : IsCodeRequest lib provider verifier [] request
unfolding check_callback text_eq is_verifier all_chars is_unreserved is_url_safe
request-IsCodeRequest = record {
  client_id = refl;
  client_id_given = refl;
  redirect_uri_given = refl;
  callback = refl;
  response_type = refl;
  scope = refl;
  nonce = refl;
  form = refl;
  challenge = refl;
  method = refl;
}

code_flow_example :
    (info confirmed : AuthInfo) × (authorize lib 0 2 41 provider request (stale ∷ [])
      ≡ ok (login 2 6 5, info ∷ stale ∷ []))
    × (confirm no_rows 10 11 12 session info ≡ ok confirmed)
    × (get_token_by_authorization_code lib 6 20 41
          (98 ∷ [])
          (text verifier)
          (confirmed ∷ stale ∷ [])
        ≡ ok (confirmed.token, stale ∷ []))
    × (confirmed.token ≡ some (confirm_token no_rows 10 11 12 session info))
    × (get_token_by_authorization_code lib 6 30 41 (98 ∷ []) (text verifier) (stale ∷ [])
        ≡ err credentials_are_invalid)
code_flow_example =
    code_flow lib no_rows 0 10 20 30 2 41 11 12 provider verifier [] request session (stale ∷ []) 6
      (98 ∷ []) (text verifier) (refl, repeat-IsByte 32 43 (omega arith)) request-IsCodeRequest
      ((refl, tt), (refl, tt)) (omega arith)
