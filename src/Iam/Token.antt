-- ===== src/Iam/Token.antt =====
-- exordos_core/user_api/iam/dm/models.py: `Token` and `ManagedToken`; exordos_core/iam/service.py: the
-- renewal; exordos_core/user_api/iam/drivers.py: what is checked of an access token. Times and
-- lifetimes are numbers of microseconds, and lifetimes are not negative.
pub mod Validity
pub mod Renewal
pub mod Refresh
mod Tests
use exordos_core.Base.{
  ℕ, ◌+◌, ◌*◌, ◌/◌, ◌%◌, ◌==◌, ltb, Bool, true, false, not, ◌&&◌, Option, none, some, List, [], ◌∷◌,
  is_empty, if◌then◌else◌,
}
use exordos_core.Base.Result.{Result, ok, err, ◌>>=◌}
use exordos_core.Iam.Directory.{Tables, Piece, get_project_by_scope}

pub record Token : Type 0 where
  pub uuid : ℕ
  pub user : ℕ
  pub iam_client : ℕ
  pub project : Option ℕ
  pub scope : List Piece
  pub expiration_delta : ℕ
  pub expiration_at : ℕ
  pub refresh_expiration_at : ℕ
  pub refresh_token_uuid : ℕ
  pub managed : Bool
  pub auto_renew : Bool
  pub generation : ℕ

-- What is signed into an access token, by what is checked later: the expiration in whole seconds, and
-- the generation, which old tokens do not have.
pub record TokenInfo : Type 0 where
  pub uuid : ℕ
  pub exp : ℕ
  pub gen : Option ℕ

pub data TokenError : Type 0 where
  invalid_refresh_token : TokenError
  invalid_auth_token : TokenError

-- `get_default_expiration_delta` and `get_default_refresh_expiration_delta`
abbrev pub default_expiration_delta : ℕ
default_expiration_delta = 60 * 60 * 1000000

abbrev pub default_refresh_expiration_delta : ℕ
default_refresh_expiration_delta = 24 * 60 * 60 * 1000000

abbrev pub or_else : Option ℕ → ℕ → ℕ
or_else none d = d
or_else (some n) d = n

-- `_create_token_for_user` with `Token.__init__`: the lifetimes are those of the request, if any.
unfoldable pub create_token :
    Tables
    → (now uuid refresh_uuid user iam_client : ℕ) (scope : List Piece) (ttl refresh_ttl : Option ℕ)
    → Token
create_token db now uuid refresh_uuid user iam_client scope ttl refresh_ttl = record {
  uuid = uuid;
  user = user;
  iam_client = iam_client;
  project = get_project_by_scope db user scope;
  scope = scope;
  expiration_delta = or_else ttl default_expiration_delta;
  expiration_at = now + or_else ttl default_expiration_delta;
  refresh_expiration_at = now + or_else refresh_ttl default_refresh_expiration_delta;
  refresh_token_uuid = refresh_uuid;
  managed = false;
  auto_renew = false;
  generation = 0;
}

unfoldable pub check_refresh_expiration : (now : ℕ) → Token → Bool
check_refresh_expiration now t = ltb now t.refresh_expiration_at

unfoldable pub validate_refresh_expiration : (now : ℕ) → Token → Result TokenError Unit
validate_refresh_expiration now t =
    if check_refresh_expiration now t then ok tt else err invalid_refresh_token

unfoldable pub check_expiration : (now : ℕ) → Token → Bool
check_expiration now t = ltb now t.expiration_at

unfoldable pub validate_expiration : (now : ℕ) → Token → Result TokenError Unit
validate_expiration now t = if check_expiration now t then ok tt else err invalid_auth_token

-- `token_info.get("gen", 0) != self.generation`
unfoldable pub validate_generation : TokenInfo → Token → Result TokenError Unit
validate_generation info t =
    if or_else info.gen 0 == t.generation then ok tt else err invalid_auth_token

unfoldable pub refresh : Tables → (now : ℕ) (scope : List Piece) → Token → Token
refresh db now scope t =
    let used = if is_empty scope then t.scope else scope in
    record t {
      expiration_at = now + t.expiration_delta;
      project = get_project_by_scope db t.user used;
      scope = used;
    }

-- `expiration_delta / 2`: a `timedelta` is divided with rounding to the nearest even microsecond.
unfoldable pub half : ℕ → ℕ
half delta = (delta + delta / 2 % 2) / 2

unfoldable pub needs_renewal : (now : ℕ) → Token → Bool
needs_renewal now t = ltb t.expiration_at (now + half t.expiration_delta)

unfoldable pub renew : (now : ℕ) → Token → Token
renew now t = record t { expiration_at = now + t.expiration_delta }

-- `ManagedToken.regenerate`; the update behind it finds neither scope nor lifetime changed.
unfoldable pub regenerate : (now : ℕ) → Token → Token
regenerate now t = record t {
  generation = t.generation + 1;
  expiration_at = now + t.expiration_delta;
}

-- `ManagedToken.update`, after a request that may have set another scope and another lifetime.
unfoldable pub update :
    Tables → (now : ℕ) (scope : Option (List Piece)) (delta : Option ℕ) → Token → Token
update db now scope delta t =
    let scoped : Token = elim scope [
      | none ↦ t
      | some pieces ↦ record t { scope = pieces; project = get_project_by_scope db t.user pieces }
    ] in
    elim delta [
      | none ↦ scoped
      | some d ↦ record scoped { expiration_delta = d; expiration_at = now + d }
    ]

-- `_get_access_token_info`
unfoldable pub get_access_token_info : Token → TokenInfo
get_access_token_info t = record {
  uuid = t.uuid;
  exp = t.expiration_at / 1000000;
  gen = some t.generation;
}

-- `Token.my`
unfoldable pub my : TokenInfo → List Token → Result TokenError Token
my info [] = err invalid_auth_token
my info (t ∷ tokens) = let later = my info tokens in if t.uuid == info.uuid then ok t else later

-- `DirectDriver.get_introspection_info`, by whether it lets the token pass.
unfoldable pub validate : (now : ℕ) → TokenInfo → Token → Result TokenError Token
validate now info t = validate_expiration now t >>= λ _. validate_generation info t >>= λ _. ok t

unfoldable pub get_introspection_info : (now : ℕ) → TokenInfo → List Token → Result TokenError Token
get_introspection_info now info tokens = my info tokens >>= validate now info

-- `get_token_by_refresh_token`, for a refresh token that is signed with this uuid: the row, changed.
unfoldable pub find_refresh : ℕ → List Token → Result TokenError Token
find_refresh uuid [] = err invalid_refresh_token
find_refresh uuid (t ∷ tokens) =
    let later = find_refresh uuid tokens in if t.refresh_token_uuid == uuid then ok t else later

unfoldable pub refresh_valid :
    Tables → (now : ℕ) (scope : List Piece) → Token → Result TokenError Token
refresh_valid db now scope t =
    validate_refresh_expiration now t >>= λ _. ok (refresh db now scope t)

unfoldable pub get_token_by_refresh_token :
    Tables → (now uuid : ℕ) (scope : List Piece) → List Token → Result TokenError Token
get_token_by_refresh_token db now uuid scope tokens =
    find_refresh uuid tokens >>= refresh_valid db now scope

-- The body of the loop of `TokenRenewalService._iteration`; `fails` tells for which tokens the
-- update raises.
unfoldable pub renew_one : (fails : ℕ → Bool) (now : ℕ) → Token → Token
renew_one fails now t =
    if t.managed && t.auto_renew && needs_renewal now t && not (fails t.uuid)
    then renew now t
    else t

unfoldable pub renewal_iteration : (fails : ℕ → Bool) (now : ℕ) → List Token → List Token
renewal_iteration fails now [] = []
renewal_iteration fails now (t ∷ tokens) =
    renew_one fails now t ∷ renewal_iteration fails now tokens
