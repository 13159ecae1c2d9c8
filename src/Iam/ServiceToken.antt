-- ===== src/Iam/ServiceToken.antt =====
-- exordos_core/user_api/iam/dm/models.py: `_extract_project_from_scope`, `_check_service_token_permission`
-- and `_handle_service_account_token_request` of `IamClient`. Scopes are in lower case; the empty text
-- behind `project:` is 0.
pub mod Granted
mod Tests
use exordos_core.Base.{
  ℕ, zero, suc, ◌==◌, Bool, true, false, ◌&&◌, Option, none, some, List, [], ◌∷◌, filter, any,
  is_empty, if◌then◌else◌,
}
use exordos_core.Base.Result.{Result, ok, err, ◌>>=◌}
use exordos_core.Iam.Directory.{
  Tables, Project, RoleBinding, PermissionBinding, Piece, ProjectName, word, project_word,
  project_colon, default_project, uuid_text, other_text,
}
use exordos_core.Iam.Account.{User}
use exordos_core.Iam.Token.{Token, create_token}

pub data ServiceTokenError : Type 0 where
  multiple_projects : List ProjectName → ServiceTokenError
  project_scope_required : ServiceTokenError
  can_not_create_service_token : ServiceTokenError
  user_not_found : (uuid : ℕ) → ServiceTokenError

-- What stands behind `project:` in the parts of a scope.
unfoldable pub project_parts : List Piece → List ProjectName
project_parts [] = []
project_parts (word w ∷ pieces) = project_parts pieces
project_parts (project_word ∷ pieces) = project_parts pieces
project_parts (project_colon exact name ∷ pieces) =
    let rest = project_parts pieces in if exact then name ∷ rest else rest

unfoldable pub single_project : List ProjectName → Result ServiceTokenError (Option ProjectName)
single_project [] = ok none
single_project (name ∷ []) = ok (some name)
single_project (name ∷ other ∷ names) = err (multiple_projects (name ∷ other ∷ names))

unfoldable pub extract_project_from_scope :
    List Piece → Result ServiceTokenError (Option ProjectName)
extract_project_from_scope scope = single_project (project_parts scope)

-- The tests of the project: it is given, and the text of a uuid.
unfoldable pub project_uuid_of : Option ProjectName → Result ServiceTokenError ℕ
project_uuid_of none = err project_scope_required
project_uuid_of (some default_project) = err can_not_create_service_token
project_uuid_of (some (uuid_text uuid)) = ok uuid
project_uuid_of (some (other_text zero)) = err project_scope_required
project_uuid_of (some (other_text (suc text))) = err can_not_create_service_token

abbrev pub is_in_project : (project : ℕ) → Option Project → Bool
is_in_project project none = false
is_in_project project (some p) = p.uuid == project

-- The role bindings of a user in a project.
unfoldable pub bindings_of : Tables → (user project : ℕ) → List RoleBinding
bindings_of db user project =
    filter (λ (b : RoleBinding). b.user == user && is_in_project project b.project) db.role_bindings

-- `permission` is the uuid of `iam.service_token.create`.
unfoldable pub check_service_token_permission : Tables → (permission : ℕ) → List RoleBinding → Bool
check_service_token_permission db permission bindings =
    any
      (λ (b : RoleBinding).
        any (λ (p : PermissionBinding). p.role == b.role && p.permission == permission)
          db.permission_bindings)
      bindings

-- `get_one` of the service account.
unfoldable pub find_service_account : (uuid : ℕ) → List User → Result ServiceTokenError User
find_service_account uuid [] = err (user_not_found uuid)
find_service_account uuid (u ∷ users) =
    let later = find_service_account uuid users in
    if u.uuid == uuid && u.is_service then ok u else later

unfoldable pub check_user : Tables → (permission user project : ℕ) → Result ServiceTokenError Unit
check_user db permission user project =
    if is_empty (bindings_of db user project)
    then err can_not_create_service_token
    else if check_service_token_permission db permission (bindings_of db user project)
    then ok tt
    else err can_not_create_service_token

-- What follows the look-up of the service account.
unfoldable pub create_service_token :
    Tables
    → (now uuid refresh_uuid iam_client project : ℕ) (ttl refresh_ttl : Option ℕ) → User
    → Result ServiceTokenError Token
create_service_token db now uuid refresh_uuid iam_client project ttl refresh_ttl account =
    if is_empty (bindings_of db account.uuid project)
    then err can_not_create_service_token
    else ok (
        create_token db now uuid refresh_uuid account.uuid iam_client
          (project_colon true (uuid_text project) ∷ []) ttl refresh_ttl)

-- The handler from the project on, for the uuid of the user that is authenticated.
unfoldable pub handle_project :
    Tables
    → List User
    → (permission now uuid refresh_uuid iam_client user service_account_uuid : ℕ)
    → (ttl refresh_ttl : Option ℕ) (project : ℕ) → Result ServiceTokenError Token
handle_project db users permission now uuid refresh_uuid iam_client user service_account_uuid ttl
      refresh_ttl project =
    check_user db permission user project
    >>= (λ _. find_service_account service_account_uuid users)
    >>= create_service_token db now uuid refresh_uuid iam_client project ttl refresh_ttl

-- `_handle_service_account_token_request`
unfoldable pub handle_service_account_token_request :
    Tables
    → List User
    → (permission now uuid refresh_uuid iam_client user service_account_uuid : ℕ)
    → (scope : List Piece) (ttl refresh_ttl : Option ℕ) → Result ServiceTokenError Token
handle_service_account_token_request db users permission now uuid refresh_uuid iam_client user
      service_account_uuid scope ttl refresh_ttl =
    extract_project_from_scope scope
    >>= project_uuid_of
    >>= handle_project db users permission now uuid refresh_uuid iam_client user
        service_account_uuid ttl refresh_ttl
