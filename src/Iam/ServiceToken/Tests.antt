-- ===== src/Iam/ServiceToken/Tests.antt =====
-- Runs of the creation of service tokens of exordos_core/user_api/iam/dm/models.py.
use exordos_core.Base.{◌≡◌, refl, true, false, none, some, List, [], ◌∷◌, filter, any, arith}
use exordos_core.Base.Result.{ok, err}
use exordos_core.Iam.Directory.{
  Tables, Project, Piece, project_colon, uuid_text, find_project, get_project_by_uuid,
  get_project_by_scope,
}
use exordos_core.Iam.Account.{User, iam}
use exordos_core.Iam.Token.{Token, create_token}
use exordos_core.Iam.ServiceToken.{
  multiple_projects, extract_project_from_scope, single_project, project_parts, project_uuid_of,
  bindings_of, check_service_token_permission, find_service_account, check_user,
  create_service_token, handle_project, handle_service_account_token_request,
}
use exordos_core.Iam.ServiceToken.Granted.{IsGranted, IsKeyed, service_token-IsGranted}

abbrev project : Project
project = record { uuid = 4; organization = 3 }

abbrev db : Tables
db = record {
  projects = project ∷ [];
  members = [];
  role_bindings =
      record { user = 1; role = 8; project = some project }
      ∷ record { user = 2; role = 9; project = some project }
      ∷ [];
  permission_bindings = record { role = 8; permission = 10 } ∷ [];
}

abbrev robot : User
robot = record {
  uuid = 2;
  email = 0;
  is_service = true;
  source = iam;
  salt = 0;
  secret_hash = 0;
  email_verified = false;
  confirmation_code = none;
  confirmation_code_made_at = none;
  otp_secret = 0;
  otp_enabled = false;
}

abbrev scope : List Piece
scope = project_colon true (uuid_text 4) ∷ []

abbrev token : Token
token = record {
  uuid = 20;
  user = 2;
  iam_client = 6;
  project = some 4;
  scope = project_colon true (uuid_text 4) ∷ [];
  expiration_delta = 100;
  expiration_at = 600;
  refresh_expiration_at = 700;
  refresh_token_uuid = 21;
  managed = false;
  auto_renew = false;
  generation = 0;
}

created :
    handle_service_account_token_request db
      (robot ∷ [])
      10
      500
      20
      21
      6
      1
      2
      scope
      (some 100)
      (some 200)
    ≡ ok token
unfolding handle_service_account_token_request handle_project extract_project_from_scope
    single_project project_parts project_uuid_of check_user bindings_of filter
    check_service_token_permission any find_service_account create_service_token create_token
    get_project_by_scope get_project_by_uuid find_project
created = refl

two_projects :
    handle_service_account_token_request db
      (robot ∷ [])
      10
      500
      20
      21
      6
      1
      2
      (project_colon true (uuid_text 4) ∷ project_colon true (uuid_text 5) ∷ [])
      none
      none
    ≡ err (multiple_projects (uuid_text 4 ∷ uuid_text 5 ∷ []))
unfolding handle_service_account_token_request extract_project_from_scope single_project
    project_parts
two_projects = refl

db-IsKeyed : IsKeyed db
unfolding find_project
db-IsKeyed = (λ p e. ground (arith, e), (λ p e. ground (arith, e), tt))

service_token-IsGranted_example : IsGranted db (robot ∷ []) 10 1 2 scope token
service_token-IsGranted_example =
    service_token-IsGranted db (robot ∷ []) 10 500 20 21 6 1 2 scope (some 100) (some 200) token
      db-IsKeyed created
