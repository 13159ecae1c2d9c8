-- ===== src/Iam/Directory.antt =====
-- exordos_core/user_api/iam/dm/models.py: the rows of organizations, projects and role bindings, and the
-- queries on them. The rows stand in the order of their creation.
use exordos_core.Base.{ℕ, ◌==◌, Bool, false, ◌&&◌, Option, none, some, List, [], ◌∷◌, if◌then◌else◌}

pub record Project : Type 0 where
  pub uuid : ℕ
  pub organization : ℕ

-- A row of `OrganizationMember`.
pub record Member : Type 0 where
  pub organization : ℕ
  pub user : ℕ
  pub is_owner : Bool

-- A row of `RoleBinding`.
pub record RoleBinding : Type 0 where
  pub user : ℕ
  pub role : ℕ
  pub project : Option Project

-- A row of `PermissionBinding`.
pub record PermissionBinding : Type 0 where
  pub role : ℕ
  pub permission : ℕ

pub record Tables : Type 0 where
  pub projects : List Project
  pub members : List Member
  pub role_bindings : List RoleBinding
  pub permission_bindings : List PermissionBinding

-- What stands behind `project:` in a scope: the word `default`, the text of a uuid, or another text.
pub data ProjectName : Type 0 where
  default_project : ProjectName
  uuid_text : ℕ → ProjectName
  other_text : ℕ → ProjectName

-- A piece of a scope in lower case, split at the spaces. The last two start with `project`; the last
-- one has a colon, and `exact` if nothing stands between `project` and the colon.
pub data Piece : Type 0 where
  word : ℕ → Piece
  project_word : Piece
  project_colon : (exact : Bool) (name : ProjectName) → Piece

-- `Organization.get_default`
unfoldable pub get_default_organization : List Member → (user : ℕ) → Option ℕ
get_default_organization [] user = none
get_default_organization (m ∷ members) user =
    let later = get_default_organization members user in
    if m.is_owner && m.user == user then some m.organization else later

abbrev pub is_of : Option ℕ → Project → Bool
is_of none p = false
is_of (some organization) p = p.organization == organization

-- `Project.get_default`, with the organization of the user.
unfoldable pub first_project_of : List RoleBinding → (user : ℕ) → Option ℕ → Option ℕ
first_project_of [] user organization = none
first_project_of (b ∷ bindings) user organization =
    let later = first_project_of bindings user organization in
    elim b.project [
      | none ↦ later
      | some p ↦ if b.user == user && is_of organization p then some p.uuid else later
    ]

unfoldable pub get_default_project : Tables → (user : ℕ) → Option ℕ
get_default_project db user =
    first_project_of db.role_bindings user (get_default_organization db.members user)

unfoldable pub find_project : List Project → ℕ → Option ℕ
find_project [] uuid = none
find_project (p ∷ projects) uuid =
    let later = find_project projects uuid in if p.uuid == uuid then some p.uuid else later

-- `Token._get_project_by_uuid`: no row has a uuid that is another text.
unfoldable pub get_project_by_uuid : Tables → ProjectName → Option ℕ
get_project_by_uuid db default_project = none
get_project_by_uuid db (uuid_text uuid) = find_project db.projects uuid
get_project_by_uuid db (other_text text) = none

-- `Token._get_project_by_scope`
unfoldable pub get_project_by_scope : Tables → (user : ℕ) → List Piece → Option ℕ
get_project_by_scope db user [] = none
get_project_by_scope db user (word w ∷ pieces) = get_project_by_scope db user pieces
get_project_by_scope db user (project_word ∷ pieces) = get_default_project db user
get_project_by_scope db user (project_colon exact default_project ∷ pieces) =
    get_default_project db user
get_project_by_scope db user (project_colon exact (uuid_text uuid) ∷ pieces) =
    get_project_by_uuid db (uuid_text uuid)
get_project_by_scope db user (project_colon exact (other_text text) ∷ pieces) =
    get_project_by_uuid db (other_text text)
