-- ===== src/Iam/ServiceToken/Granted.antt =====
-- For whom `_handle_service_account_token_request` creates a token.
use exordos_core.Base.{
  any-witness, ℕ, ◌==◌, ◌≡◌, refl, ◌∙◌, subst, true, false, ◌&&◌, Option, some, List, [], ◌∷◌,
  is_empty, All, IsIn, IsIn-filter, All-IsIn, arith, inl, inr, Bool-cases, Option-cases,
}
use exordos_core.Base.Result.{ok, ◌>>=◌, bind-ok}
use exordos_core.Iam.Directory.{
  Tables, Project, RoleBinding, PermissionBinding, Piece, ProjectName, uuid_text, find_project,
  get_project_by_uuid, get_project_by_scope,
}
use exordos_core.Iam.Account.{User}
use exordos_core.Iam.Token.{Token, create_token}
use exordos_core.Iam.ServiceToken.{
  extract_project_from_scope, project_uuid_of, is_in_project, bindings_of,
  check_service_token_permission, find_service_account, check_user, create_service_token,
  handle_project, handle_service_account_token_request,
}

-- A binding of this user in this project.
abbrev pub IsBound : Tables → (user project : ℕ) → RoleBinding → Type 0
IsBound db user project b =
    IsIn b db.role_bindings × (b.user ≡ user) × (is_in_project project b.project ≡ true)

-- The project of each binding is a row of the projects.
abbrev pub IsKeyed : Tables → Type 0
IsKeyed db =
    All
      (λ (b : RoleBinding).
        (p : Project) → b.project ≡ some p → find_project db.projects p.uuid ≡ some p.uuid)
      db.role_bindings

-- Who gets a service token.
pub record IsGranted (db : Tables) (users : List User) (permission user account_uuid : ℕ)
    (scope : List Piece) (t : Token) : Type 0 where
  pub project : ℕ
  pub asked : extract_project_from_scope scope ≡ ok (some (uuid_text project))
  pub user_binding : (b : RoleBinding) × IsBound db user project b
  pub permitted :
      (b : RoleBinding) × IsBound db user project b
      × (p : PermissionBinding) × IsIn p db.permission_bindings
      × (p.role ≡ b.role)
      × (p.permission ≡ permission)
  pub account : (u : User) × IsIn u users × (u.uuid ≡ account_uuid) × (u.is_service ≡ true)
  pub account_binding : (b : RoleBinding) × IsBound db account_uuid project b
  pub token_user : t.user ≡ account_uuid
  pub token_project : t.project ≡ some project

first-IsIn : {A : Type 0} (xs : List A) → is_empty xs ≡ false → (x : A) × IsIn x xs
first-IsIn [] h = absurd (cc h)
first-IsIn (x ∷ xs) h = (x, inl refl)

bindings_of-IsBound :
    (db : Tables) (user project : ℕ) (b : RoleBinding)
    → IsIn b (bindings_of db user project)
    → IsBound db user project b
unfolding bindings_of
bindings_of-IsBound db user project b i =
    let (there, test) =
      IsIn-filter (λ (b : RoleBinding). b.user == user && is_in_project project b.project) b
        db.role_bindings i in
    (there, ground (arith, test), ground (arith, test))

project_uuid_of-ok :
    (name : Option ProjectName) (project : ℕ)
    → project_uuid_of name ≡ ok project
    → name ≡ some (uuid_text project)
unfolding project_uuid_of
project_uuid_of-ok name project h = ground (arith, h)

find_service_account-ok :
    (uuid : ℕ) (users : List User) (u : User)
    → find_service_account uuid users ≡ ok u
    → IsIn u users × (u.uuid ≡ uuid) × (u.is_service ≡ true)
unfolding find_service_account
find_service_account-ok uuid [] u h = absurd (cc h)
find_service_account-ok uuid (v ∷ users) u h = elim (Bool-cases (v.uuid == uuid && v.is_service)) [
  | inl fits ↦
      let same : u ≡ v = ground (arith, fits, h) in
      rw same (inl refl, ground (arith, fits), ground (arith, fits))
  | inr other ↦
      let (there, same, service) =
        find_service_account-ok uuid users u (ground (arith, other, h)) in
      (inr there, same, service)
]

check_user-ok :
    (db : Tables) (permission user project : ℕ) (done : Unit)
    → check_user db permission user project ≡ ok done
    → (is_empty (bindings_of db user project) ≡ false)
      × (check_service_token_permission db permission (bindings_of db user project) ≡ true)
unfolding check_user
check_user-ok db permission user project done h = (ground (arith, h), ground (arith, h))

check_permission-witness :
    (db : Tables) (permission user project : ℕ)
    → check_service_token_permission db permission (bindings_of db user project) ≡ true
    → (b : RoleBinding) × IsBound db user project b
      × (p : PermissionBinding) × IsIn p db.permission_bindings
      × (p.role ≡ b.role)
      × (p.permission ≡ permission)
unfolding check_service_token_permission
check_permission-witness db permission user project h =
    let (b, there, fits) = any-witness _ (bindings_of db user project) h in
    let (p, inside, test) = any-witness _ db.permission_bindings fits in
    (
      b,
      bindings_of-IsBound db user project b there,
      p,
      inside,
      ground (arith, test),
      ground (arith, test),
    )

bound-find_project :
    (db : Tables) (user project : ℕ) (b : RoleBinding)
    → IsKeyed db
    → IsBound db user project b
    → find_project db.projects project ≡ some project
bound-find_project db user project b keyed (there, of_user, inside) =
    elim (Option-cases b.project) [
      | inr (p, given) ↦
          let same : p.uuid ≡ project = ground (arith, given, inside) in
          let found =
            All-IsIn
              (λ (b : RoleBinding).
                (p : Project) → b.project ≡ some p → find_project db.projects p.uuid ≡ some p.uuid)
              b db.role_bindings keyed there p given in
          subst (λ (n : ℕ). find_project db.projects n ≡ some n) same found
      | inl nothing ↦ absurd (ground (arith, nothing, inside))
    ]

create_service_token-ok :
    (db : Tables) (now uuid refresh_uuid iam_client project : ℕ) (ttl refresh_ttl : Option ℕ)
    (u : User) (t : Token)
    → IsKeyed db
    → create_service_token db now uuid refresh_uuid iam_client project ttl refresh_ttl u ≡ ok t
    → ((b : RoleBinding) × IsBound db u.uuid project b)
      × (t.user ≡ u.uuid)
      × (t.project ≡ some project)
unfolding create_service_token create_token get_project_by_scope get_project_by_uuid
create_service_token-ok db now uuid refresh_uuid iam_client project ttl refresh_ttl u t keyed h =
    let given : is_empty (bindings_of db u.uuid project) ≡ false = ground (arith, h) in
    let (b, there) = first-IsIn _ given in
    let bound = bindings_of-IsBound db u.uuid project b there in
    (
      (b, bound),
      ground (arith, given, h),
      ground (arith, given, h, bound-find_project db u.uuid project b keyed bound),
    )

-- If the project of each role binding is a row, a service token is created only for a scope with one
-- project, in which the user has a role and a role with the permission, and only for a service account with
-- a role there; the token is one of this account and this project.
pub service_token-IsGranted :
    (db : Tables) (users : List User)
    (permission now uuid refresh_uuid iam_client user account_uuid : ℕ) (scope : List Piece)
    (ttl refresh_ttl : Option ℕ) (t : Token)
    → IsKeyed db
    → handle_service_account_token_request db users permission now uuid refresh_uuid iam_client user
        account_uuid scope ttl refresh_ttl
      ≡ ok t
    → IsGranted db users permission user account_uuid scope t
unfolding handle_service_account_token_request handle_project
service_token-IsGranted db users permission now uuid refresh_uuid iam_client user account_uuid scope
      ttl refresh_ttl t keyed h =
    let (project, named, handled) =
      bind-ok (extract_project_from_scope scope >>= project_uuid_of)
        (handle_project db users permission now uuid refresh_uuid iam_client user account_uuid ttl
          refresh_ttl)
        t h in
    let (name, extracted, is_uuid) =
      bind-ok (extract_project_from_scope scope) project_uuid_of project named in
    let (account, found, created) =
      bind-ok
        (check_user db permission user project >>= (λ _. find_service_account account_uuid users))
        (create_service_token db now uuid refresh_uuid iam_client project ttl refresh_ttl) t
        handled in
    let (done, checked, looked_up) =
      bind-ok (check_user db permission user project) (λ _. find_service_account account_uuid users)
        account found in
    let (bound, permitted) = check_user-ok db permission user project done checked in
    let (b, there) = first-IsIn _ bound in
    let (inside, same, service) = find_service_account-ok account_uuid users account looked_up in
    let (account_bound, token_user, token_project) =
      create_service_token-ok db now uuid refresh_uuid iam_client project ttl refresh_ttl account t
        keyed created in
    record {
      project = project;
      asked = rw (project_uuid_of-ok name project is_uuid) at extracted;
      user_binding = (b, bindings_of-IsBound db user project b there);
      permitted = check_permission-witness db permission user project permitted;
      account = (account, inside, same, service);
      account_binding = rw same at account_bound;
      token_user = token_user ∙ same;
      token_project = token_project;
    }
