-- ===== src/Engine.antt =====
-- exordos_core/elements/dm/models.py: the classes `Namespace` and `ElementEngine`.
pub mod Database
pub mod Coherent
pub mod Found
pub mod Calls
pub mod Loaded
mod Tests
use exordos_core.Base.{ℕ, ◌==◌, Bool, true, false, Option, none, some, List, [], ◌∷◌, if◌then◌else◌}
use exordos_core.Base.Dict.{Dict, lookup, insert, delete}
use exordos_core.Base.Result.{Result, ok, err, ◌>>=◌}

-- A link to a resource: what stands in front of the `:` of its last part, as a number, and the
-- parameter behind it. `utils.clear_parameters` gives the first.
pub record Link : Type 0 where
  pub location : ℕ
  pub parameter : Option ℕ

-- The link of an element is `$` and its name; it stands for the name.
pub record Element : Type 0 where
  pub uuid : ℕ
  pub link : ℕ

-- A `Resource` or an `ImportedResource`, by what the engine reads of it; `link` has no parameter.
pub record Resource : Type 0 where
  pub uuid : ℕ
  pub element : Element
  pub link : ℕ

pub record Namespace : Type 0 where
  pub element : Element
  pub resources : Dict Resource

-- `ElementEngine`, without the schema of manifests.
pub record Engine : Type 0 where
  pub namespaces : Dict Namespace
  pub resource_exports : Dict Resource

-- The exceptions: those of `exceptions`, and `KeyError`.
pub data EngineError : Type 0 where
  resource_exists : (link : ℕ) → EngineError
  resource_missing : (link : ℕ) → EngineError
  element_exists : (link : ℕ) → EngineError
  element_missing : (link : ℕ) → EngineError
  namespace_not_found : (name : ℕ) → EngineError
  export_exists : (link : ℕ) → EngineError
  export_missing : (link : ℕ) → EngineError
  unsupported_import : EngineError
  unsupported_export : EngineError
  key_error : (key : ℕ) → EngineError

-- The methods of `Namespace`.
unfoldable pub namespace_add : Resource → Namespace → Result EngineError Namespace
namespace_add r ns = elim (lookup r.link ns.resources) [
  | some _ ↦ err (resource_exists r.link)
  | none ↦ ok (record ns { resources = insert r.link r ns.resources })
]

unfoldable pub namespace_delete : Resource → Namespace → Result EngineError Namespace
namespace_delete r ns = elim (lookup r.link ns.resources) [
  | none ↦ err (resource_missing r.link)
  | some _ ↦ ok (record ns { resources = delete r.link ns.resources })
]

unfoldable pub namespace_get : Link → Namespace → Result EngineError Resource
namespace_get link ns = elim (lookup link.location ns.resources) [
  | none ↦ err (resource_missing link.location)
  | some r ↦ ok r
]

-- `ElementEngine.add_element`
unfoldable pub add_element : Element → Engine → Result EngineError Engine
add_element e s = elim (lookup e.link s.namespaces) [
  | some _ ↦ err (element_exists e.link)
  | none ↦ ok (record s {
    namespaces = insert e.link (record { element = e; resources = [] }) s.namespaces;
  })
]

-- `get_namespace`, and `get_element`, which returns its element.
unfoldable pub get_namespace : ℕ → Engine → Result EngineError Namespace
get_namespace name s = elim (lookup name s.namespaces) [
  | none ↦ err (namespace_not_found name)
  | some ns ↦ ok ns
]

unfoldable pub get_element : ℕ → Engine → Result EngineError Element
get_element link s = do ns ← get_namespace link s; ok ns.element

-- `remove_element`
unfoldable pub remove_element : Element → Engine → Result EngineError Engine
remove_element e s = elim (lookup e.link s.namespaces) [
  | none ↦ err (element_missing e.link)
  | some _ ↦ ok (record s { namespaces = delete e.link s.namespaces })
]

unfoldable pub write_namespace :
    ℕ → Engine → Result EngineError Namespace → Result EngineError Engine
write_namespace link s (err e) = err e
write_namespace link s (ok ns) = ok (record s { namespaces = insert link ns s.namespaces })

-- `add_resource`. The exception for an unknown element is made but not raised: the subscription
-- that follows raises a `KeyError`.
unfoldable pub add_resource : Resource → Engine → Result EngineError Engine
add_resource r s = elim (lookup r.element.link s.namespaces) [
  | none ↦ err (key_error r.element.link)
  | some ns ↦ write_namespace r.element.link s (namespace_add r ns)
]

-- `delete_resource`
unfoldable pub delete_resource : Resource → Engine → Result EngineError Engine
delete_resource r s = elim (lookup r.element.link s.namespaces) [
  | none ↦ err (key_error r.element.link)
  | some ns ↦ write_namespace r.element.link s (namespace_delete r ns)
]

-- `get_resource_by_link`. The text of the exception for an unknown element looks the element up
-- again, which raises a `KeyError`.
unfoldable pub get_resource_by_link : Element → Link → Engine → Result EngineError Resource
get_resource_by_link e link s = elim (lookup e.link s.namespaces) [
  | none ↦ err (key_error e.link)
  | some ns ↦ namespace_get link ns
]

-- An export; `full_link` is `$`, the name of its element, `.` and its link.
pub record Export : Type 0 where
  pub is_resource : Bool
  pub element : Element
  pub link : Link
  pub full_link : ℕ

-- `add_resource_by_export`
unfoldable pub add_resource_by_export : Export → Engine → Result EngineError Engine
add_resource_by_export x s = elim (get_resource_by_link x.element x.link s) [
  | err e ↦ err e
  | ok r ↦ elim (lookup x.full_link s.resource_exports) [
    | some _ ↦ err (export_exists x.full_link)
    | none ↦ ok (record s { resource_exports = insert x.full_link r s.resource_exports })
  ]
]

-- `delete_resource_by_export`
unfoldable pub delete_resource_by_export : Export → Engine → Result EngineError Engine
delete_resource_by_export x s = elim (lookup x.full_link s.resource_exports) [
  | none ↦ err (key_error x.full_link)
  | some _ ↦ ok (record s { resource_exports = delete x.full_link s.resource_exports })
]

-- `get_resource_by_export_link`
unfoldable pub get_resource_by_export_link : ℕ → Engine → Result EngineError Resource
get_resource_by_export_link link s = elim (lookup link s.resource_exports) [
  | none ↦ err (export_missing link)
  | some r ↦ ok r
]
