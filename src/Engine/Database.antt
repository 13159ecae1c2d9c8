-- ===== src/Engine/Database.antt =====
-- `ElementEngine.load_elements` and `load_from_database`, with the tables as lists of rows.
use exordos_core.Base.{ℕ, Bool, true, false, none, some, List, [], ◌∷◌, ◌++◌}
use exordos_core.Base.Dict.{Dict, lookup, insert}
use exordos_core.Base.Result.{Result, ok, err, ◌>>=◌}
use exordos_core.Engine.{
  Element, Resource, Namespace, Engine, EngineError, key_error, unsupported_import,
  unsupported_export, Export, add_element, add_resource, add_resource_by_export,
}

-- A row of a resource or of an import names its element and resource by uuid. `link` is the property
-- of the object that is made from the row.
pub record ResourceRow : Type 0 where
  pub uuid : ℕ
  pub element : ℕ
  pub link : ℕ

pub record ImportRow : Type 0 where
  pub is_resource : Bool
  pub element : ℕ
  pub from_resource : ℕ
  pub link : ℕ

pub record Tables : Type 0 where
  pub elements : List Element
  pub resources : List ResourceRow
  pub imports : List ImportRow
  pub exports : List Export

abbrev pub empty : Engine
empty = record { namespaces = []; resource_exports = [] }

-- The loop of `load_elements`
unfoldable pub add_elements : List Element → Engine → Result EngineError Engine
add_elements [] s = ok s
add_elements (e ∷ elements) s = add_element e s >>= add_elements elements

-- `load_elements`
unfoldable pub load_elements : Tables → Result EngineError Engine
load_elements db = add_elements db.elements empty

-- `get_elements`
unfoldable pub get_elements : Dict Namespace → List Element
get_elements [] = []
get_elements ((k, ns) ∷ namespaces) = ns.element ∷ get_elements namespaces

-- `get_resources`
unfoldable pub values {ℓ} : {V : Type ℓ} → Dict V → List V
values [] = []
values ((k, v) ∷ d) = v ∷ values d

unfoldable pub get_resources : Dict Namespace → List Resource
get_resources [] = []
get_resources ((k, ns) ∷ namespaces) = values ns.resources ++ get_resources namespaces

-- `{element.uuid: element for ...}` and `{resource.uuid: resource for ...}`: the last one of a uuid
-- stays.
unfoldable pub elements_from : List Element → Dict Element → Dict Element
elements_from [] d = d
elements_from (e ∷ elements) d = elements_from elements (insert e.uuid e d)

unfoldable pub resources_from : List Resource → Dict Resource → Dict Resource
resources_from [] d = d
resources_from (r ∷ resources) d = resources_from resources (insert r.uuid r d)

-- `d[k]`
unfoldable pub subscript : {V : Type 0} → ℕ → Dict V → Result EngineError V
subscript k d = elim (lookup k d) [ none ↦ err (key_error k) | some v ↦ ok v ]

-- The loop of `_load_resources`
unfoldable pub load_rows : Dict Element → List ResourceRow → Engine → Result EngineError Engine
load_rows elements [] s = ok s
load_rows elements (row ∷ rows) s = subscript row.element elements >>= λ e.
    add_resource (record { uuid = row.uuid; element = e; link = row.link }) s
    >>= load_rows elements rows

unfoldable pub load_resources : List ResourceRow → Engine → Result EngineError Engine
load_resources rows s = load_rows (elements_from (get_elements s.namespaces) []) rows s

-- The body of the loop of `_load_imports`: the imported resource has the uuid of the original.
unfoldable pub import_resource :
    Dict Element → Dict Resource → ImportRow → Engine → Result EngineError Engine
import_resource elements resources row s = subscript row.element elements >>= λ e.
    subscript row.from_resource resources >>= λ r.
    add_resource (record { uuid = r.uuid; element = e; link = row.link }) s

unfoldable pub load_import :
    Dict Element → Dict Resource → ImportRow → Engine → Result EngineError Engine
load_import elements resources row s = elim row.is_resource [
  | false ↦ err unsupported_import
  | true ↦ import_resource elements resources row s
]

unfoldable pub import_rows :
    Dict Element → Dict Resource → List ImportRow → Engine → Result EngineError Engine
import_rows elements resources [] s = ok s
import_rows elements resources (row ∷ rows) s =
    load_import elements resources row s >>= import_rows elements resources rows

unfoldable pub load_imports : List ImportRow → Engine → Result EngineError Engine
load_imports rows s =
    import_rows (elements_from (get_elements s.namespaces) [])
      (resources_from (get_resources s.namespaces) []) rows s

unfoldable pub load_export : Export → Engine → Result EngineError Engine
load_export x s = elim x.is_resource [
  | true ↦ add_resource_by_export x s
  | false ↦ err unsupported_export
]

unfoldable pub load_exports : List Export → Engine → Result EngineError Engine
load_exports [] s = ok s
load_exports (x ∷ exports) s = load_export x s >>= load_exports exports

-- `load_from_database`
unfoldable pub load_from_database : Tables → Result EngineError Engine
load_from_database db = do
  with_elements ← add_elements db.elements empty
  with_resources ← load_resources db.resources with_elements
  with_imports ← load_imports db.imports with_resources
  load_exports db.exports with_imports
