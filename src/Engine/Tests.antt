-- ===== src/Engine/Tests.antt =====
-- An engine loaded from tables, and the theorems on it.
use exordos_core.Base.{
  ℕ, ◌≡◌, refl, ◌==◌, true, ◌&&◌, none, some, List, [], ◌∷◌, All, if◌then◌else◌,
}
use exordos_core.Base.Dict.{lookup, insert, delete}
use exordos_core.Base.Result.{ok, err}
use exordos_core.Engine.{
  Link, Element, Resource, Engine, key_error, namespace_add, namespace_delete, namespace_get,
  add_element, write_namespace, add_resource, delete_resource, get_resource_by_link,
  add_resource_by_export, get_resource_by_export_link,
}
use exordos_core.Engine.Database.{
  Tables, add_elements, get_elements, elements_from, values, get_resources, resources_from,
  subscript, load_rows, load_resources, import_resource, load_import, import_rows, load_imports,
  load_export, load_exports, load_from_database,
}
use exordos_core.Engine.Coherent.{IsCoherent}
use exordos_core.Engine.Calls.{
  Call, to_add_resource, to_add_element, to_delete_resource, call_all, call_all-IsCoherent,
}
use exordos_core.Engine.Found.{found, found-add_resource, delete_resource-add_resource}
use exordos_core.Engine.Loaded.{IsRowFound, load_from_database-IsCoherent}

program : Unit {0}
unfolding lookup insert delete namespace_add namespace_delete namespace_get add_element
    write_namespace add_resource delete_resource get_resource_by_link add_resource_by_export
    get_resource_by_export_link add_elements get_elements elements_from values get_resources
    resources_from subscript load_rows load_resources import_resource load_import import_rows
    load_imports load_export load_exports load_from_database
program = tt

abbrev core : Element
core = record { uuid = 100; link = 1 }

abbrev shop : Element
shop = record { uuid = 200; link = 2 }

abbrev tables : Tables
tables = record {
  elements = core ∷ shop ∷ [];
  resources =
      record { uuid = 11; element = 100; link = 7 }
      ∷ record { uuid = 12; element = 200; link = 7 }
      ∷ [];
  imports = record { is_resource = true; element = 200; from_resource = 11; link = 8 } ∷ [];
  exports =
      record {
        is_resource = true;
        element = core;
        link = record { location = 7; parameter = some 3 };
        full_link = 17;
      }
      ∷ [];
}

abbrev database : Resource
database = record { uuid = 11; element = core; link = 7 }

abbrev loaded : Engine
loaded = record {
  namespaces =
      (1, record { element = core; resources = (7, database) ∷ [] })
      ∷ (
        2,
        record {
          element = shop;
          resources =
              (7, record { uuid = 12; element = shop; link = 7 })
              ∷ (8, record { uuid = 11; element = shop; link = 8 })
              ∷ [];
        },
      )
      ∷ [];
  resource_exports = (17, database) ∷ [];
}

loads : load_from_database tables ≡ ok loaded
unfolding program
loads = refl

exported : get_resource_by_export_link 17 loaded ≡ ok database
unfolding program
exported = refl

unknown_element :
    add_resource (record { uuid = 13; element = record { uuid = 300; link = 3 }; link = 7 }) loaded
    ≡ err (key_error 3)
unfolding program
unknown_element = refl

load_from_database-IsCoherent_example : IsCoherent loaded × All (IsRowFound loaded) tables.resources
load_from_database-IsCoherent_example = load_from_database-IsCoherent tables loaded loads

abbrev added : Resource
added = record { uuid = 14; element = shop; link = 9 }

abbrev larger : Engine
larger = record loaded {
  namespaces =
      (1, record { element = core; resources = (7, database) ∷ [] })
      ∷ (
        2,
        record {
          element = shop;
          resources =
              (7, record { uuid = 12; element = shop; link = 7 })
              ∷ (8, record { uuid = 11; element = shop; link = 8 })
              ∷ (9, added)
              ∷ [];
        },
      )
      ∷ [];
}

adds : add_resource added loaded ≡ ok larger
unfolding program
adds = refl

found-add_resource_example :
    (found 2 9 loaded ≡ none)
    × ((e l : ℕ) → found e l larger ≡ (if 2 == e && 9 == l then some added else found e l loaded))
found-add_resource_example = found-add_resource added loaded larger adds

delete_resource-add_resource_example :
    (t : Engine) × (delete_resource added larger ≡ ok t)
    × ((e : Element) (link : Link)
        → get_resource_by_link e link t ≡ get_resource_by_link e link loaded)
delete_resource-add_resource_example = delete_resource-add_resource added loaded larger adds

abbrev calls : List Call
calls = to_add_resource added ∷ to_add_element core ∷ to_delete_resource database ∷ []

call_all-IsCoherent_example : IsCoherent (call_all calls loaded)
call_all-IsCoherent_example =
    call_all-IsCoherent calls loaded (load_from_database-IsCoherent tables loaded loads).0
