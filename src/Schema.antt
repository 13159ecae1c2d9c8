-- ===== src/Schema.antt =====
-- exordos_core/elements/dm/utils.py: the references between the component schemas of a specification.
-- A name of a schema, and a key of an object, is a number.
pub mod Pending
pub mod Copy
pub mod Resolve
mod Tests
use exordos_core.Base.{
  ℕ, zero, suc, ◌+◌, ◌==◌, length, Bool, true, false, not, ◌&&◌, ◌||◌, Option, none, some, List, [],
  ◌∷◌, ◌++◌, if◌then◌else◌,
}
use exordos_core.Base.Dict.{Dict, lookup, insert}

-- A JSON value. `text_ref name` is a string that is `SCHEMA_REF_PREFIX` and a name, `scalar` any other
-- value that is neither an object nor an array. In an object, `ref_field` is the key `$ref`.
mutual
  pub data Json : Type 0 where
    scalar : Json
    text_ref : ℕ → Json
    object : Fields → Json
    array : Items → Json

  pub data Fields : Type 0 where
    no_fields : Fields
    ref_field : Json → Fields → Fields
    field : ℕ → Json → Fields → Fields

  pub data Items : Type 0 where
    no_items : Items
    item : Json → Items → Items

-- A component schema is an object.
abbrev pub Schemas : Type 0
Schemas = Dict Fields

-- `isinstance(ref, str) and ref.startswith(SCHEMA_REF_PREFIX)`, with what follows the prefix.
abbrev pub as_ref : Json → Option ℕ
as_ref scalar = none
as_ref (text_ref name) = some name
as_ref (object fs) = none
as_ref (array is) = none

-- The name that `node.get("$ref")` refers to.
unfoldable pub alias_of : Fields → Option ℕ
alias_of no_fields = none
alias_of (ref_field v fs) = as_ref v
alias_of (field k v fs) = alias_of fs

abbrev pub yield_name : Option ℕ → List ℕ → List ℕ
yield_name none names = names
yield_name (some name) names = name ∷ names

-- `iter_schema_refs`
unfoldable mutual
  pub iter_schema_refs : Json → List ℕ
  iter_schema_refs scalar = []
  iter_schema_refs (text_ref name) = []
  iter_schema_refs (object fs) = yield_name (alias_of fs) (field_refs fs)
  iter_schema_refs (array is) = item_refs is

  pub field_refs : Fields → List ℕ
  field_refs no_fields = []
  field_refs (ref_field v fs) = iter_schema_refs v ++ field_refs fs
  field_refs (field k v fs) = iter_schema_refs v ++ field_refs fs

  pub item_refs : Items → List ℕ
  item_refs no_items = []
  item_refs (item v is) = iter_schema_refs v ++ item_refs is

abbrev pub refs : Fields → List ℕ
refs fs = iter_schema_refs (object fs)

unfoldable pub is_some {ℓ} : {A : Type ℓ} → Option A → Bool
is_some none = false
is_some (some a) = true

-- `name in d`
abbrev pub has {ℓ} : {V : Type ℓ} → ℕ → Dict V → Bool
has name d = is_some (lookup name d)

-- `pending.extend(names)`, on the stack `pending` with its top first.
unfoldable pub extend : List ℕ → List ℕ → List ℕ
extend [] pending = pending
extend (name ∷ names) pending = extend names (name ∷ pending)

-- The loop of `copy_schema_closure`, on fuel; `none` when it runs out.
unfoldable pub copy_pending : ℕ → Schemas → Schemas → List ℕ → Option Schemas
copy_pending fuel source target [] = some target
copy_pending zero source target (current ∷ pending) = none
copy_pending (suc fuel) source target (current ∷ pending) =
    let skip = copy_pending fuel source target pending in
    elim (lookup current source) [
      | none ↦ skip
      | some schema ↦
          let copied =
            copy_pending fuel source (insert current schema target)
              (extend (refs schema) pending) in
          if has current target then skip else copied
    ]

-- The references of all schemas.
unfoldable pub total_refs : Schemas → ℕ
total_refs [] = 0
total_refs ((name, schema) ∷ source) = length (refs schema) + total_refs source

-- `copy_schema_closure`
unfoldable pub copy_schema_closure : Schemas → Schemas → ℕ → Option Schemas
copy_schema_closure source target name =
    copy_pending (suc (total_refs source)) source target (name ∷ [])

-- `name in seen`
unfoldable pub elem : ℕ → List ℕ → Bool
elem name [] = false
elem name (n ∷ seen) = n == name || elem name seen

-- The loop of `resolve_schema`, on fuel; the outer `none` when it runs out.
unfoldable pub resolve_from : ℕ → Schemas → ℕ → List ℕ → Option (Option Fields)
resolve_from zero schemas name seen = none
resolve_from (suc fuel) schemas name seen =
    if elem name seen then some none else elim (lookup name schemas) [
      | none ↦ some none
      | some schema ↦ elim (alias_of schema) [
        | none ↦ some (some schema)
        | some target ↦ resolve_from fuel schemas target (name ∷ seen)
      ]
    ]

-- `resolve_schema`
unfoldable pub resolve_schema : Schemas → ℕ → Option (Option Fields)
resolve_schema schemas name = resolve_from (suc (length schemas)) schemas name []
