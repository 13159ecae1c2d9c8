-- ===== src/Schema/Tests.antt =====
-- Schemas with aliases, and the theorems on them.
use exordos_core.Base.{ℕ, ◌≡◌, refl, length, Option, none, some, [], ◌∷◌}
use exordos_core.Base.Dict.{lookup, insert}
use exordos_core.Schema.{
  Json, Fields, Items, Schemas, alias_of, iter_schema_refs, field_refs, item_refs, is_some, extend,
  copy_pending, total_refs, copy_schema_closure, elem, resolve_from, resolve_schema,
}
use exordos_core.Schema.Copy.{IsClosure, copy_schema_closure-IsClosure}
use exordos_core.Schema.Resolve.{IsResult, resolve_schema_lem}

program : Unit {0}
unfolding lookup insert alias_of iter_schema_refs field_refs item_refs is_some extend copy_pending
    total_refs copy_schema_closure elem resolve_from resolve_schema
program = tt

abbrev alias : ℕ → Fields
alias name = Fields.ref_field (Json.text_ref name) Fields.no_fields

-- A schema with a property that refers to schema 3.
abbrev model : Fields
model = Fields.field 10 (Json.object (alias 3)) Fields.no_fields

-- 1 is an alias of 2, 3 refers to 1 and to 9, which is missing, and 4 and 5 are aliases of each other.
abbrev schemas : Schemas
schemas =
    (1, alias 2)
    ∷ (2, model)
    ∷ (
      3,
      Fields.field 11
          (Json.array (
            Items.item (Json.object (alias 1)) (Items.item (Json.object (alias 9)) Items.no_items)))
          Fields.no_fields,
    )
    ∷ (4, alias 5)
    ∷ (5, alias 4)
    ∷ []

resolved : resolve_schema schemas 1 ≡ some (some model)
unfolding program
resolved = refl

round_trip : resolve_schema schemas 4 ≡ some none
unfolding program
round_trip = refl

unknown : resolve_schema schemas 9 ≡ some none
unfolding program
unknown = refl

copied_names : (t : Schemas) × (copy_schema_closure schemas [] 1 ≡ some t) × (length t ≡ 3)
unfolding program
copied_names = (_, refl, refl)

copy_schema_closure-IsClosure_example :
    (t : Schemas) × (copy_schema_closure schemas [] 1 ≡ some t) × IsClosure schemas [] 1 t
copy_schema_closure-IsClosure_example = copy_schema_closure-IsClosure schemas [] 1

resolve_schema_lem_example :
    (r : Option Fields) × (resolve_schema schemas 4 ≡ some r) × IsResult schemas 4 r
resolve_schema_lem_example = resolve_schema_lem schemas 4
