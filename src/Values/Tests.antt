-- ===== src/Values/Tests.antt =====
-- Runs of the selection of values of exordos_core/vs/dm/models.py.
use exordos_core.Base.{ℕ, ◌≡◌, refl, Bool, true, false, none, some, List, [], ◌∷◌, inl, inr, arith}
use exordos_core.Base.Result.{ok}
use exordos_core.Values.{
  Profile, activate, mark_active, deactivate_all, Value, Variable, Store, active, in_progress,
  selector_setter, values_of, post_update_instance_resource, release_value, select_me,
}
use exordos_core.Values.Selection.{IsOnly, IsLatest, with_values, select_me-value}

abbrev profile : (uuid : ℕ) (is_global is_active : Bool) → Profile
profile uuid is_global is_active = record { uuid = uuid; is_global = is_global; active = is_active }

activated :
    activate false
      (profile 2 true false)
      (profile 1 true true ∷ profile 2 true false ∷ profile 3 false true ∷ [])
    ≡ ok (profile 1 true false ∷ profile 2 true true ∷ profile 3 false true ∷ [])
unfolding activate mark_active deactivate_all
activated = refl

-- An active profile that is activated again, when an unchanged object is not written.
none_left :
    activate false (profile 1 true true) (profile 1 true true ∷ []) ≡ ok (profile 1 true false ∷ [])
unfolding activate mark_active deactivate_all
none_left = refl

abbrev value : (uuid number created_at : ℕ) → Value
value uuid number created_at = record {
  uuid = uuid;
  variable = 5;
  value = number;
  created_at = created_at;
  manual_selected = false;
}

abbrev db : Store
db = record { profiles = []; elements = []; values = value 1 10 100 ∷ value 2 20 200 ∷ [] }

abbrev variable : Variable
variable = record { uuid = 5; setter = selector_setter true; value = none; status = in_progress }

first-IsOnly : IsOnly (value 1 10 100) db.values
first-IsOnly v (inl e) same = e
first-IsOnly v (inr (inl e)) same = absurd (ground (arith, e, same))
first-IsOnly v (inr (inr i)) same = absurd i

select_me-value_example :
    ((rows : List Value) × (select_me false 5 (value 1 10 100) db.values ≡ ok rows)
      × (post_update_instance_resource (with_values db rows) variable
          ≡ ok (record variable { value = some 10; status = active })))
    × ((w : Value) × IsLatest w (values_of (release_value 5 db.values) 5)
        × (post_update_instance_resource (with_values db (release_value 5 db.values)) variable
            ≡ ok (record variable { value = some w.value; status = active })))
select_me-value_example =
    select_me-value false db variable (value 1 10 100) refl refl (inl refl) first-IsOnly refl
