-- ===== src/Values.antt =====
-- exordos_core/vs/dm/models.py: profiles, variables with their setters, and values; and
-- exordos_core/vs/builders/service.py: the hooks that set a variable. Values are numbers, none is undefined.
pub mod Selection
mod Tests
use exordos_core.Base.{
  ℕ, leb, ◌==◌, Bool, true, false, not, ◌&&◌, ◌||◌, Option, none, some, List, [], ◌∷◌, map, filter,
  if◌then◌else◌,
}
use exordos_core.Base.Result.{Result, ok, err, ◌>>=◌}

pub record Profile : Type 0 where
  pub uuid : ℕ
  pub is_global : Bool
  pub active : Bool

pub data ValuesError : Type 0 where
  only_global_profiles : ValuesError
  no_global_profile : ValuesError
  variable_cannot_find_value : ValuesError
  not_implemented : ValuesError
  other_variable : ValuesError

-- The row of the profile is marked.
unfoldable pub mark_active : (uuid : ℕ) → List Profile → List Profile
mark_active uuid = map (λ (p : Profile). record p { active = p.active || p.uuid == uuid })

unfoldable pub deactivate_all : List Profile → List Profile
deactivate_all = map (λ (p : Profile). record p { active = p.active && not p.is_global })

-- `Profile.activate` of a profile as it was loaded. `writes_clean` tells whether `update` of the ORM
-- writes an object none of whose fields was changed.
unfoldable pub activate :
    (writes_clean : Bool) → Profile → List Profile → Result ValuesError (List Profile)
activate writes_clean me rows =
    if not me.is_global
    then err only_global_profiles
    else ok (
        if writes_clean || not me.active
        then mark_active me.uuid (deactivate_all rows)
        else deactivate_all rows)

-- `get_one` of the active global profiles.
unfoldable pub single_profile : List Profile → Result ValuesError Profile
single_profile [] = err no_global_profile
single_profile (p ∷ []) = ok p
single_profile (p ∷ q ∷ rows) = err no_global_profile

unfoldable pub global_profile : List Profile → Result ValuesError Profile
global_profile rows = single_profile (filter (λ (p : Profile). p.is_global && p.active) rows)

-- A row of `Value`.
pub record Value : Type 0 where
  pub uuid : ℕ
  pub variable : ℕ
  pub value : ℕ
  pub created_at : ℕ
  pub manual_selected : Bool

pub data VariableStatus : Type 0 where
  active : VariableStatus
  in_progress : VariableStatus

-- The setter of a variable: by profiles, each with a value, or by selection.
pub data Setter : Type 0 where
  profile_setter : (element : Option ℕ) (ignore : Bool) (profiles : List (ℕ × ℕ)) → Setter
  selector_setter : (latest : Bool) → Setter

pub record Variable : Type 0 where
  pub uuid : ℕ
  pub setter : Setter
  pub value : Option ℕ
  pub status : VariableStatus

-- What the setters read: each element with its profile, if it has one.
pub record Store : Type 0 where
  pub profiles : List Profile
  pub elements : List (ℕ × Option Profile)
  pub values : List Value

unfoldable pub find_element : List (ℕ × Option Profile) → ℕ → Result ValuesError (Option Profile)
find_element [] uuid = err variable_cannot_find_value
find_element ((u, profile) ∷ elements) uuid =
    let later = find_element elements uuid in if u == uuid then ok profile else later

unfoldable pub or_global : List Profile → Option Profile → Result ValuesError Profile
or_global profiles none = global_profile profiles
or_global profiles (some p) = ok p

unfoldable pub profile_of : Store → (element : Option ℕ) → Result ValuesError Profile
profile_of db none = global_profile db.profiles
profile_of db (some element) = find_element db.elements element >>= or_global db.profiles

-- The loop over the profiles of the setter, for the value that the variable has.
unfoldable pub value_for :
    (ignore : Bool) (old : Option ℕ) → List (ℕ × ℕ) → Profile → Result ValuesError (Option ℕ)
value_for ignore old [] p = if ignore then ok old else err not_implemented
value_for ignore old ((u, value) ∷ profiles) p =
    let later = value_for ignore old profiles p in if u == p.uuid then ok (some value) else later

unfoldable pub values_of : List Value → (variable : ℕ) → List Value
values_of values variable = filter (λ (v : Value). v.variable == variable) values

-- `next(v for v in values if v.manual_selected)`
unfoldable pub selected_value : List Value → Option Value
selected_value [] = none
selected_value (v ∷ values) =
    let later = selected_value values in if v.manual_selected then some v else later

-- `sorted(values, key=lambda v: v.created_at)[-1]`, for a first value: of those with the latest time
-- the last one.
unfoldable pub latest_from : Value → List Value → Value
latest_from best [] = best
latest_from best (v ∷ values) =
    latest_from (if leb best.created_at v.created_at then v else best) values

-- `_set_value_latest_strategy` behind the test that there are values.
unfoldable pub choose_value : List Value → Result ValuesError (Option ℕ)
choose_value [] = err variable_cannot_find_value
choose_value (v ∷ values) = elim (selected_value (v ∷ values)) [
  | some w ↦ ok (some w.value)
  | none ↦ ok (some (latest_from v values).value)
]

-- `set_value` of both setters: the value for the variable.
unfoldable pub set_value : Store → Variable → Setter → Result ValuesError (Option ℕ)
set_value db x (profile_setter element ignore profiles) =
    profile_of db element >>= value_for ignore x.value profiles
set_value db x (selector_setter true) = choose_value (values_of db.values x.uuid)
set_value db x (selector_setter false) = err variable_cannot_find_value

-- The hook of the builder; an error of another kind is raised.
unfoldable pub set_variable : Variable → Result ValuesError (Option ℕ) → Result ValuesError Variable
set_variable x (ok value) = ok (record x { value = value; status = active })
set_variable x (err variable_cannot_find_value) =
    ok (record x { value = none; status = in_progress })
set_variable x (err only_global_profiles) = err only_global_profiles
set_variable x (err no_global_profile) = err no_global_profile
set_variable x (err not_implemented) = err not_implemented
set_variable x (err other_variable) = err other_variable

unfoldable pub post_update_instance_resource : Store → Variable → Result ValuesError Variable
post_update_instance_resource db x = set_variable x (set_value db x x.setter)

-- `Variable.release_value`
unfoldable pub release_value : (variable : ℕ) → List Value → List Value
release_value variable = map (λ (v : Value). record v {
  manual_selected = v.manual_selected && not (v.variable == variable);
})

unfoldable pub mark_selected : (uuid : ℕ) → List Value → List Value
mark_selected uuid =
    map (λ (v : Value). record v { manual_selected = v.manual_selected || v.uuid == uuid })

-- `Value.select_me` of a value as it was loaded.
unfoldable pub select_me :
    (writes_clean : Bool) (variable : ℕ) → Value → List Value → Result ValuesError (List Value)
select_me writes_clean variable me rows =
    if not (me.variable == variable)
    then err other_variable
    else ok (
        if writes_clean || not me.manual_selected
        then mark_selected me.uuid (release_value variable rows)
        else release_value variable rows)
