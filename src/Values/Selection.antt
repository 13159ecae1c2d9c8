-- ===== src/Values/Selection.antt =====
-- The value that exordos_core/vs/builders/service.py sets a variable to, behind the selections of its values.
use exordos_core.Base.{
  ℕ, ◌≡◌, ◌≤◌, refl, ap, ◌∙◌, subst, inl, inr, leb, ◌==◌, Bool, true, not, ◌&&◌, ◌||◌, none, some,
  List, [], ◌∷◌, filter, IsIn, All, arith, Bool-cases,
}
use exordos_core.Base.Result.{ok}
use exordos_core.Values.{
  Value, Variable, Store, active, selector_setter, values_of, selected_value, latest_from,
  choose_value, set_value, set_variable, post_update_instance_resource, release_value,
  mark_selected, select_me,
}

-- No other value has the uuid of this one.
abbrev pub IsOnly : Value → List Value → Type 0
IsOnly me rows = (v : Value) → IsIn v rows → v.uuid ≡ me.uuid → v ≡ me

selected_value-mark :
    (me : Value) (rows : List Value) (x : ℕ)
    → me.variable ≡ x
    → IsIn me rows
    → IsOnly me rows
    → (w : Value) × (selected_value (values_of (mark_selected me.uuid (release_value x rows)) x)
        ≡ some w)
      × (w.value ≡ me.value)
unfolding selected_value values_of mark_selected release_value filter
selected_value-mark me [] x mine i only = absurd i
selected_value-mark me (v ∷ rows) x mine i only = elim (Bool-cases (v.uuid == me.uuid)) [
  | inl same ↦
      let is : v ≡ me = only v (inl refl) (ground (arith, same)) in
      (
        record v {
          manual_selected = (v.manual_selected && not (v.variable == x)) || v.uuid == me.uuid;
        },
        ground (arith, same, is, mine),
        ap (λ (y : Value). y.value) is,
      )
  | inr other ↦ elim i [
    | inl is ↦ absurd (ground (arith, other, is))
    | inr later ↦
        let (w, found, value) = selected_value-mark me rows x mine later (λ u j. only u (inr j)) in
        (w, ground (arith, other, found), value)
  ]
]

selected_value-release :
    (x : ℕ) (rows : List Value) → selected_value (values_of (release_value x rows) x) ≡ none
unfolding selected_value values_of release_value filter
selected_value-release x [] = refl
selected_value-release x (v ∷ rows) = ground (arith, selected_value-release x rows)

-- One of the values, and none of them is later.
abbrev pub IsLatest : Value → List Value → Type 0
IsLatest w values = IsIn w values × All (λ (v : Value). v.created_at ≤ w.created_at) values

latest_from-IsLatest :
    (v : Value) (values : List Value) → IsLatest (latest_from v values) (v ∷ values)
unfolding latest_from
latest_from-IsLatest v [] = (inl refl, (omega arith, tt))
latest_from-IsLatest v (u ∷ values) = elim (Bool-cases (leb v.created_at u.created_at)) [
  | inl later ↦
      let (inside, all) = latest_from-IsLatest u values in
      let step : latest_from u values ≡ latest_from v (u ∷ values) = ground (arith, later) in
      subst (λ (w : Value). IsLatest w (v ∷ u ∷ values)) step
        (inr inside, (ground (arith, later, all.0), all))
  | inr earlier ↦
      let (inside, all) = latest_from-IsLatest v values in
      let step : latest_from v values ≡ latest_from v (u ∷ values) = ground (arith, earlier) in
      subst (λ (w : Value). IsLatest w (v ∷ u ∷ values)) step
        (
          elim inside [ inl is ↦ inl is | inr there ↦ inr (inr there) ],
          (all.0, (ground (arith, earlier, all.0), all.1)),
        )
]

choose_value-selected :
    (values : List Value) (w : Value)
    → selected_value values ≡ some w
    → choose_value values ≡ ok (some w.value)
unfolding choose_value selected_value
choose_value-selected [] w h = absurd (cc h)
choose_value-selected (v ∷ values) w h = ground (arith, h)

choose_value-IsLatest :
    (values : List Value) (v : Value)
    → IsIn v values
    → selected_value values ≡ none
    → (w : Value) × IsLatest w values × (choose_value values ≡ ok (some w.value))
unfolding choose_value selected_value
choose_value-IsLatest [] v i h = absurd i
choose_value-IsLatest (u ∷ values) v i h =
    (latest_from u values, latest_from-IsLatest u values, ground (arith, h))

release-IsIn :
    (x : ℕ) (rows : List Value) (me : Value)
    → me.variable ≡ x
    → IsIn me rows
    → (v : Value) × IsIn v (values_of (release_value x rows) x)
unfolding values_of release_value filter
release-IsIn x [] me mine i = absurd i
release-IsIn x (u ∷ rows) me mine i = elim (Bool-cases (u.variable == x)) [
  | inl here ↦ rw here (_, inl refl)
  | inr other ↦ elim i [
    | inl is ↦ absurd (ground (arith, other, is, mine))
    | inr later ↦ rw other (release-IsIn x rows me mine later)
  ]
]

abbrev pub with_values : Store → List Value → Store
with_values db rows = record db { values = rows }

set-chosen :
    (db : Store) (x : Variable) (rows : List Value) (n : ℕ)
    → x.setter ≡ selector_setter true
    → choose_value (values_of rows x.uuid) ≡ ok (some n)
    → post_update_instance_resource (with_values db rows) x
      ≡ ok (record x { value = some n; status = active })
unfolding post_update_instance_resource set_value set_variable
set-chosen db x rows n setter chosen = ground (arith, setter, chosen)

-- A variable that takes the selected or the latest of its values is set to the value that is selected, if no
-- other one has its uuid and the selection is written; and behind a release of its values to one than which
-- none is later.
pub select_me-value :
    (writes_clean : Bool) (db : Store) (x : Variable) (me : Value)
    → x.setter ≡ selector_setter true
    → me.variable ≡ x.uuid
    → IsIn me db.values
    → IsOnly me db.values
    → (writes_clean || not me.manual_selected) ≡ true
    → ((rows : List Value) × (select_me writes_clean x.uuid me db.values ≡ ok rows)
        × (post_update_instance_resource (with_values db rows) x
            ≡ ok (record x { value = some me.value; status = active })))
      × ((w : Value) × IsLatest w (values_of (release_value x.uuid db.values) x.uuid)
          × (post_update_instance_resource (with_values db (release_value x.uuid db.values)) x
              ≡ ok (record x { value = some w.value; status = active })))
unfolding select_me
select_me-value writes_clean db x me setter mine inside only written =
    let (s, found, value) = selected_value-mark me db.values x.uuid mine inside only in
    let rows : List Value = mark_selected me.uuid (release_value x.uuid db.values) in
    let (v, there) = release-IsIn x.uuid db.values me mine inside in
    let (w, latest, chosen) =
      choose_value-IsLatest _ v there (selected_value-release x.uuid db.values) in
    (
      (
        rows,
        ground (arith, mine, written),
        set-chosen db x rows me.value setter (
            choose_value-selected (values_of rows x.uuid) s found
            ∙ ap (λ (n : ℕ). ok (some n)) value),
      ),
      (w, latest, set-chosen db x (release_value x.uuid db.values) w.value setter chosen),
    )
