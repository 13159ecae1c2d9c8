-- ===== src/Quota/Tests.antt =====
-- A project with a limit of its own, and the theorems on it.
use exordos_core.Base.{
  Option-cases, inl, inr, arith, ℕ, ◌≡◌, refl, ◌==◌, true, false, none, some, List, [], ◌∷◌, filter,
  any, if◌then◌else◌,
}
use exordos_core.Base.Result.{ok, err}
use exordos_core.Quota.{
  QuotaLimit, Entity, QuotaExceeded, nodes, cores, default_limit, default_field_limits,
  add_field_limits, add_count_limit, quota_limits, sum_of, count_of, current_of, check_limits,
  quota_check, insert, insert_all,
}
use exordos_core.Quota.Limits.{
  usage, all_hold, limits_of, IsWithin, insert_lem, insert_all-IsWithin,
}

program : Unit {0}
unfolding filter any default_limit default_field_limits add_field_limits add_count_limit
    quota_limits sum_of count_of current_of check_limits quota_check insert insert_all usage
    all_hold
program = tt

-- Project 5 may have two nodes; the limit on cores is the default one.
abbrev limit_rows : List QuotaLimit
limit_rows = record { project_id = 5; resource_name = nodes; field_name = none; limit = 2 } ∷ []

abbrev node : ℕ → ℕ → Entity
node project n = record { project_id = project; field = λ f. if f == cores then n else 0 }

abbrev asked : List Entity
asked = node 5 9000 ∷ node 5 1001 ∷ node 5 1000 ∷ node 5 1 ∷ []

first_two : insert_all limit_rows nodes asked [] ≡ node 5 9000 ∷ node 5 1000 ∷ []
unfolding program
first_two = refl

too_many_cores :
    insert limit_rows nodes (node 5 1001) (node 5 9000 ∷ [])
    ≡ err (record { field_name = some cores; limit = 10000; current = 10001; project_id = 5 })
unfolding program
too_many_cores = refl

other_project :
    insert limit_rows nodes (node 6 1001) (node 5 9000 ∷ []) ≡ ok (node 5 9000 ∷ node 6 1001 ∷ [])
unfolding program
other_project = refl

insert_lem_example :
    (all_hold 5 (node 5 9000 ∷ node 5 1001 ∷ []) (limits_of limit_rows nodes 5) ≡ true
      → insert limit_rows nodes (node 5 1001) (node 5 9000 ∷ [])
        ≡ ok (node 5 9000 ∷ node 5 1001 ∷ []))
    × (all_hold 5 (node 5 9000 ∷ node 5 1001 ∷ []) (limits_of limit_rows nodes 5) ≡ false
        → (x : QuotaExceeded) × (insert limit_rows nodes (node 5 1001) (node 5 9000 ∷ []) ≡ err x))
insert_lem_example = insert_lem limit_rows nodes (node 5 1001) (node 5 9000 ∷ [])

none_used : (project : ℕ) (limits : List QuotaLimit) → all_hold project [] limits ≡ true
unfolding all_hold usage count_of sum_of
none_used project [] = refl
none_used project (q ∷ limits) = elim (Option-cases q.field_name) [
  | inl count ↦ ground (arith, count, none_used project limits)
  | inr (f, on) ↦ ground (arith, on, none_used project limits)
]

insert_all-IsWithin_example : IsWithin limit_rows nodes (insert_all limit_rows nodes asked [])
insert_all-IsWithin_example =
    insert_all-IsWithin limit_rows nodes asked []
      (λ project. none_used project (limits_of limit_rows nodes project))
