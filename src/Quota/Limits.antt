-- ===== src/Quota/Limits.antt =====
-- The limits of exordos_core/quota/dm/models.py, before and after insertions.
use exordos_core.Base.{
  ℕ, ◌+◌, ◌≡◌, refl, ◌∙◌, subst, ◌==◌, leb, Bool, true, false, not, ◌&&◌, none, some, List, [], ◌∷◌,
  ◌++◌, filter, arith, if◌then◌else◌, inl, inr, Bool-cases, Option-cases,
}
use exordos_core.Base.Result.{Result, ok, err, Result-cases}
use exordos_core.Quota.{
  QuotaLimit, Entity, QuotaExceeded, is_count, quota_limits, sum_of, count_of, current_of,
  check_limits, quota_check, insert, insert_all,
}

-- The number that a limit is about, for the rows of a project.
unfoldable pub usage : QuotaLimit → ℕ → List Entity → ℕ
usage q project rows = elim q.field_name [
  | none ↦ count_of project rows
  | some f ↦ sum_of f project rows
]

-- The rows of the project are within the limit.
abbrev pub holds : ℕ → List Entity → QuotaLimit → Bool
holds project rows q = leb (usage q project rows) q.limit

unfoldable pub all_hold : ℕ → List Entity → List QuotaLimit → Bool
all_hold project rows [] = true
all_hold project rows (q ∷ limits) = holds project rows q && all_hold project rows limits

abbrev pub succeeds {ℓ} : {E A : Type ℓ} → Result E A → Bool
succeeds (ok a) = true
succeeds (err e) = false

sum_of-append :
    (f project : ℕ) (rows : List Entity) (e : Entity)
    → sum_of f project (rows ++ e ∷ [])
      ≡ sum_of f project rows + (if e.project_id == project then e.field f else 0)
unfolding sum_of
sum_of-append f project [] e = ground arith
sum_of-append f project (r ∷ rows) e = ground (arith, sum_of-append f project rows e)

count_of-append :
    (project : ℕ) (rows : List Entity) (e : Entity)
    → count_of project (rows ++ e ∷ [])
      ≡ count_of project rows + (if e.project_id == project then 1 else 0)
unfolding count_of
count_of-append project [] e = ground arith
count_of-append project (r ∷ rows) e = ground (arith, count_of-append project rows e)

-- A row counts for its own project, and only for it.
current_of_lem :
    (q : QuotaLimit) (e : Entity) (rows : List Entity)
    → usage q e.project_id (rows ++ e ∷ []) ≡ current_of q e rows
unfolding usage current_of
current_of_lem q e rows = elim (Option-cases q.field_name) [
  | inl count ↦ ground (arith, count, count_of-append e.project_id rows e)
  | inr (f, on) ↦ ground (arith, on, sum_of-append f e.project_id rows e)
]

usage-other :
    (q : QuotaLimit) (project : ℕ) (e : Entity) (rows : List Entity)
    → (e.project_id == project) ≡ false
    → usage q project (rows ++ e ∷ []) ≡ usage q project rows
unfolding usage
usage-other q project e rows other = elim (Option-cases q.field_name) [
  | inl count ↦ ground (arith, count, other, count_of-append project rows e)
  | inr (f, on) ↦ ground (arith, on, other, sum_of-append f project rows e)
]

check_limits-succeeds :
    (e : Entity) (rows : List Entity) (limits : List QuotaLimit)
    → succeeds (check_limits e rows limits) ≡ all_hold e.project_id (rows ++ e ∷ []) limits
unfolding check_limits all_hold
check_limits-succeeds e rows [] = refl
check_limits-succeeds e rows (q ∷ limits) =
    ground (arith, current_of_lem q e rows, check_limits-succeeds e rows limits)

all_hold-filter :
    (project : ℕ) (rows : List Entity) (limits : List QuotaLimit)
    → (all_hold project rows (filter (λ q. not (is_count q)) limits)
        && all_hold project rows (filter is_count limits))
      ≡ all_hold project rows limits
unfolding all_hold filter
all_hold-filter project rows [] = refl
all_hold-filter project rows (q ∷ limits) = elim (Bool-cases (is_count q)) [
  | inl t ↦ ground (arith, t, all_hold-filter project rows limits)
  | inr f ↦ ground (arith, f, all_hold-filter project rows limits)
]

quota_check-succeeds :
    (limits : List QuotaLimit) (e : Entity) (rows : List Entity)
    → succeeds (quota_check limits e rows) ≡ all_hold e.project_id (rows ++ e ∷ []) limits
unfolding quota_check
quota_check-succeeds limits e rows =
    let fields = check_limits-succeeds e rows (filter (λ q. not (is_count q)) limits) in
    let counts = check_limits-succeeds e rows (filter is_count limits) in
    let all = all_hold-filter e.project_id (rows ++ e ∷ []) limits in
    elim (Result-cases (check_limits e rows (filter (λ q. not (is_count q)) limits))) [
      | inl (u, done) ↦ ground (arith, done, fields, counts, all)
      | inr (x, failed) ↦ ground (arith, failed, fields, counts, all)
    ]

module _ (limit_rows : List QuotaLimit) (table : ℕ) where
  -- The limits of a project, its own and the default ones, on this table.
  abbrev pub limits_of : ℕ → List QuotaLimit
  limits_of project = quota_limits limit_rows project table

  -- An insertion appends the row if all limits of its project hold with the row, and raises otherwise.
  pub insert_lem :
      (e : Entity) (rows : List Entity)
      → (all_hold e.project_id (rows ++ e ∷ []) (limits_of e.project_id) ≡ true
          → insert limit_rows table e rows ≡ ok (rows ++ e ∷ []))
        × (all_hold e.project_id (rows ++ e ∷ []) (limits_of e.project_id) ≡ false
            → (x : QuotaExceeded) × (insert limit_rows table e rows ≡ err x))
  unfolding insert
  insert_lem e rows =
      let all = quota_check-succeeds (limits_of e.project_id) e rows in
      elim (Result-cases (quota_check (limits_of e.project_id) e rows)) [
        | inl (u, done) ↦ (λ h. ground (arith, done), λ h. absurd (ground (arith, done, all, h)))
        | inr (x, failed) ↦
            (λ h. absurd (ground (arith, failed, all, h)), λ h. (x, ground (arith, failed)))
      ]

  -- No project exceeds a limit.
  abbrev pub IsWithin : List Entity → Type 0
  IsWithin rows = (project : ℕ) → all_hold project rows (limits_of project) ≡ true

  all_hold-other :
      (project : ℕ) (e : Entity) (rows : List Entity) (limits : List QuotaLimit)
      → (e.project_id == project) ≡ false
      → all_hold project (rows ++ e ∷ []) limits ≡ all_hold project rows limits
  unfolding all_hold
  all_hold-other project e rows [] other = refl
  all_hold-other project e rows (q ∷ limits) other =
      ground (arith, usage-other q project e rows other, all_hold-other project e rows limits other)

  insert-IsWithin :
      (e : Entity) (rows rows' : List Entity)
      → insert limit_rows table e rows ≡ ok rows'
      → IsWithin rows
      → IsWithin rows'
  insert-IsWithin e rows rows' h within =
      elim (Bool-cases (all_hold e.project_id (rows ++ e ∷ []) (limits_of e.project_id))) [
        | inr out ↦
            let (x, raised) = (insert_lem e rows).1 out in absurd (ground (arith, raised, h))
        | inl fits ↦
            let done = (insert_lem e rows).0 fits in
            let same : rows ++ e ∷ [] ≡ rows' = ground (arith, done, h) in
            subst IsWithin same (λ project. elim (Bool-cases (e.project_id == project)) [
              | inl own ↦
                  let one : e.project_id ≡ project = ground (arith, own) in
                  subst (λ p. all_hold p (rows ++ e ∷ []) (limits_of p) ≡ true) one fits
              | inr other ↦ all_hold-other project e rows (limits_of project) other ∙ within project
            ])
      ]

  -- While no limit is exceeded at the start, none is after any insertions, of which some may raise.
  pub insert_all-IsWithin :
      (entities rows : List Entity)
      → IsWithin rows
      → IsWithin (insert_all limit_rows table entities rows)
  unfolding insert_all
  insert_all-IsWithin [] rows within = within
  insert_all-IsWithin (e ∷ entities) rows within =
      elim (Result-cases (insert limit_rows table e rows)) [
        | inl (rows', done) ↦
            rw (done, insert_all)
              (insert_all-IsWithin entities rows' (insert-IsWithin e rows rows' done within))
        | inr (x, raised) ↦ rw (raised, insert_all) (insert_all-IsWithin entities rows within)
      ]
