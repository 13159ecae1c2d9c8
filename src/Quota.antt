-- ===== src/Quota.antt =====
-- exordos_core/quota/dm/models.py: `QuotaModelMixin`, the limits of a project on the rows of a table.
-- Projects, tables and fields are numbers.
pub mod Limits
mod Tests
use exordos_core.Base.{
  ℕ, suc, ◌+◌, ◌==◌, ltb, Bool, true, false, not, ◌&&◌, Option, none, some, List, [], ◌∷◌, ◌++◌,
  filter, any, if◌then◌else◌,
}
use exordos_core.Base.Result.{Result, ok, err, ◌>>=◌}

-- The tables and the field that have default limits.
abbrev pub net_lb : ℕ
net_lb = 1

abbrev pub compute_sets : ℕ
compute_sets = 2

abbrev pub nodes : ℕ
nodes = 3

abbrev pub secret_secrets : ℕ
secret_secrets = 4

abbrev pub secret_passwords : ℕ
secret_passwords = 5

abbrev pub secret_certificates : ℕ
secret_certificates = 6

abbrev pub secret_rsa_keys : ℕ
secret_rsa_keys = 7

abbrev pub secret_ssh_keys : ℕ
secret_ssh_keys = 8

abbrev pub cores : ℕ
cores = 1

abbrev pub default_quota_limit : ℕ
default_quota_limit = 1000

-- A row of `QuotaLimit`; `field_name` is `none` for the empty name, which limits the number of rows.
pub record QuotaLimit : Type 0 where
  pub project_id : ℕ
  pub resource_name : ℕ
  pub field_name : Option ℕ
  pub limit : ℕ

-- A row of a table with quotas: its project, and the numbers in its fields.
pub record Entity : Type 0 where
  pub project_id : ℕ
  pub field : ℕ → ℕ

-- `QuotaExceededError`
pub record QuotaExceeded : Type 0 where
  pub field_name : Option ℕ
  pub limit : ℕ
  pub current : ℕ
  pub project_id : ℕ

abbrev pub is_count : QuotaLimit → Bool
is_count q = elim q.field_name [ none ↦ true | some f ↦ false ]

abbrev pub is_on : ℕ → QuotaLimit → Bool
is_on f q = elim q.field_name [ none ↦ false | some g ↦ g == f ]

-- `DEFAULT_QUOTA_LIMITS.get(table)`: the tables above.
unfoldable pub default_limit : ℕ → Option ℕ
default_limit table = if ltb 0 table && ltb table 9 then some default_quota_limit else none

-- `DEFAULT_QUOTA_FIELD_LIMITS.get(table, {}).items()`
unfoldable pub default_field_limits : ℕ → List (ℕ × ℕ)
default_field_limits table = if table == nodes then (cores, 10000) ∷ [] else []

unfoldable pub add_field_limits :
    ℕ → ℕ → List QuotaLimit → List (ℕ × ℕ) → List QuotaLimit → List QuotaLimit
add_field_limits project table explicit [] limits = limits
add_field_limits project table explicit ((f, n) ∷ defaults) limits =
    let more : QuotaLimit = record {
      project_id = project;
      resource_name = table;
      field_name = some f;
      limit = n;
    } in
    add_field_limits project table explicit defaults
      (if any (is_on f) explicit then limits else limits ++ more ∷ [])

unfoldable pub add_count_limit : ℕ → ℕ → List QuotaLimit → List QuotaLimit
add_count_limit project table explicit =
    if any is_count explicit then explicit else elim (default_limit table) [
      | none ↦ explicit
      | some n ↦
          explicit
          ++ record { project_id = project; resource_name = table; field_name = none; limit = n }
            ∷ []
    ]

-- `_quota_limits`, with the rows of `QuotaLimit`
unfoldable pub quota_limits : List QuotaLimit → ℕ → ℕ → List QuotaLimit
quota_limits rows project table =
    let explicit = filter (λ q. q.project_id == project && q.resource_name == table) rows in
    add_field_limits project table explicit (default_field_limits table)
      (add_count_limit project table explicit)

-- `SUM(field)` and `COUNT(uuid)` over the rows of the project; the sum of no rows counts as 0.
unfoldable pub sum_of : ℕ → ℕ → List Entity → ℕ
sum_of f project [] = 0
sum_of f project (e ∷ rows) =
    (if e.project_id == project then e.field f else 0) + sum_of f project rows

unfoldable pub count_of : ℕ → List Entity → ℕ
count_of project [] = 0
count_of project (e ∷ rows) = (if e.project_id == project then 1 else 0) + count_of project rows

-- What a row would make of the number that a limit is about.
unfoldable pub current_of : QuotaLimit → Entity → List Entity → ℕ
current_of q e rows = elim q.field_name [
  | none ↦ count_of e.project_id rows + 1
  | some f ↦ sum_of f e.project_id rows + e.field f
]

-- The loop over some of the limits: the first one that is exceeded raises.
unfoldable pub check_limits : Entity → List Entity → List QuotaLimit → Result QuotaExceeded Unit
check_limits e rows [] = ok tt
check_limits e rows (q ∷ limits) =
    let later = check_limits e rows limits in
    if ltb q.limit (current_of q e rows)
    then err (record {
      field_name = q.field_name;
      limit = q.limit;
      current = current_of q e rows;
      project_id = e.project_id;
    })
    else later

-- `_quota_check`: the limits on fields, then those on the number of rows.
unfoldable pub quota_check : List QuotaLimit → Entity → List Entity → Result QuotaExceeded Unit
quota_check limits e rows = check_limits e rows (filter (λ q. not (is_count q)) limits) >>= λ _.
    check_limits e rows (filter is_count limits)

-- `insert`
unfoldable pub insert :
    List QuotaLimit → ℕ → Entity → List Entity → Result QuotaExceeded (List Entity)
insert limit_rows table e rows =
    quota_check (quota_limits limit_rows e.project_id table) e rows >>= λ _. ok (rows ++ e ∷ [])

-- Insertions one after another; one that raises inserts nothing.
unfoldable pub insert_all : List QuotaLimit → ℕ → List Entity → List Entity → List Entity
insert_all limit_rows table [] rows = rows
insert_all limit_rows table (e ∷ entities) rows = elim (insert limit_rows table e rows) [
  | ok rows' ↦ insert_all limit_rows table entities rows'
  | err _ ↦ insert_all limit_rows table entities rows
]
