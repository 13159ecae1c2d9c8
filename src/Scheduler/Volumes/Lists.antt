-- ===== src/Scheduler/Volumes/Lists.antt =====
-- The storage pools of a bundle: what writing one back changes.
use exordos_core.Base.{
  ℕ, ◌+◌, ◌≡◌, refl, ap, ap₂, sym, ◌∙◌, subst, filter-All, length, ◌≤◌, ◌==◌, true, false, List, [],
  ◌∷◌, map, filter, All, IsIn, arith, inl, inr, Bool-cases, IsIn-filter,
}
use exordos_core.Base.Result.{ok}
use exordos_core.Scheduler.Volumes.{
  StoragePool, PoolBundle, count_name, write_back, unique_pools, named, find_storage_pool_by_name,
  restore_capacities,
}

-- The only storage pool of the list with its name.
abbrev pub IsOnly : StoragePool → List StoragePool → Type 0
IsOnly sp pools = IsIn sp pools × (count_name sp.name pools ≡ 1)

count_zero :
    (name : ℕ) (pools : List StoragePool)
    → count_name name pools ≡ 0
    → All (λ q. (q.name == name) ≡ false) pools
unfolding count_name
count_zero name [] h = tt
count_zero name (q ∷ pools) h = (ground arith, count_zero name pools (ground arith))

All-absurd :
    (sp : StoragePool) (pools : List StoragePool)
    → All (λ q. (q.name == sp.name) ≡ false) pools
    → All (λ q. (q.name == sp.name) ≡ true → q ≡ sp) pools
All-absurd sp [] h = tt
All-absurd sp (q ∷ pools) h = (λ t. absurd (ground (arith, h.0)), All-absurd sp pools h.1)

IsIn-count :
    (sp : StoragePool) (pools : List StoragePool) → IsIn sp pools → 1 ≤ count_name sp.name pools
unfolding count_name
IsIn-count sp [] i = absurd i
IsIn-count sp (q ∷ pools) (inl e) = ground arith
IsIn-count sp (q ∷ pools) (inr i) = ground (arith, IsIn-count sp pools i)

only_of_count :
    (sp : StoragePool) (pools : List StoragePool)
    → IsIn sp pools
    → count_name sp.name pools ≡ 1
    → All (λ q. (q.name == sp.name) ≡ true → q ≡ sp) pools
unfolding count_name
only_of_count sp [] i h = tt
only_of_count sp (q ∷ pools) (inl e) h =
    (λ t. sym e, All-absurd sp pools (count_zero sp.name pools (ground arith)))
only_of_count sp (q ∷ pools) (inr i) h = (
  λ t. absurd (ground (arith, t, IsIn-count sp pools i)),
  only_of_count sp pools i (ground (arith, IsIn-count sp pools i)),
)

pub IsOnly-unique :
    (sp : StoragePool) (pools : List StoragePool) → IsIn sp (unique_pools pools) → IsOnly sp pools
unfolding unique_pools
IsOnly-unique sp pools i =
    let (there, once) = IsIn-filter (λ q. count_name q.name pools == 1) sp pools i in
    (there, ground (arith, once))

length-named :
    (name : ℕ) (pools : List StoragePool) → length (named name pools) ≡ count_name name pools
unfolding named filter count_name
length-named name [] = refl
length-named name (q ∷ pools) = ground (arith, length-named name pools)

find_lem :
    (pool : PoolBundle) (name : ℕ) (sp : StoragePool)
    → find_storage_pool_by_name pool name ≡ ok sp
    → named name pool.storage_pools ≡ sp ∷ []
unfolding find_storage_pool_by_name
find_lem pool name sp h = ground (arith, h)

named-name :
    (name : ℕ) (sp : StoragePool) (pools : List StoragePool)
    → named name pools ≡ sp ∷ []
    → sp.name ≡ name
unfolding named
named-name name sp pools h =
    let test =
      subst (All (λ q. (q.name == name) ≡ true)) h (filter-All (λ q. q.name == name) pools) in
    ground (arith, test.0)

-- A storage pool that is found by its name is the only one with it.
pub IsOnly-find :
    (pool : PoolBundle) (name : ℕ) (sp : StoragePool)
    → find_storage_pool_by_name pool name ≡ ok sp
    → IsOnly sp pool.storage_pools × (sp.name ≡ name)
unfolding named
IsOnly-find pool name sp h =
    let found = find_lem pool name sp h in
    let same = named-name name sp pool.storage_pools found in
    let there : IsIn sp (named name pool.storage_pools) = rw found (inl refl) in
    (
      (
        (IsIn-filter (λ q. q.name == name) sp pool.storage_pools there).0,
        ground (arith, same, length-named name pool.storage_pools, ap length found),
      ),
      same,
    )

-- Storage pools up to their provisioned capacity.
abbrev pub strip : StoragePool → StoragePool
strip sp = record sp { capacity_provisioned = 0 }

abbrev pub Alike : List StoragePool → List StoragePool → Type 0
Alike [] [] = Unit
Alike (x ∷ xs) (y ∷ ys) = (strip x ≡ strip y) × Alike xs ys
Alike _ _ = ⊥

pub Alike-refl : (xs : List StoragePool) → Alike xs xs
Alike-refl [] = tt
Alike-refl (x ∷ xs) = (refl, Alike-refl xs)

pub Alike-trans : (xs ys zs : List StoragePool) → Alike xs ys → Alike ys zs → Alike xs zs
Alike-trans [] [] [] h k = tt
Alike-trans (x ∷ xs) (y ∷ ys) (z ∷ zs) h k = (h.0 ∙ k.0, Alike-trans xs ys zs h.1 k.1)
Alike-trans [] [] (z ∷ zs) h k = absurd k
Alike-trans [] (y ∷ ys) zs h k = absurd h
Alike-trans (x ∷ xs) [] zs h k = absurd h
Alike-trans (x ∷ xs) (y ∷ ys) [] h k = absurd k

Alike-write :
    (sp : StoragePool) (cap : ℕ) (pools : List StoragePool)
    → All (λ q. (q.name == sp.name) ≡ true → q ≡ sp) pools
    → Alike pools (write_back (record sp { capacity_provisioned = cap }) pools)
unfolding write_back
Alike-write sp cap [] h = tt
Alike-write sp cap (q ∷ pools) h = elim (Bool-cases (q.name == sp.name)) [
  | inl t ↦ (rw t (ap strip (h.0 t)), Alike-write sp cap pools h.1)
  | inr f ↦ (rw f refl, Alike-write sp cap pools h.1)
]

-- Writing back a storage pool whose capacity changed leaves all else.
pub Alike-write_back :
    (sp : StoragePool) (cap : ℕ) (pools : List StoragePool)
    → IsOnly sp pools
    → Alike pools (write_back (record sp { capacity_provisioned = cap }) pools)
Alike-write_back sp cap pools only = Alike-write sp cap pools (only_of_count sp pools only.0 only.1)

-- Setting the capacities back restores such a list.
pub restore_capacities_lem :
    (xs ys : List StoragePool)
    → Alike xs ys
    → restore_capacities (map (λ sp. sp.capacity_provisioned) xs) ys ≡ xs
unfolding restore_capacities
restore_capacities_lem [] [] h = refl
restore_capacities_lem (x ∷ xs) (y ∷ ys) h =
    ap₂ ◌∷◌
      (ap (λ (q : StoragePool). record q { capacity_provisioned = x.capacity_provisioned })
        (sym h.0))
      (restore_capacities_lem xs ys h.1)
restore_capacities_lem [] (y ∷ ys) h = absurd h
restore_capacities_lem (x ∷ xs) [] h = absurd h

abbrev pub provisioned : List StoragePool → ℕ
provisioned [] = 0
provisioned (sp ∷ pools) = sp.capacity_provisioned + provisioned pools

write_back-absent :
    (sp : StoragePool) (pools : List StoragePool)
    → count_name sp.name pools ≡ 0
    → write_back sp pools ≡ pools
unfolding write_back count_name
write_back-absent sp [] h = refl
write_back-absent sp (q ∷ pools) h = ground (arith, write_back-absent sp pools)

provisioned-write :
    (sp : StoragePool) (n : ℕ) (pools : List StoragePool)
    → All (λ q. (q.name == sp.name) ≡ true → q ≡ sp) pools
    → count_name sp.name pools ≡ 1
    → provisioned
        (write_back (record sp { capacity_provisioned = sp.capacity_provisioned + n }) pools)
      ≡ provisioned pools + n
unfolding write_back count_name
provisioned-write sp n [] h c = absurd (omega arith)
provisioned-write sp n (q ∷ pools) h c = elim (Bool-cases (q.name == sp.name)) [
  | inl t ↦ ground (
    arith,
    t,
    h.0 t,
    write_back-absent (record sp { capacity_provisioned = sp.capacity_provisioned + n }) pools,
  )
  | inr f ↦ ground (arith, f, provisioned-write sp n pools h.1)
]

-- The sum of the capacities grows by what the one pool was given.
pub provisioned-write_back :
    (sp : StoragePool) (n : ℕ) (pools : List StoragePool)
    → IsOnly sp pools
    → provisioned
        (write_back (record sp { capacity_provisioned = sp.capacity_provisioned + n }) pools)
      ≡ provisioned pools + n
provisioned-write_back sp n pools only =
    provisioned-write sp n pools (only_of_count sp pools only.0 only.1) only.1
