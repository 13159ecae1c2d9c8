-- ===== src/Scheduler/Volumes/Tests.antt =====
-- A concrete library of storage pools, runs of the placement, and the theorems at concrete inputs.
use exordos_core.Base.{
  ℕ, ◌+◌, ◌-◌, ◌≡◌, refl, leb, Bool, true, ◌&&◌, Option, none, some, List, [], ◌∷◌, filter, any,
  IsIn, arith, if◌then◌else◌, inl, inr, Bool-cases,
}
use exordos_core.Base.Result.{ok, err}
use exordos_core.Scheduler.Volumes.{
  StoragePool, Volume, MachineVolume, PoolBundle, no_storage_pool, capacity_error, StorageLib,
  IsStorageLib, write_back, unique_pools, count_name, named, find_storage_pool_by_name,
  existing_storage_pool, same_image, same_flag, is_reusable, is_exact, insert_by, sort_by,
  candidates, remove, restore_capacities, set_owner, owners_of, restore_owners, reread,
  select_storage_pool, allocate, build_machine_volume, pool_of, reuse, try_candidates,
  place_volume_into_pool, place_all, allocate_node_volumes, machine_has_disk_capacity,
}
use exordos_core.Scheduler.Volumes.Placed.{IsPlaced, place_volume_into_pool-IsPlaced}
use exordos_core.Scheduler.Volumes.Rollback.{
  IsAccounted, allocate_node_volumes_rollback, allocate_node_volumes-IsAccounted,
}

-- `spec` is the usable capacity.
abbrev available : StoragePool → ℕ
available sp = sp.spec - sp.capacity_provisioned

unfoldable first : (StoragePool → Bool) → List StoragePool → Option StoragePool
first p [] = none
first p (sp ∷ pools) = let later = first p pools in if p sp then some sp else later

first_lem :
    (p : StoragePool → Bool) (pools : List StoragePool) (sp : StoragePool)
    → first p pools ≡ some sp
    → IsIn sp pools × (p sp ≡ true)
unfolding first
first_lem p [] sp h = absurd (ground (arith, h))
first_lem p (q ∷ pools) sp h = elim (Bool-cases (p q)) [
  | inl t ↦ let same : sp ≡ q = ground (arith, t, h) in (inl same, rw same t)
  | inr f ↦ let (there, test) = first_lem p pools sp (ground (arith, f, h)) in (inr there, test)
]

abbrev lib : StorageLib
lib = record {
  select_storage_pool = λ pools tier ephemeral size.
      first (λ sp. same_flag sp.ephemeral ephemeral && leb size (available sp)) pools;
  available = available;
  allocate_capacity = λ size sp.
      if leb size (available sp)
      then ok (record sp { capacity_provisioned = sp.capacity_provisioned + size })
      else err (capacity_error true);
}

is_lib : IsStorageLib lib
unfolding same_flag
is_lib = record {
  selects = λ pools tier size ephemeral sp h.
      let (there, test) =
        first_lem (λ q. same_flag q.ephemeral ephemeral && leb size (available q)) pools sp h in
      (there, ground (arith, test), ground (arith, test));
  allocates = λ size sp sp' h. ground (arith, h);
}

program : Unit {0}
unfolding first same_flag write_back unique_pools filter any count_name named
    find_storage_pool_by_name existing_storage_pool same_image is_reusable is_exact insert_by
    sort_by candidates remove restore_capacities set_owner owners_of restore_owners reread
    select_storage_pool allocate build_machine_volume pool_of reuse try_candidates
    place_volume_into_pool place_all allocate_node_volumes machine_has_disk_capacity
program = tt

abbrev warm : StoragePool
warm = record { name = 1; tier = 2; ephemeral = true; capacity_provisioned = 10; spec = 20 }

abbrev idle : MachineVolume
idle = record {
  uuid = 8;
  size = 4;
  image = some 3;
  tier = 2;
  ephemeral = true;
  storage_pool = some 1;
  node_volume = none;
}

abbrev pool : PoolBundle
pool = record {
  storage_pools = warm ∷ [];
  volumes = idle ∷ [];
  objects = λ k. record idle { uuid = k };
}

abbrev volume : ℕ → ℕ → Volume
volume uuid size = record { uuid = uuid; size = size; image = some 3; tier = 2; ephemeral = true }

abbrev reused : MachineVolume
reused = record idle { node_volume = some 50 }

abbrev left : PoolBundle
left = record {
  storage_pools = record warm { capacity_provisioned = 13 } ∷ [];
  volumes = [];
  objects = set_owner 8 (some 50) pool.objects;
}

place-reused : place_volume_into_pool lib pool (volume 50 7) ≡ ok (reused, left)
unfolding program
place-reused = refl

place_volume_into_pool-IsPlaced_example : IsPlaced lib pool (volume 50 7) reused left
place_volume_into_pool-IsPlaced_example =
    place_volume_into_pool-IsPlaced lib is_lib pool (volume 50 7) reused left place-reused

-- The second volume does not fit, and the first is taken back: when the loop ended, the object of the
-- idle volume belonged to it.
taken : (place_all lib pool (volume 50 7 ∷ volume 51 8 ∷ [])).1.objects 8 ≡ reused
unfolding program
taken = refl

too_much :
    (allocate_node_volumes lib pool (volume 50 7 ∷ volume 51 8 ∷ [])).0 ≡ err (no_storage_pool 8)
unfolding program
too_much = refl

allocate_node_volumes_rollback_example :
    (allocate_node_volumes lib pool (volume 50 7 ∷ volume 51 8 ∷ [])).1 ≡ pool
allocate_node_volumes_rollback_example =
    allocate_node_volumes_rollback lib is_lib pool (volume 50 7 ∷ volume 51 8 ∷ [])
      (no_storage_pool 8) (refl, tt) too_much

abbrev fresh : MachineVolume
fresh = record {
  uuid = 51;
  size = 5;
  image = some 3;
  tier = 2;
  ephemeral = true;
  storage_pool = some 1;
  node_volume = some 51;
}

allocate_node_volumes-IsAccounted_example :
    IsAccounted lib is_lib pool
      (volume 50 7 ∷ volume 51 5 ∷ [])
      (reused ∷ fresh ∷ [])
      (allocate_node_volumes lib pool (volume 50 7 ∷ volume 51 5 ∷ [])).1
unfolding program
allocate_node_volumes-IsAccounted_example =
    allocate_node_volumes-IsAccounted lib is_lib pool (volume 50 7 ∷ volume 51 5 ∷ [])
      (reused ∷ fresh ∷ []) (tt, tt) refl
