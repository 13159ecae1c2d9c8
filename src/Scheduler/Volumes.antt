-- ===== src/Scheduler/Volumes.antt =====
-- exordos_core/compute/scheduler/service.py: placing the volumes of a node into a machine pool.
pub mod Lists
pub mod Placed
pub mod Owners
pub mod Rollback
mod Tests
use exordos_core.Base.{
  ℕ, ◌+◌, ◌-◌, ◌≤◌, ◌==◌, ltb, Bool, true, false, not, ◌&&◌, ◌||◌, Option, none, some, List, [],
  ◌∷◌, ◌++◌, filter, any, IsIn, map, ◌≡◌, if◌then◌else◌,
}
use exordos_core.Base.Result.{Result, ok, err}

-- A storage pool of the library, by the fields that the scheduler reads and writes; `spec` stands for
-- all others. Names and tiers are numbers.
pub record StoragePool : Type 0 where
  pub name : ℕ
  pub tier : ℕ
  pub ephemeral : Bool
  pub capacity_provisioned : ℕ
  pub spec : ℕ

-- A volume of a node. An image is a number.
pub record Volume : Type 0 where
  pub uuid : ℕ
  pub size : ℕ
  pub image : Option ℕ
  pub tier : ℕ
  pub ephemeral : Bool

-- A volume of a pool. `storage_pool` and `node_volume` may be `None`.
pub record MachineVolume : Type 0 where
  pub uuid : ℕ
  pub size : ℕ
  pub image : Option ℕ
  pub tier : ℕ
  pub ephemeral : Bool
  pub storage_pool : Option ℕ
  pub node_volume : Option ℕ

-- `MachinePoolBundle`: the storage pools of the machine pool, and its idle volumes. The lists of
-- volumes hold shared objects; `objects` are their fields as they are now, by the uuid of the object.
pub record PoolBundle : Type 0 where
  pub storage_pools : List StoragePool
  pub volumes : List MachineVolume
  pub objects : ℕ → MachineVolume

-- The exceptions. The first three are `ValueError`s; `capacity_error` is whatever `allocate_capacity`
-- of the library raises, a `ValueError` or not.
pub data PlaceError : Type 0 where
  no_storage_pool : (size : ℕ) → PlaceError
  unknown_storage_pool : (name : ℕ) → PlaceError
  ambiguous_storage_pool : (name : ℕ) → PlaceError
  capacity_error : (value_error : Bool) → PlaceError

-- What the scheduler calls of the library of storage pools: `ua_pool.select_storage_pool`, the
-- property `available` and the method `allocate_capacity`, which changes the object or raises.
pub record StorageLib : Type 0 where
  pub select_storage_pool :
      List StoragePool → (tier : ℕ) (ephemeral : Bool) (size : ℕ) → Option StoragePool
  pub available : StoragePool → ℕ
  pub allocate_capacity : ℕ → StoragePool → Result PlaceError StoragePool

-- What is documented of them: a selected pool is one of the given ones, on the asked ephemeral
-- side, with enough free capacity; an allocation that does not raise adds to the provisioned
-- capacity.
pub record IsStorageLib (lib : StorageLib) : Type 0 where
  pub selects :
      (pools : List StoragePool) (tier size : ℕ) (ephemeral : Bool) (sp : StoragePool)
      → lib.select_storage_pool pools tier ephemeral size ≡ some sp
      → IsIn sp pools × (sp.ephemeral ≡ ephemeral) × (size ≤ lib.available sp)
  pub allocates :
      (size : ℕ) (sp sp' : StoragePool)
      → lib.allocate_capacity size sp ≡ ok sp'
      → sp' ≡ record sp { capacity_provisioned = sp.capacity_provisioned + size }

-- `names.count(name)`
unfoldable pub count_name : ℕ → List StoragePool → ℕ
count_name name [] = 0
count_name name (sp ∷ pools) = (if sp.name == name then 1 else 0) + count_name name pools

-- An object of the list is written back under its name, which is unique in the list.
unfoldable pub write_back : StoragePool → List StoragePool → List StoragePool
write_back sp [] = []
write_back sp (q ∷ pools) = (if q.name == sp.name then sp else q) ∷ write_back sp pools

-- `[sp for sp in storage_pools if names.count(sp.name) == 1]`
unfoldable pub unique_pools : List StoragePool → List StoragePool
unique_pools pools = filter (λ sp. count_name sp.name pools == 1) pools

-- `[sp for sp in storage_pools if sp.name == name]`
unfoldable pub named : ℕ → List StoragePool → List StoragePool
named name pools = filter (λ sp. sp.name == name) pools

-- `_find_storage_pool_by_name`
unfoldable pub find_storage_pool_by_name : PoolBundle → ℕ → Result PlaceError StoragePool
find_storage_pool_by_name pool name = elim (named name pool.storage_pools) [
  | [] ↦ err (unknown_storage_pool name)
  | sp ∷ rest ↦ elim rest [ [] ↦ ok sp | _ ↦ err (ambiguous_storage_pool name) ]
]

-- `_existing_storage_pool`
unfoldable pub existing_storage_pool : PoolBundle → MachineVolume → Option StoragePool
existing_storage_pool pool v = elim v.storage_pool [
  | none ↦ none
  | some name ↦ elim (find_storage_pool_by_name pool name) [ ok sp ↦ some sp | err e ↦ none ]
]

unfoldable pub same_image : Option ℕ → Option ℕ → Bool
same_image none none = true
same_image (some a) (some b) = a == b
same_image _ _ = false

unfoldable pub same_flag : Bool → Bool → Bool
same_flag true b = b
same_flag false b = not b

-- The tests of the loop over the idle volumes: whether one can be reused, and whether it already is
-- on the requested tier.
unfoldable pub is_reusable : Volume → PoolBundle → MachineVolume → Bool
is_reusable volume pool v =
    if not (same_image v.image volume.image) || ltb volume.size v.size
    then false
    else elim (existing_storage_pool pool v) [
      | none ↦ false
      | some sp ↦ same_flag sp.ephemeral volume.ephemeral
    ]

unfoldable pub is_exact : Volume → PoolBundle → MachineVolume → Bool
is_exact volume pool v = elim (existing_storage_pool pool v) [
  | none ↦ false
  | some sp ↦ sp.tier == volume.tier && same_flag sp.ephemeral volume.ephemeral
]

-- Python's stable sort by the key `volume.size - v.size`.
unfoldable pub insert_by : ℕ → MachineVolume → List MachineVolume → List MachineVolume
insert_by size v [] = v ∷ []
insert_by size v (w ∷ rest) =
    let later = w ∷ insert_by size v rest in
    if ltb (size - w.size) (size - v.size) then later else v ∷ w ∷ rest

unfoldable pub sort_by : ℕ → List MachineVolume → List MachineVolume
sort_by size [] = []
sort_by size (v ∷ rest) = insert_by size v (sort_by size rest)

-- `exact_volumes + other_volumes`, in the order in which they are tried. Volumes are told apart by
-- their uuid, the key of their table.
unfoldable pub candidates : Volume → PoolBundle → List MachineVolume
candidates volume pool =
    let volumes = filter (is_reusable volume pool) pool.volumes in
    let exact = filter (is_exact volume pool) volumes in
    sort_by volume.size exact
    ++ sort_by volume.size (filter (λ v. not (any (λ w. w.uuid == v.uuid) exact)) volumes)

-- `pool.volumes.remove(pool_volume)`
unfoldable pub remove : MachineVolume → List MachineVolume → List MachineVolume
remove v [] = []
remove v (w ∷ rest) = let later = w ∷ remove v rest in if w.uuid == v.uuid then rest else later

-- `for storage_pool, capacity in capacities: storage_pool.capacity_provisioned = capacity`
unfoldable pub restore_capacities : List ℕ → List StoragePool → List StoragePool
restore_capacities (c ∷ cs) (sp ∷ pools) =
    record sp { capacity_provisioned = c } ∷ restore_capacities cs pools
restore_capacities [] pools = pools
restore_capacities (c ∷ cs) [] = []

-- `volume.node_volume = owner`, on the object with this uuid.
unfoldable pub set_owner : ℕ → Option ℕ → (ℕ → MachineVolume) → ℕ → MachineVolume
set_owner uuid owner objects k =
    if k == uuid then record (objects k) { node_volume = owner } else objects k

-- `owners = [(volume, volume.node_volume) for volume in idle_volumes]`
unfoldable pub owners_of : (ℕ → MachineVolume) → List MachineVolume → List (ℕ × Option ℕ)
owners_of objects [] = []
owners_of objects (v ∷ vs) = (v.uuid, (objects v.uuid).node_volume) ∷ owners_of objects vs

-- `for volume, owner in owners: volume.node_volume = owner`
unfoldable pub restore_owners : List (ℕ × Option ℕ) → (ℕ → MachineVolume) → ℕ → MachineVolume
restore_owners [] objects = objects
restore_owners ((uuid, owner) ∷ os) objects = restore_owners os (set_owner uuid owner objects)

-- `pool.volumes[:] = idle_volumes`: the same objects again, read as they are now.
unfoldable pub reread : (ℕ → MachineVolume) → List MachineVolume → List MachineVolume
reread objects [] = []
reread objects (v ∷ vs) = objects v.uuid ∷ reread objects vs

-- `_find_storage_pool_by_name(pool, pool_volume.storage_pool)`; a candidate always has a name there.
unfoldable pub pool_of : PoolBundle → MachineVolume → Result PlaceError StoragePool
pool_of pool v = elim v.storage_pool [
  | none ↦ err (unknown_storage_pool 0)
  | some name ↦ find_storage_pool_by_name pool name
]

module _ (lib : StorageLib) where
  -- `_select_storage_pool`
  unfoldable pub select_storage_pool : PoolBundle → Volume → ℕ → Result PlaceError StoragePool
  select_storage_pool pool volume size =
      elim (lib.select_storage_pool (unique_pools pool.storage_pools) volume.tier volume.ephemeral
        size) [ some sp ↦ ok sp | none ↦ err (no_storage_pool size) ]

  -- `storage_pool.allocate_capacity(size)`, on a storage pool of the bundle.
  unfoldable pub allocate : ℕ → StoragePool → PoolBundle → Result PlaceError PoolBundle
  allocate size sp pool = elim (lib.allocate_capacity size sp) [
    | err e ↦ err e
    | ok sp' ↦ ok (record pool { storage_pools = write_back sp' pool.storage_pools })
  ]

  -- `_build_machine_volume`
  unfoldable pub build_machine_volume :
      PoolBundle → Volume → Result PlaceError (MachineVolume × PoolBundle)
  build_machine_volume pool volume = elim (select_storage_pool pool volume volume.size) [
    | err e ↦ err e
    | ok sp ↦ elim (allocate volume.size sp pool) [
      | err e ↦ err e
      | ok pool' ↦ ok (
        record {
          uuid = volume.uuid;
          size = volume.size;
          image = volume.image;
          tier = volume.tier;
          ephemeral = volume.ephemeral;
          storage_pool = some sp.name;
          node_volume = some volume.uuid;
        },
        pool',
      )
    ]
  ]

  -- The body of the loop over the candidates behind its `continue`.
  unfoldable pub reuse :
      PoolBundle
      → Volume
      → MachineVolume
      → StoragePool
      → Result PlaceError (MachineVolume × PoolBundle)
  reuse pool volume v sp = elim (allocate (volume.size - v.size) sp pool) [
    | err e ↦ err e
    | ok pool' ↦ ok (
      record v { node_volume = some volume.uuid },
      record pool' {
        volumes = remove v pool'.volumes;
        objects = set_owner v.uuid (some volume.uuid) pool'.objects;
      },
    )
  ]

  unfoldable pub try_candidates :
      PoolBundle → Volume → List MachineVolume → Result PlaceError (MachineVolume × PoolBundle)
  try_candidates pool volume [] = build_machine_volume pool volume
  try_candidates pool volume (v ∷ rest) =
      let later = try_candidates pool volume rest in
      elim (pool_of pool v) [
        | err e ↦ err e
        | ok sp ↦
            if ltb 0 (volume.size - v.size) && ltb (lib.available sp) (volume.size - v.size)
            then later
            else reuse pool volume v sp
      ]

  -- `_place_volume_into_pool`. When it raises, the pool is as before, or `allocate_capacity` raised.
  unfoldable pub place_volume_into_pool :
      PoolBundle → Volume → Result PlaceError (MachineVolume × PoolBundle)
  place_volume_into_pool pool volume = elim volume.image [
    | none ↦ build_machine_volume pool volume
    | some image ↦ try_candidates pool volume (candidates volume pool)
  ]

  -- The loop of `_allocate_node_volumes`: what was placed before an exception stays placed.
  unfoldable pub place_all :
      PoolBundle → List Volume → Result PlaceError (List MachineVolume) × PoolBundle
  place_all pool [] = (ok [], pool)
  place_all pool (volume ∷ rest) = elim (place_volume_into_pool pool volume) [
    | err e ↦ (err e, pool)
    | ok (v, pool') ↦
        let (r, pool'') = place_all pool' rest in
        elim r [ err e ↦ (err e, pool'') | ok vs ↦ (ok (v ∷ vs), pool'') ]
  ]

  -- `_allocate_node_volumes`
  unfoldable pub allocate_node_volumes :
      PoolBundle → List Volume → Result PlaceError (List MachineVolume) × PoolBundle
  allocate_node_volumes pool volumes =
      let (r, pool') = place_all pool volumes in
      elim r [
        | ok vs ↦ (ok vs, pool')
        | err e ↦
            let objects = restore_owners (owners_of pool.objects pool.volumes) pool'.objects in
            (
              err e,
              record {
                storage_pools =
                    restore_capacities (map (λ sp. sp.capacity_provisioned) pool.storage_pools)
                      pool'.storage_pools;
                volumes = reread objects pool.volumes;
                objects = objects;
              },
            )
      ]

  -- `_machine_has_disk_capacity`, once the pool of the machine is known: the same placement, on a
  -- copy of the pool. Only a `ValueError` is caught.
  unfoldable pub machine_has_disk_capacity :
      List Volume → Option PoolBundle → Result PlaceError Bool
  machine_has_disk_capacity [] pool = ok true
  machine_has_disk_capacity (v ∷ rest) none = ok false
  machine_has_disk_capacity (v ∷ rest) (some pool) =
      elim (allocate_node_volumes pool (v ∷ rest)).0 [
        | ok _ ↦ ok true
        | err (capacity_error false) ↦ err (capacity_error false)
        | err e ↦ ok false
      ]
