-- ===== src/Scheduler/Volumes/Placed.antt =====
-- What a successful `_place_volume_into_pool` has done.
use exordos_core.Base.{
  ℕ, ◌+◌, ◌-◌, ◌≤◌, ◌≡◌, refl, ltb, true, ◌&&◌, some, List, [], ◌∷◌, filter, All, All-append,
  All-filter, filter-All, IsIn, arith, inl, inr, ◌⊎◌, Bool-cases, Option-cases,
}
use exordos_core.Base.Result.{ok, Result-cases}
use exordos_core.Scheduler.Volumes.{
  StoragePool, Volume, MachineVolume, PoolBundle, StorageLib, IsStorageLib, write_back,
  unique_pools, existing_storage_pool, same_flag, is_reusable, is_exact, insert_by, sort_by,
  candidates, remove, set_owner, select_storage_pool, allocate, build_machine_volume, pool_of,
  reuse, try_candidates, place_volume_into_pool,
}
use exordos_core.Scheduler.Volumes.Lists.{IsOnly, IsOnly-unique, IsOnly-find}

module _ {κ} (P : MachineVolume → Type κ) (size : ℕ) where
  All-insert_by :
      (v : MachineVolume) (vs : List MachineVolume) → P v → All P vs → All P (insert_by size v vs)
  unfolding insert_by
  All-insert_by v [] h k = (h, k)
  All-insert_by v (w ∷ vs) h k = elim (Bool-cases (ltb (size - w.size) (size - v.size))) [
    | inl t ↦ rw t (k.0, All-insert_by v vs h k.1)
    | inr f ↦ rw f (h, k)
  ]

  All-sort_by : (vs : List MachineVolume) → All P vs → All P (sort_by size vs)
  unfolding sort_by
  All-sort_by [] h = h
  All-sort_by (v ∷ vs) h = All-insert_by v (sort_by size vs) h.0 (All-sort_by vs h.1)

All-weaken :
    (v : MachineVolume) (vs ws : List MachineVolume)
    → All (λ w. IsIn w vs) ws
    → All (λ w. IsIn w (v ∷ vs)) ws
All-weaken v vs [] h = tt
All-weaken v vs (w ∷ ws) h = (inr h.0, All-weaken v vs ws h.1)

All-self : (vs : List MachineVolume) → All (λ w. IsIn w vs) vs
All-self [] = tt
All-self (v ∷ vs) = (inl refl, All-weaken v vs vs (All-self vs))

All-both :
    (P Q : MachineVolume → Type 0) (vs : List MachineVolume)
    → All P vs
    → All Q vs
    → All (λ v. P v × Q v) vs
All-both P Q [] h k = tt
All-both P Q (v ∷ vs) h k = ((h.0, k.0), All-both P Q vs h.1 k.1)

-- A candidate is an idle volume that can be reused.
abbrev IsCandidate : Volume → PoolBundle → MachineVolume → Type 0
IsCandidate volume pool v = IsIn v pool.volumes × (is_reusable volume pool v ≡ true)

candidates-IsCandidate :
    (volume : Volume) (pool : PoolBundle) → All (IsCandidate volume pool) (candidates volume pool)
unfolding candidates
candidates-IsCandidate volume pool =
    let P = IsCandidate volume pool in
    let volumes = filter (is_reusable volume pool) pool.volumes in
    let reusable : All P volumes =
      All-both (λ v. IsIn v pool.volumes) (λ v. is_reusable volume pool v ≡ true) volumes
        (All-filter (λ v. IsIn v pool.volumes) (is_reusable volume pool) pool.volumes
          (All-self pool.volumes))
        (filter-All (is_reusable volume pool) pool.volumes) in
    All-append P _ _
      (All-sort_by P volume.size _ (All-filter P (is_exact volume pool) volumes reusable))
      (All-sort_by P volume.size _ (All-filter P _ volumes reusable))

-- The storage pool of a candidate is on the requested ephemeral side, and it is no larger than
-- what is requested.
candidate_lem :
    (volume : Volume) (pool : PoolBundle) (v : MachineVolume) (sp : StoragePool)
    → is_reusable volume pool v ≡ true
    → pool_of pool v ≡ ok sp
    → (sp.ephemeral ≡ volume.ephemeral)
      × (v.size ≤ volume.size)
      × (v.storage_pool ≡ some sp.name)
      × IsOnly sp pool.storage_pools
unfolding is_reusable existing_storage_pool pool_of same_flag
candidate_lem volume pool v sp h e = elim (Option-cases v.storage_pool) [
  | inl missing ↦ absurd (ground (arith, missing, e))
  | inr (name, there) ↦
      let (only, same) = IsOnly-find pool name sp (ground (arith, there, e)) in
      (ground (arith, there, h, e), ground (arith, there, h), ground (arith, there, same), only)
]

-- How a volume was placed: on the only storage pool of its name, on the requested ephemeral side,
-- whose provisioned capacity grew by `grown`, for which there was room; as a new volume, or by an
-- idle one that is smaller by `grown` and is idle no more; only the owner of its object changed.
pub record IsPlaced (lib : StorageLib) (pool : PoolBundle) (volume : Volume) (v : MachineVolume)
    (pool' : PoolBundle) : Type 0 where
  pub sp : StoragePool
  pub grown : ℕ
  pub only : IsOnly sp pool.storage_pools
  pub side : sp.ephemeral ≡ volume.ephemeral
  pub fits : grown ≤ lib.available sp
  pub named : v.storage_pool ≡ some sp.name
  pub owner : v.node_volume ≡ some volume.uuid
  pub pools :
      pool'.storage_pools
      ≡ write_back
          (record sp { capacity_provisioned = sp.capacity_provisioned + grown })
          pool.storage_pools
  pub volumes :
      ((grown ≡ volume.size)
        × (v.size ≡ volume.size)
        × (pool'.volumes ≡ pool.volumes)
        × (pool'.objects ≡ pool.objects))
      ⊎ ((idle : MachineVolume) × IsIn idle pool.volumes
          × (idle.size + grown ≡ volume.size)
          × (v ≡ record idle { node_volume = some volume.uuid })
          × (pool'.volumes ≡ remove idle pool.volumes)
          × (pool'.objects ≡ set_owner idle.uuid (some volume.uuid) pool.objects))

module _ (lib : StorageLib) (is_lib : IsStorageLib lib) where
  build-IsPlaced :
      (pool : PoolBundle) (volume : Volume) (v : MachineVolume) (pool' : PoolBundle)
      → build_machine_volume lib pool volume ≡ ok (v, pool')
      → IsPlaced lib pool volume v pool'
  unfolding build_machine_volume select_storage_pool allocate
  build-IsPlaced pool volume v pool' h =
      elim (Option-cases (
        lib.select_storage_pool (unique_pools pool.storage_pools) volume.tier volume.ephemeral
          volume.size)) [
            | inl missing ↦ absurd (ground (arith, missing, h))
            | inr (sp, selected) ↦ elim (Result-cases (lib.allocate_capacity volume.size sp)) [
              | inr (e, failed) ↦ absurd (ground (arith, selected, failed, h))
              | inl (sp', done) ↦
                  let (there, side, room) =
                    is_lib.selects _ volume.tier volume.size volume.ephemeral sp selected in
                  let grew = is_lib.allocates volume.size sp sp' done in
                  record {
                    sp = sp;
                    grown = volume.size;
                    only = IsOnly-unique sp pool.storage_pools there;
                    side = side;
                    fits = room;
                    named = ground (arith, selected, done, h);
                    owner = ground (arith, selected, done, h);
                    pools = ground (arith, selected, done, grew, h);
                    volumes = inl (
                      refl,
                      ground (arith, selected, done, h),
                      ground (arith, selected, done, h),
                      ground (arith, selected, done, h),
                    );
                  }
            ]
          ]

  reuse-IsPlaced :
      (pool : PoolBundle) (volume : Volume) (idle : MachineVolume) (sp : StoragePool)
      (v : MachineVolume) (pool' : PoolBundle)
      → IsCandidate volume pool idle
      → pool_of pool idle ≡ ok sp
      → volume.size - idle.size ≤ lib.available sp
      → reuse lib pool volume idle sp ≡ ok (v, pool')
      → IsPlaced lib pool volume v pool'
  unfolding reuse allocate
  reuse-IsPlaced pool volume idle sp v pool' c at room h =
      let (side, small, named, only) = candidate_lem volume pool idle sp c.1 at in
      elim (Result-cases (lib.allocate_capacity (volume.size - idle.size) sp)) [
        | inr (e, failed) ↦ absurd (ground (arith, failed, h))
        | inl (sp', done) ↦
            let grew = is_lib.allocates (volume.size - idle.size) sp sp' done in
            let same : v ≡ record idle { node_volume = some volume.uuid } =
              ground (arith, done, h) in
            record {
              sp = sp;
              grown = volume.size - idle.size;
              only = only;
              side = side;
              fits = room;
              named = ground (arith, same, named);
              owner = ground (arith, same);
              pools = ground (arith, done, grew, h);
              volumes =
                  inr (
                    idle,
                    c.0,
                    omega arith,
                    same,
                    ground (arith, done, h),
                    ground (arith, done, h),
                  );
            }
      ]

  try_candidates-IsPlaced :
      (pool : PoolBundle) (volume : Volume) (vs : List MachineVolume) (v : MachineVolume)
      (pool' : PoolBundle)
      → All (IsCandidate volume pool) vs
      → try_candidates lib pool volume vs ≡ ok (v, pool')
      → IsPlaced lib pool volume v pool'
  unfolding try_candidates
  try_candidates-IsPlaced pool volume [] v pool' c h = build-IsPlaced pool volume v pool' h
  try_candidates-IsPlaced pool volume (idle ∷ vs) v pool' c h =
      elim (Result-cases (pool_of pool idle)) [
        | inr (e, failed) ↦ absurd (ground (arith, failed, h))
        | inl (sp, at) ↦
            elim (Bool-cases (
              ltb 0 (volume.size - idle.size)
              && ltb (lib.available sp) (volume.size - idle.size))) [
                | inl skip ↦
                    try_candidates-IsPlaced pool volume vs v pool' c.1 (ground (arith, at, skip, h))
                | inr enough ↦
                    reuse-IsPlaced pool volume idle sp v pool' c.0 at (ground (arith, enough))
                      (ground (arith, at, enough, h))
              ]
      ]

  -- A successful placement is as described.
  pub place_volume_into_pool-IsPlaced :
      (pool : PoolBundle) (volume : Volume) (v : MachineVolume) (pool' : PoolBundle)
      → place_volume_into_pool lib pool volume ≡ ok (v, pool')
      → IsPlaced lib pool volume v pool'
  unfolding place_volume_into_pool
  place_volume_into_pool-IsPlaced pool volume v pool' h = elim (Option-cases volume.image) [
    | inl none_given ↦ build-IsPlaced pool volume v pool' (ground (arith, none_given, h))
    | inr (image, given) ↦
        try_candidates-IsPlaced pool volume (candidates volume pool) v pool'
          (candidates-IsCandidate volume pool) (ground (arith, given, h))
  ]
