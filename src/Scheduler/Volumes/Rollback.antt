-- ===== src/Scheduler/Volumes/Rollback.antt =====
-- `_allocate_node_volumes`: its handler, and the accounting of capacity.
use exordos_core.Base.{
  ℕ, ◌+◌, ◌≡◌, ap, ap₂, sym, ◌∙◌, ◌==◌, false, some, List, [], ◌∷◌, map, All, All-IsIn, IsIn, arith,
  inl, inr, Bool-cases, subst,
}
use exordos_core.Base.Result.{ok, err, Result-cases}
use exordos_core.Scheduler.Volumes.{
  Volume, MachineVolume, PoolBundle, PlaceError, StorageLib, IsStorageLib, remove, reread,
  place_volume_into_pool, place_all, allocate_node_volumes,
}
use exordos_core.Scheduler.Volumes.Lists.{
  Alike, Alike-refl, Alike-trans, Alike-write_back, restore_capacities_lem, provisioned,
  provisioned-write_back,
}
use exordos_core.Scheduler.Volumes.Owners.{
  IsTouched, IsTouched-refl, IsTouched-trans, IsPlaced-IsTouched, restored_objects, reread_lem,
}
use exordos_core.Scheduler.Volumes.Placed.{IsPlaced, place_volume_into_pool-IsPlaced}

-- The sum of the sizes of the idle volumes.
abbrev pub idle_size : List MachineVolume → ℕ
idle_size [] = 0
idle_size (v ∷ vs) = v.size + idle_size vs

abbrev pub requested : List Volume → ℕ
requested [] = 0
requested (v ∷ vs) = v.size + requested vs

-- No two of the volumes have the same uuid.
abbrev pub IsDistinct : List MachineVolume → Type 0
IsDistinct [] = Unit
IsDistinct (v ∷ vs) = All (λ w. (w.uuid == v.uuid) ≡ false) vs × IsDistinct vs

idle_size-remove :
    (v : MachineVolume) (vs : List MachineVolume)
    → IsIn v vs
    → IsDistinct vs
    → idle_size (remove v vs) + v.size ≡ idle_size vs
unfolding remove
idle_size-remove v [] i d = absurd i
idle_size-remove v (w ∷ vs) (inl e) d = ground (arith, e)
idle_size-remove v (w ∷ vs) (inr i) d =
    let other = All-IsIn (λ u. (u.uuid == w.uuid) ≡ false) v vs d.0 i in
    ground (arith, other, idle_size-remove v vs i d.1)

All-remove :
    (P : MachineVolume → Type 0) (v : MachineVolume) (vs : List MachineVolume)
    → All P vs
    → All P (remove v vs)
unfolding remove
All-remove P v [] h = tt
All-remove P v (w ∷ vs) h = elim (Bool-cases (w.uuid == v.uuid)) [
  | inl t ↦ rw t h.1
  | inr f ↦ rw f (h.0, All-remove P v vs h.1)
]

remove-IsDistinct :
    (v : MachineVolume) (vs : List MachineVolume) → IsDistinct vs → IsDistinct (remove v vs)
unfolding remove
remove-IsDistinct v [] h = tt
remove-IsDistinct v (w ∷ vs) h = elim (Bool-cases (w.uuid == v.uuid)) [
  | inl t ↦ rw t h.1
  | inr f ↦ rw f (All-remove (λ u. (u.uuid == w.uuid) ≡ false) v vs h.0, remove-IsDistinct v vs h.1)
]

module _ (lib : StorageLib) (is_lib : IsStorageLib lib) where
  place_all-failed :
      (pool : PoolBundle) (volume : Volume) (rest : List Volume) (e : PlaceError)
      → place_volume_into_pool lib pool volume ≡ err e
      → place_all lib pool (volume ∷ rest) ≡ (err e, pool)
  unfolding place_all
  place_all-failed pool volume rest e h = rw (h, place_all)

  place_all-left :
      (pool : PoolBundle) (volume : Volume) (rest : List Volume) (v : MachineVolume)
      (pool' : PoolBundle)
      → place_volume_into_pool lib pool volume ≡ ok (v, pool')
      → (place_all lib pool (volume ∷ rest)).1 ≡ (place_all lib pool' rest).1
  unfolding place_all
  place_all-left pool volume rest v pool' h = ground (arith, h)

  place_all-placed :
      (pool : PoolBundle) (volume : Volume) (rest : List Volume) (v : MachineVolume)
      (pool' : PoolBundle) (vs : List MachineVolume)
      → place_volume_into_pool lib pool volume ≡ ok (v, pool')
      → (place_all lib pool (volume ∷ rest)).0 ≡ ok vs
      → (ws : List MachineVolume) × ((place_all lib pool' rest).0 ≡ ok ws) × (vs ≡ v ∷ ws)
  unfolding place_all
  place_all-placed pool volume rest v pool' vs h e =
      elim (Result-cases (place_all lib pool' rest).0) [
        | inl (ws, done) ↦ (ws, done, ground (arith, h, done, e))
        | inr (x, failed) ↦ absurd (ground (arith, h, failed, e))
      ]

  place_all-Alike :
      (pool : PoolBundle) (volumes : List Volume)
      → Alike pool.storage_pools (place_all lib pool volumes).1.storage_pools
  place_all-Alike pool [] = unfold place_all in Alike-refl pool.storage_pools
  place_all-Alike pool (volume ∷ rest) =
      elim (Result-cases (place_volume_into_pool lib pool volume)) [
        | inr (e, failed) ↦
            rw (place_all-failed pool volume rest e failed) (Alike-refl pool.storage_pools)
        | inl ((v, pool'), done) ↦
            let placed = place_volume_into_pool-IsPlaced lib is_lib pool volume v pool' done in
            let cap = placed.sp.capacity_provisioned + placed.grown in
            let one : Alike pool.storage_pools pool'.storage_pools =
              subst (Alike pool.storage_pools) (sym placed.pools)
                (Alike-write_back placed.sp cap pool.storage_pools placed.only) in
            rw (place_all-left pool volume rest v pool' done) (
              Alike-trans pool.storage_pools pool'.storage_pools _ one (place_all-Alike pool' rest))
      ]

  place_all-IsTouched :
      (pool : PoolBundle) (volumes : List Volume) → IsTouched pool (place_all lib pool volumes).1
  place_all-IsTouched pool [] = unfold place_all in IsTouched-refl pool
  place_all-IsTouched pool (volume ∷ rest) =
      elim (Result-cases (place_volume_into_pool lib pool volume)) [
        | inr (e, failed) ↦ rw (place_all-failed pool volume rest e failed) (IsTouched-refl pool)
        | inl ((v, pool'), done) ↦
            let placed = place_volume_into_pool-IsPlaced lib is_lib pool volume v pool' done in
            rw (place_all-left pool volume rest v pool' done) (
              IsTouched-trans pool pool' (place_all lib pool' rest).1
                (IsPlaced-IsTouched lib pool volume v pool' placed)
                (place_all-IsTouched pool' rest))
      ]

  -- When the volumes of a node do not all fit, and each idle volume of the pool is read from its
  -- object, then the pool is left exactly as it was: its capacities, its idle volumes, and every field
  -- of every object, the owners of reused volumes included.
  pub allocate_node_volumes_rollback :
      (pool : PoolBundle) (volumes : List Volume) (e : PlaceError)
      → All (λ v. pool.objects v.uuid ≡ v) pool.volumes
      → (allocate_node_volumes lib pool volumes).0 ≡ err e
      → (allocate_node_volumes lib pool volumes).1 ≡ pool
  unfolding allocate_node_volumes
  allocate_node_volumes_rollback pool volumes e shared h =
      elim (Result-cases (place_all lib pool volumes).0) [
        | inl (vs, done) ↦ absurd (ground (arith, done, h))
        | inr (e', failed) ↦
            let owners =
              restored_objects pool (place_all lib pool volumes).1
                (place_all-IsTouched pool volumes) in
            ground (
              arith,
              failed,
              owners,
              ap (λ (f : ℕ → MachineVolume). reread f pool.volumes) owners,
              reread_lem pool.objects pool.volumes shared,
              restore_capacities_lem pool.storage_pools (place_all lib pool volumes).1.storage_pools
                  (place_all-Alike pool volumes),
            )
      ]

  -- What was allocated is accounted for.
  pub record IsAccounted (pool : PoolBundle) (volumes : List Volume) (vs : List MachineVolume)
      (pool' : PoolBundle) : Type 0 where
    pub owners : map (λ v. v.node_volume) vs ≡ map (λ v. some v.uuid) volumes
    pub capacity :
        provisioned pool'.storage_pools + idle_size pool.volumes
        ≡ provisioned pool.storage_pools + idle_size pool'.volumes + requested volumes
    pub distinct : IsDistinct pool'.volumes

  one-IsAccounted :
      (pool : PoolBundle) (volume : Volume) (v : MachineVolume) (pool' : PoolBundle)
      → IsDistinct pool.volumes
      → IsPlaced lib pool volume v pool'
      → (provisioned pool'.storage_pools + idle_size pool.volumes
          ≡ provisioned pool.storage_pools + idle_size pool'.volumes + volume.size)
        × IsDistinct pool'.volumes
  one-IsAccounted pool volume v pool' d placed =
      let grew = provisioned-write_back placed.sp placed.grown pool.storage_pools placed.only in
      let total : provisioned pool'.storage_pools ≡ provisioned pool.storage_pools + placed.grown =
        ap provisioned placed.pools ∙ grew in
      elim placed.volumes [
        | inl (all, _, same, _) ↦
            (omega (arith, total, all, ap idle_size same), subst IsDistinct (sym same) d)
        | inr (idle, there, sizes, _, left, _) ↦ (
          omega
              (arith, total, sizes, ap idle_size left, idle_size-remove idle pool.volumes there d),
          subst IsDistinct (sym left) (remove-IsDistinct idle pool.volumes d),
        )
      ]

  place_all-IsAccounted :
      (pool : PoolBundle) (volumes : List Volume) (vs : List MachineVolume)
      → IsDistinct pool.volumes
      → (place_all lib pool volumes).0 ≡ ok vs
      → IsAccounted pool volumes vs (place_all lib pool volumes).1
  place_all-IsAccounted pool [] vs d h =
      unfold place_all in
      record { owners = ground (arith, h); capacity = omega arith; distinct = d }
  place_all-IsAccounted pool (volume ∷ rest) vs d h =
      elim (Result-cases (place_volume_into_pool lib pool volume)) [
        | inr (e, failed) ↦ absurd (ground (arith, h, place_all-failed pool volume rest e failed))
        | inl ((v, pool'), done) ↦
            let placed = place_volume_into_pool-IsPlaced lib is_lib pool volume v pool' done in
            let (one, d') = one-IsAccounted pool volume v pool' d placed in
            let (ws, more, parts) = place_all-placed pool volume rest v pool' vs done h in
            let later = place_all-IsAccounted pool' rest ws d' more in
            rw (place_all-left pool volume rest v pool' done) (record {
              owners =
                  ap (map (λ (u : MachineVolume). u.node_volume)) parts
                  ∙ ap₂ ◌∷◌ placed.owner later.owners;
              capacity = omega (arith, one, later.capacity);
              distinct = later.distinct;
            })
      ]

  -- When all volumes of a node were placed, each allocation belongs to its volume, in order, and the
  -- provisioned capacity grew by the requested sizes less the sizes of the idle volumes that were
  -- taken; the idle volumes left are still distinct.
  pub allocate_node_volumes-IsAccounted :
      (pool : PoolBundle) (volumes : List Volume) (vs : List MachineVolume)
      → IsDistinct pool.volumes
      → (allocate_node_volumes lib pool volumes).0 ≡ ok vs
      → IsAccounted pool volumes vs (allocate_node_volumes lib pool volumes).1
  unfolding allocate_node_volumes
  allocate_node_volumes-IsAccounted pool volumes vs d h =
      elim (Result-cases (place_all lib pool volumes).0) [
        | inl (ws, done) ↦
            let same : allocate_node_volumes lib pool volumes ≡ place_all lib pool volumes =
              ground (arith, done) in
            rw same (place_all-IsAccounted pool volumes vs d (ground (arith, done, h)))
        | inr (e, failed) ↦ absurd (ground (arith, failed, h))
      ]
