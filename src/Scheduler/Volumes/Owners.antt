-- ===== src/Scheduler/Volumes/Owners.antt =====
-- The shared objects of the idle volumes in exordos_core/compute/scheduler/service.py: their owners
-- before and behind the handler of `_allocate_node_volumes`.
use mathlib.Core.Path.{fun_ext}
use exordos_core.Base.{
  ℕ, ◌≡◌, refl, ap, ap₂, ◌∙◌, ◌==◌, Bool, false, some, none, Option, List, [], ◌∷◌, any, any-IsIn,
  All, arith, inl, inr, Bool-cases, if◌then◌else◌,
}
use exordos_core.Scheduler.Volumes.{
  Volume, MachineVolume, PoolBundle, StorageLib, remove, set_owner, owners_of, restore_owners,
  reread,
}
use exordos_core.Scheduler.Volumes.Placed.{IsPlaced}

-- An object up to its owner.
abbrev unowned : MachineVolume → MachineVolume
unowned v = record v { node_volume = none }

-- Whether a volume of the list is the object with this uuid.
abbrev holds : ℕ → List MachineVolume → Bool
holds k vs = any (λ w. w.uuid == k) vs

-- Idle volumes are taken at most, and at most the owners of the objects of idle volumes changed.
pub record IsTouched (pool pool' : PoolBundle) : Type 0 where
  pub fewer : (k : ℕ) → holds k pool.volumes ≡ false → holds k pool'.volumes ≡ false
  pub same : (k : ℕ) → unowned (pool'.objects k) ≡ unowned (pool.objects k)
  pub others : (k : ℕ) → holds k pool.volumes ≡ false → pool'.objects k ≡ pool.objects k

pub IsTouched-refl : (pool : PoolBundle) → IsTouched pool pool
IsTouched-refl pool = record { fewer = λ k h. h; same = λ k. refl; others = λ k h. refl }

pub IsTouched-trans : (p q r : PoolBundle) → IsTouched p q → IsTouched q r → IsTouched p r
IsTouched-trans p q r a b = record {
  fewer = λ k h. b.fewer k (a.fewer k h);
  same = λ k. b.same k ∙ a.same k;
  others = λ k h. b.others k (a.fewer k h) ∙ a.others k h;
}

remove_fewer :
    (k : ℕ) (v : MachineVolume) (vs : List MachineVolume)
    → holds k vs ≡ false
    → holds k (remove v vs) ≡ false
unfolding remove any
remove_fewer k v [] h = refl
remove_fewer k v (w ∷ vs) h = ground (arith, h, remove_fewer k v vs)

set_owner-unowned :
    (u : ℕ) (o : Option ℕ) (objects : ℕ → MachineVolume) (k : ℕ)
    → unowned (set_owner u o objects k) ≡ unowned (objects k)
unfolding set_owner
set_owner-unowned u o objects k = elim (Bool-cases (k == u)) [
  | inl t ↦ rw t refl
  | inr f ↦ rw f refl
]

pub IsPlaced-IsTouched :
    (lib : StorageLib) (pool : PoolBundle) (volume : Volume) (v : MachineVolume)
    (pool' : PoolBundle)
    → IsPlaced lib pool volume v pool'
    → IsTouched pool pool'
unfolding set_owner
IsPlaced-IsTouched lib pool volume v pool' placed = elim placed.volumes [
  | inl (_, _, volumes, objects) ↦ record {
    fewer = λ k h. ap (holds k) volumes ∙ h;
    same = λ k. ap (λ (f : ℕ → MachineVolume). unowned (f k)) objects;
    others = λ k h. ap (λ (f : ℕ → MachineVolume). f k) objects;
  }
  | inr (idle, there, _, _, volumes, objects) ↦ record {
    fewer = λ k h. ap (holds k) volumes ∙ remove_fewer k idle pool.volumes h;
    same = λ k.
        ap (λ (f : ℕ → MachineVolume). unowned (f k)) objects
        ∙ set_owner-unowned idle.uuid (some volume.uuid) pool.objects k;
    others = λ k h.
        ap (λ (f : ℕ → MachineVolume). f k) objects
        ∙ ground (arith, h, any-IsIn (λ w. w.uuid == k) idle pool.volumes there);
  }
]

-- Behind the loop of the handler, the listed objects have the owners that were read, and all other
-- fields are as the placement left them.
restore_owners_lem :
    (base objects : ℕ → MachineVolume) (vs : List MachineVolume) (k : ℕ)
    → restore_owners (owners_of base vs) objects k ≡ (
        if holds k vs then record (objects k) { node_volume = (base k).node_volume } else objects k)
unfolding restore_owners owners_of any set_owner
restore_owners_lem base objects [] k = refl
restore_owners_lem base objects (v ∷ vs) k = ground (
  arith,
  restore_owners_lem base (set_owner v.uuid (base v.uuid).node_volume objects) vs k,
  ap base,
)

pub restored_objects :
    (pool pool' : PoolBundle)
    → IsTouched pool pool'
    → restore_owners (owners_of pool.objects pool.volumes) pool'.objects ≡ pool.objects
restored_objects pool pool' touched = fun_ext (λ k. elim (Bool-cases (holds k pool.volumes)) [
  | inl t ↦
      restore_owners_lem pool.objects pool'.objects pool.volumes k
      ∙ rw t (
          ap (λ (v : MachineVolume). record v { node_volume = (pool.objects k).node_volume })
            (touched.same k))
  | inr f ↦ restore_owners_lem pool.objects pool'.objects pool.volumes k ∙ rw f (touched.others k f)
])

pub reread_lem :
    (objects : ℕ → MachineVolume) (vs : List MachineVolume)
    → All (λ v. objects v.uuid ≡ v) vs
    → reread objects vs ≡ vs
unfolding reread
reread_lem objects [] h = refl
reread_lem objects (v ∷ vs) h = ap₂ ◌∷◌ h.0 (reread_lem objects vs h.1)
