-- ===== src/Scheduler/Nodes.antt =====
-- exordos_core/compute/scheduler/service.py: `_schedule_on_pools` and `_place_node_into_pool`, with the
-- pool filters that exordos_core/gservice/service.py configures.
pub mod Ranked
pub mod Room
mod Tests
use exordos_core.Base.{
  ℕ, ◌==◌, Bool, true, false, Option, none, some, List, [], ◌∷◌, ◌++◌, map, is_empty, ◌||◌,
  if◌then◌else◌,
}
use exordos_core.Base.Int.{ℤ, pos, ◌-ℤ◌}
use exordos_core.Base.Result.{Result, ok, err}
use exordos_core.Scheduler.Volumes.{
  MachineVolume, PoolBundle, PlaceError, StorageLib, allocate_node_volumes,
}
use exordos_core.Scheduler.Filters.{Node, Pool, Tables, available_filter, affinity_filter}

-- Floating-point weights, by the operations that the scheduler uses.
pub record Weights : Type 1 where
  pub W : Type 0
  pub zero : W
  pub add : W → W → W
  pub le : W → W → Bool

-- A machine that was scheduled, with its volumes.
pub record Scheduled : Type 0 where
  pub node : ℕ
  pub pool : ℕ
  pub cores : ℕ
  pub ram : ℕ
  pub volumes : List MachineVolume

-- The pools of the iteration, which placements change, and the machines that were placed. What a
-- placement that fails half-way leaves in the tables is not kept.
pub record State : Type 0 where
  pub pools : List Pool
  pub machines : List Scheduled

-- The rows that the affinity filter reads: those of the start and the machines stored since then.
unfoldable pub current : Tables → List Scheduled → Tables
current db machines = record db {
  machines =
      db.machines
      ++ map (λ (m : Scheduled). record { node = some m.node; pool = some m.pool }) machines;
}

-- The object of a pool is changed in place: the pools are told apart by their uuid.
unfoldable pub write_pool : Pool → List Pool → List Pool
write_pool p [] = []
write_pool p (q ∷ pools) = (if q.uuid == p.uuid then p else q) ∷ write_pool p pools

module _ (F : Weights) where
  -- `[w0 + w1 for w0, w1 in zip(accumulated_weights, weights)]`
  unfoldable pub add_weights : List F.W → List F.W → List F.W
  add_weights (v ∷ vs) (w ∷ ws) = F.add v w ∷ add_weights vs ws
  add_weights [] ws = []
  add_weights (v ∷ vs) [] = []

  unfoldable pub zeros : List Pool → List F.W
  zeros [] = []
  zeros (p ∷ pools) = F.zero ∷ zeros pools

  unfoldable pub accumulate : List (List Pool → List F.W) → List Pool → List F.W → List F.W
  accumulate [] pools acc = acc
  accumulate (weighter ∷ rest) pools acc = accumulate rest pools (add_weights acc (weighter pools))

  unfoldable pub zip_weights : List F.W → List Pool → List (F.W × Pool)
  zip_weights (w ∷ ws) (p ∷ pools) = (w, p) ∷ zip_weights ws pools
  zip_weights [] pools = []
  zip_weights (w ∷ ws) [] = []

  -- `sorted(..., reverse=True)`: in descending order of the weights, equal ones in their old order.
  unfoldable pub insert_ranked : F.W × Pool → List (F.W × Pool) → List (F.W × Pool)
  insert_ranked x [] = x ∷ []
  insert_ranked x (y ∷ rest) =
      let later = y ∷ insert_ranked x rest in if F.le y.0 x.0 then x ∷ y ∷ rest else later

  unfoldable pub sort_ranked : List (F.W × Pool) → List (F.W × Pool)
  sort_ranked [] = []
  sort_ranked (x ∷ rest) = insert_ranked x (sort_ranked rest)

  unfoldable pub drop_weights : List (F.W × Pool) → List Pool
  drop_weights [] = []
  drop_weights (x ∷ rest) = x.1 ∷ drop_weights rest

  unfoldable pub ranked : List (List Pool → List F.W) → List Pool → List Pool
  ranked weighters pools =
      drop_weights (sort_ranked (zip_weights (accumulate weighters pools (zeros pools)) pools))

-- What placing a node into a pool raises: an error of its volumes, or a failing `save()`.
pub data NodeError : Type 0 where
  volume_error : PlaceError → NodeError
  save_error : NodeError

-- `saves node pool`: whether the calls of `save()` for the node, its machine and its volumes succeed.
module _ (lib : StorageLib) (saves : ℕ → ℕ → Bool) where
  -- `_place_node_into_pool`, with the pool as it is after the call, also when it raises.
  unfoldable pub place_node_into_pool : Node → Pool → Result NodeError Scheduled × Pool
  place_node_into_pool node pool =
      let (r, bundle) = allocate_node_volumes lib pool.bundle node.volumes in
      elim r [
        | err e ↦ (err (volume_error e), record pool { bundle = bundle })
        | ok volumes ↦
            if saves node.uuid pool.uuid
            then (
              ok (record {
                node = node.uuid;
                pool = pool.uuid;
                cores = node.cores;
                ram = node.ram;
                volumes = volumes;
              }),
              record pool {
                bundle = bundle;
                avail_cores = pool.avail_cores -ℤ pos node.cores;
                avail_ram = pool.avail_ram -ℤ pos node.ram;
              },
            )
            else (err save_error, record pool { bundle = bundle })
      ]

  -- The loop over the ranked pools, which ends at the first success.
  unfoldable pub try_pools : Node → List Pool → State → State
  try_pools node [] s = s
  try_pools node (p ∷ rest) s =
      let (r, p') = place_node_into_pool node p in
      elim r [
        | err e ↦ try_pools node rest (record s { pools = write_pool p' s.pools })
        | ok m ↦ record { pools = write_pool p' s.pools; machines = s.machines ++ m ∷ [] }
      ]

module _ (F : Weights) (weighters : List (List Pool → List F.W)) (lib : StorageLib)
    (saves : ℕ → ℕ → Bool) (db : Tables) where
  -- The body of the loop over the nodes.
  unfoldable pub schedule_node : Node → State → State
  schedule_node node s =
      let pools = affinity_filter (current db s.machines) node (available_filter node s.pools) in
      if is_empty pools then s else try_pools lib saves node (ranked F weighters pools) s

  unfoldable pub schedule_nodes : List Node → State → State
  schedule_nodes [] s = s
  schedule_nodes (node ∷ nodes) s = schedule_nodes nodes (schedule_node node s)

  -- `_schedule_on_pools`
  unfoldable pub schedule_on_pools : List Node → State → State
  schedule_on_pools nodes s =
      if is_empty nodes || is_empty s.pools then s else schedule_nodes nodes s
