-- ===== src/Scheduler/Filters/Tests.antt =====
-- The filters on concrete rows.
use exordos_core.Base.{
  All, none, ℕ, ◌≡◌, refl, true, some, List, [], ◌∷◌, filter, any, is_empty, IsIn,
}
use exordos_core.Base.Int.{pos}
use exordos_core.Scheduler.Volumes.{MachineVolume}
use exordos_core.Scheduler.Filters.{
  Node, Pool, Tables, has_room, available_filter, hw_available_filter, node_allocations,
  policy_allocations, is_mate, hosts_mate, affinity_filter,
}
use exordos_core.Scheduler.Filters.Suitable.{suitable, affinity_filter_soft}
use exordos_core.Scheduler.Filters.Exact.{
  IsDecided, IsApart, IsFit, affinity_filter_exact, suitable_exact,
}

program : Unit {0}
unfolding filter any has_room available_filter hw_available_filter node_allocations
    policy_allocations is_mate hosts_mate affinity_filter
program = tt

abbrev node : Node
node = record { uuid = 1; cores = 2; ram = 4; volumes = [] }

-- The pools have no idle volumes.
abbrev unplaced : ℕ → MachineVolume
unplaced k = record {
  uuid = k;
  size = 0;
  image = none;
  tier = 0;
  ephemeral = true;
  storage_pool = none;
  node_volume = none;
}

abbrev pool : ℕ → Pool
pool u = record {
  uuid = u;
  avail_cores = pos u;
  avail_ram = pos 8;
  bundle = record { storage_pools = []; volumes = []; objects = unplaced };
}

-- Nodes 1 and 2 are under policy 5, node 3 is not; node 2 has its machine in pool 7.
abbrev db : Tables
db = record {
  allocations =
      record { node = 1; policy = 5 }
      ∷ record { node = 2; policy = 5 }
      ∷ record { node = 3; policy = 6 }
      ∷ [];
  machines = record { node = some 2; pool = some 7 } ∷ record { node = some 3; pool = some 8 } ∷ [];
}

abbrev pools : List Pool
pools = pool 7 ∷ pool 8 ∷ pool 1 ∷ []

mate_avoided : suitable db node pools ≡ pool 8 ∷ []
unfolding program
mate_avoided = refl

all_host : affinity_filter db node (pool 7 ∷ []) ≡ pool 7 ∷ []
unfolding program
all_host = refl

affinity_filter_exact_example :
    All (λ p. IsIn p pools) (affinity_filter db node pools)
    × All (IsDecided (IsApart db node pools) (affinity_filter db node pools)) pools
affinity_filter_exact_example = affinity_filter_exact db node pools

affinity_filter_soft_example : is_empty (affinity_filter db node pools) ≡ is_empty pools
affinity_filter_soft_example = affinity_filter_soft db node pools

-- Pool 7 hosts node 2, pool 8 has room and no mate, and pool 1 is too small.
suitable_exact_example :
    All (λ p. IsIn p pools) (suitable db node pools)
    × All (IsDecided (IsFit db node pools) (suitable db node pools)) pools
suitable_exact_example = suitable_exact db node pools
