-- ===== src/Scheduler/Nodes/Tests.antt =====
-- A round of the scheduler, and the theorem on it.
use exordos_core.Base.{
  true, ℕ, ◌+◌, ◌≡◌, refl, ◌==◌, leb, Bool, none, List, [], ◌∷◌, filter, any, arith, if◌then◌else◌,
}
use exordos_core.Base.Int.{pos, pos_part, ◌-ℤ◌}
use exordos_core.Base.Result.{ok}
use exordos_core.Scheduler.Volumes.{MachineVolume, StorageLib, place_all, allocate_node_volumes}
use exordos_core.Scheduler.Filters.{
  Node, Pool, Tables, has_room, available_filter, node_allocations, policy_allocations, is_mate,
  hosts_mate, affinity_filter,
}
use exordos_core.Scheduler.Nodes.{
  Weights, Scheduled, State, current, write_pool, add_weights, zeros, accumulate, zip_weights,
  insert_ranked, sort_ranked, drop_weights, ranked, place_node_into_pool, try_pools, schedule_node,
  schedule_nodes, schedule_on_pools,
}
use exordos_core.Scheduler.Nodes.Room.{
  used, Capacity, IsWithin, AllWithin, schedule_on_pools-AllWithin,
}

program : Unit {0}
unfolding filter any has_room available_filter node_allocations policy_allocations is_mate
    hosts_mate affinity_filter place_all allocate_node_volumes ◌-ℤ◌ current write_pool add_weights
    zeros accumulate zip_weights insert_ranked sort_ranked drop_weights ranked place_node_into_pool
    try_pools schedule_node schedule_nodes schedule_on_pools used
program = tt

abbrev numbers : Weights
numbers = record { W = ℕ; zero = 0; add = λ a b. a + b; le = leb }

abbrev storage : StorageLib
storage = record {
  select_storage_pool = λ pools tier ephemeral size. none;
  available = λ sp. 0;
  allocate_capacity = λ size sp. ok sp;
}

-- The pool with more free cores has the greater weight.
abbrev free_cores : List Pool → List ℕ
free_cores [] = []
free_cores (p ∷ pools) = pos_part p.avail_cores ∷ free_cores pools

-- The pools have no idle volumes.
abbrev unplaced : ℕ → MachineVolume
unplaced k = record {
  uuid = k;
  size = 0;
  image = none;
  tier = 0;
  ephemeral = true;
  storage_pool = none;
  node_volume = none;
}

abbrev pool : (u cores ram : ℕ) → Pool
pool u cores ram = record {
  uuid = u;
  avail_cores = pos cores;
  avail_ram = pos ram;
  bundle = record { storage_pools = []; volumes = []; objects = unplaced };
}

abbrev node : (u cores : ℕ) → Node
node u cores = record { uuid = u; cores = cores; ram = 4; volumes = [] }

abbrev no_rows : Tables
no_rows = record { allocations = []; machines = [] }

-- Storing into pool 9 fails.
abbrev saves : ℕ → ℕ → Bool
saves node pool = leb pool 8

abbrev start : State
start = record { pools = pool 7 4 16 ∷ pool 8 3 16 ∷ pool 9 20 64 ∷ []; machines = [] }

abbrev nodes : List Node
nodes = node 1 3 ∷ node 2 2 ∷ node 3 9 ∷ node 4 2 ∷ []

abbrev machine : (u p cores : ℕ) → Scheduled
machine u p cores = record { node = u; pool = p; cores = cores; ram = 4; volumes = [] }

round : schedule_on_pools numbers (free_cores ∷ []) storage saves no_rows nodes start ≡ record {
  pools = pool 7 1 12 ∷ pool 8 1 12 ∷ pool 9 20 64 ∷ [];
  machines = machine 1 7 3 ∷ machine 2 8 2 ∷ [];
}
unfolding program
round = refl

abbrev cap : Capacity
cap = record {
  cores = λ u. if u == 7 then 4 else if u == 8 then 3 else 20;
  ram = λ u. if u == 9 then 64 else 16;
}

within : (u c r : ℕ) → c ≡ cap.cores u → r ≡ cap.ram u → IsWithin cap [] (pool u c r)
unfolding used
within u c r h k = record {
  cores = omega arith;
  ram = omega arith;
  all_cores = omega (arith, h);
  all_ram = omega (arith, k);
}

start_within : AllWithin cap start
unfolding AllWithin
start_within = (within 7 4 16 refl refl, (within 8 3 16 refl refl, (within 9 20 64 refl refl, tt)))

schedule_on_pools-AllWithin_example :
    AllWithin cap (schedule_on_pools numbers (free_cores ∷ []) storage saves no_rows nodes start)
schedule_on_pools-AllWithin_example =
    schedule_on_pools-AllWithin numbers (free_cores ∷ []) storage saves no_rows cap nodes start
      start_within
