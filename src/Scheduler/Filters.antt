-- ===== src/Scheduler/Filters.antt =====
-- exordos_core/compute/scheduler/driver/filters: which pools and machines are suitable for a node.
pub mod Mates
pub mod Suitable
pub mod Exact
mod Tests
use exordos_core.Base.{
  ℕ, ◌==◌, leb, Bool, true, false, not, ◌&&◌, Option, none, some, List, [], ◌∷◌, filter, any,
  is_empty, if◌then◌else◌,
}
use exordos_core.Base.Int.{ℤ, pos, lebℤ}
use exordos_core.Scheduler.Volumes.{Volume, PoolBundle}

-- `NodeBundle`, by the fields that the scheduler reads of a node.
pub record Node : Type 0 where
  pub uuid : ℕ
  pub cores : ℕ
  pub ram : ℕ
  pub volumes : List Volume

-- `MachinePoolBundle`, with the fields of its pool.
pub record Pool : Type 0 where
  pub uuid : ℕ
  pub avail_cores : ℤ
  pub avail_ram : ℤ
  pub bundle : PoolBundle

-- A machine, by the fields that the filter reads.
pub record Machine : Type 0 where
  pub uuid : ℕ
  pub cores : ℕ
  pub ram : ℕ

-- A row of `PlacementPolicyAllocation`, and the machines' columns `node` and `pool`.
pub record Allocation : Type 0 where
  pub node : ℕ
  pub policy : ℕ

pub record Placement : Type 0 where
  pub node : Option ℕ
  pub pool : Option ℕ

pub record Tables : Type 0 where
  pub allocations : List Allocation
  pub machines : List Placement

-- `CoresRamAvailableFilter.filter`
unfoldable pub has_room : Node → Pool → Bool
has_room node p = lebℤ (pos node.cores) p.avail_cores && lebℤ (pos node.ram) p.avail_ram

unfoldable pub available_filter : Node → List Pool → List Pool
available_filter node pools = filter (has_room node) pools

-- `HWCoresRamAvailableFilter.filter`
unfoldable pub hw_available_filter : Node → List Machine → List Machine
hw_available_filter node machines =
    filter (λ m. leb node.cores m.cores && leb node.ram m.ram) machines

abbrev pub is_some_of : ℕ → Option ℕ → Bool
is_some_of k none = false
is_some_of k (some j) = j == k

-- The queries of `DummySoftAntiAffinityFilter.filter`: the allocations of the node, those of the same
-- policies, and the machines of the other nodes among them.
unfoldable pub node_allocations : Tables → Node → List Allocation
node_allocations db node = filter (λ a. a.node == node.uuid) db.allocations

unfoldable pub policy_allocations : Tables → Node → List Allocation
policy_allocations db node =
    filter (λ b. any (λ a. a.policy == b.policy) (node_allocations db node)) db.allocations

unfoldable pub is_mate : Tables → Node → Placement → Bool
is_mate db node m =
    any (λ a. not (a.node == node.uuid) && is_some_of a.node m.node) (policy_allocations db node)

-- Whether a machine of another node under one of the policies is in the pool.
unfoldable pub hosts_mate : Tables → Node → Pool → Bool
hosts_mate db node p = any (λ m. is_some_of p.uuid m.pool) (filter (is_mate db node) db.machines)

-- `DummySoftAntiAffinityFilter.filter`, with `avail_pools` as the list of its pools.
unfoldable pub affinity_filter : Tables → Node → List Pool → List Pool
affinity_filter db node pools =
    let avail = filter (λ p. not (hosts_mate db node p)) pools in
    if is_empty (node_allocations db node)
    then pools
    else if is_empty avail
    then pools
    else filter (λ p. any (λ r. r.uuid == p.uuid) avail) pools
