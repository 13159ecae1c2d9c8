-- ===== src/Scheduler/Filters/Mates.antt =====
-- exordos_core/compute/scheduler/driver/filters: the pools that host a machine of another node under
-- one of the policies of a node, told from the rows alone.
use exordos_core.Base.{
  ℕ, ◌≤◌, ◌≡◌, refl, ◌==◌, true, false, not, ◌&&◌, Option, none, some, any, filter, IsIn,
  any-witness, any-IsIn, IsIn-filter, filter-IsIn, arith,
}
use exordos_core.Base.Int.{ℤ, pos, negsuc, lebℤ}
use exordos_core.Scheduler.Filters.{
  Node, Pool, Allocation, Placement, Tables, has_room, is_some_of, node_allocations,
  policy_allocations, is_mate, hosts_mate,
}

-- A machine in the pool runs another node, which is allocated under a policy of this node.
pub record IsMateHost (db : Tables) (node : Node) (p : Pool) : Type 0 where
  pub own : Allocation
  pub peer : Allocation
  pub machine : Placement
  pub own_there : IsIn own db.allocations
  pub peer_there : IsIn peer db.allocations
  pub machine_there : IsIn machine db.machines
  pub own_node : own.node ≡ node.uuid
  pub same_policy : own.policy ≡ peer.policy
  pub other : (peer.node == node.uuid) ≡ false
  pub runs : machine.node ≡ some peer.node
  pub hosted : machine.pool ≡ some p.uuid

-- The free cores and the free memory of the pool are no less than what the node asks for.
abbrev pub HasRoom : Node → Pool → Type 0
HasRoom node p =
    ((c : ℕ) × (p.avail_cores ≡ pos c) × (node.cores ≤ c))
    × ((r : ℕ) × (p.avail_ram ≡ pos r) × (node.ram ≤ r))

fits_lem : (n : ℕ) (a : ℤ) → lebℤ (pos n) a ≡ true → (c : ℕ) × (a ≡ pos c) × (n ≤ c)
fits_lem n (pos c) h = (c, refl, ground (arith, h))
fits_lem n (negsuc k) h = absurd (ground (arith, h))

pub has_room-HasRoom : (node : Node) (p : Pool) → has_room node p ≡ true → HasRoom node p
unfolding has_room
has_room-HasRoom node p h = (
  fits_lem node.cores p.avail_cores (ground (arith, h)),
  fits_lem node.ram p.avail_ram (ground (arith, h)),
)

pub HasRoom-has_room : (node : Node) (p : Pool) → HasRoom node p → has_room node p ≡ true
unfolding has_room
HasRoom-has_room node p ((c, cores, enough), (r, ram, free)) =
    ground (arith, cores, enough, ram, free)

some_of_lem : (k : ℕ) (o : Option ℕ) → is_some_of k o ≡ true → o ≡ some k
some_of_lem k none h = absurd (ground (arith, h))
some_of_lem k (some j) h = ground (arith, h)

module _ (db : Tables) (node : Node) (p : Pool) where
  pub hosts_mate-IsMateHost : hosts_mate db node p ≡ true → IsMateHost db node p
  unfolding hosts_mate is_mate policy_allocations node_allocations
  hosts_mate-IsMateHost h =
      let (machine, among, hosted) = any-witness _ (filter (is_mate db node) db.machines) h in
      let (there, mate) = IsIn-filter (is_mate db node) machine db.machines among in
      let (peer, allocated, runs) = any-witness _ (policy_allocations db node) mate in
      let (row, under) = IsIn-filter _ peer db.allocations allocated in
      let (own, chosen, policy) = any-witness _ (node_allocations db node) under in
      let (own_row, owned) = IsIn-filter _ own db.allocations chosen in
      record {
        own = own;
        peer = peer;
        machine = machine;
        own_there = own_row;
        peer_there = row;
        machine_there = there;
        own_node = ground (arith, owned);
        same_policy = ground (arith, policy);
        other = ground (arith, runs);
        runs = some_of_lem peer.node machine.node (ground (arith, runs));
        hosted = some_of_lem p.uuid machine.pool hosted;
      }

  pub own-node_allocations : (m : IsMateHost db node p) → IsIn m.own (node_allocations db node)
  unfolding node_allocations
  own-node_allocations m =
      filter-IsIn (λ a. a.node == node.uuid) m.own db.allocations m.own_there
        (ground (arith, m.own_node))

  peer-policy_allocations : (m : IsMateHost db node p) → IsIn m.peer (policy_allocations db node)
  unfolding policy_allocations
  peer-policy_allocations m =
      filter-IsIn (λ b. any (λ a. a.policy == b.policy) (node_allocations db node)) m.peer
        db.allocations m.peer_there
        (any-IsIn (λ a. a.policy == m.peer.policy) m.own (node_allocations db node)
          (own-node_allocations m) (ground (arith, m.same_policy)))

  machine-mate : (m : IsMateHost db node p) → is_mate db node m.machine ≡ true
  unfolding is_mate
  machine-mate m =
      any-IsIn (λ a. not (a.node == node.uuid) && is_some_of a.node m.machine.node) m.peer
        (policy_allocations db node) (peer-policy_allocations m)
        (rw m.runs (ground (arith, m.other)))

  pub IsMateHost-hosts_mate : IsMateHost db node p → hosts_mate db node p ≡ true
  unfolding hosts_mate
  IsMateHost-hosts_mate m =
      any-IsIn (λ q. is_some_of p.uuid q.pool) m.machine (filter (is_mate db node) db.machines)
        (filter-IsIn (is_mate db node) m.machine db.machines m.machine_there (machine-mate m))
        (rw m.hosted (ground arith))
