-- ===== src/Scheduler/Nodes/Room.antt =====
-- The cores and the memory of the pools, in exordos_core/compute/scheduler/service.py.
use exordos_core.Base.{
  ℕ, ◌+◌, ◌≡◌, ◌==◌, Bool, true, false, ◌||◌, List, [], ◌∷◌, ◌++◌, is_empty, All, All-map, All-self,
  All-IsIn, arith, if◌then◌else◌, inl, inr, Bool-cases,
}
use exordos_core.Base.Int.{ℤ, pos, pos_part, ◌-ℤ◌, ◌≤ℤ◌, lebℤ, sub-nonneg, sub-part}
use exordos_core.Base.Result.{ok, err, Result-cases}
use exordos_core.Scheduler.Volumes.{StorageLib}
use exordos_core.Scheduler.Filters.{Node, Pool, Tables, has_room}
use exordos_core.Scheduler.Filters.Suitable.{suitable, IsIn-suitable}
use exordos_core.Scheduler.Nodes.Ranked.{All-ranked}
use exordos_core.Scheduler.Nodes.{
  Weights, NodeError, Scheduled, State, current, write_pool, place_node_into_pool, try_pools,
  schedule_node, schedule_nodes, schedule_on_pools,
}

-- What the stored machines use of the pool with this uuid.
unfoldable pub used : (Scheduled → ℕ) → ℕ → List Scheduled → ℕ
used f u [] = 0
used f u (m ∷ machines) = (if m.pool == u then f m else 0) + used f u machines

used-append :
    (f : Scheduled → ℕ) (u : ℕ) (machines : List Scheduled) (m : Scheduled)
    → used f u (machines ++ m ∷ []) ≡ used f u machines + (if m.pool == u then f m else 0)
unfolding used
used-append f u [] m = ground arith
used-append f u (n ∷ machines) m = ground (arith, used-append f u machines m)

-- How many cores and how much memory each pool has for the machines of the scheduler.
pub record Capacity : Type 0 where
  pub cores : ℕ → ℕ
  pub ram : ℕ → ℕ

-- The cores and the memory of a pool are not overdrawn, and what is left and what the stored
-- machines use make up its capacity.
pub record IsWithin (cap : Capacity) (machines : List Scheduled) (p : Pool) : Type 0 where
  pub cores : pos 0 ≤ℤ p.avail_cores
  pub ram : pos 0 ≤ℤ p.avail_ram
  pub all_cores : pos_part p.avail_cores + used (λ m. m.cores) p.uuid machines ≡ cap.cores p.uuid
  pub all_ram : pos_part p.avail_ram + used (λ m. m.ram) p.uuid machines ≡ cap.ram p.uuid

-- All pools of a state are within their capacity.
unfoldable pub AllWithin : Capacity → State → Type 0
AllWithin cap s = All (IsWithin cap s.machines) s.pools

used-other :
    (f : Scheduled → ℕ) (u : ℕ) (machines : List Scheduled) (m : Scheduled)
    → (u == m.pool) ≡ false
    → used f u (machines ++ m ∷ []) ≡ used f u machines
used-other f u machines m h = ground (arith, h, used-append f u machines m)

-- What a machine takes of its pool is what the pool has less.
balance :
    (f : Scheduled → ℕ) (avail : ℤ) (n total u : ℕ) (machines : List Scheduled) (m : Scheduled)
    → lebℤ (pos n) avail ≡ true
    → m.pool ≡ u
    → f m ≡ n
    → pos_part avail + used f u machines ≡ total
    → pos_part (avail -ℤ pos n) + used f u (machines ++ m ∷ []) ≡ total
balance f avail n total u machines m room at takes h =
    ground (arith, at, takes, h, sub-part avail n room, used-append f u machines m)

-- The pool that is written stands for all of its uuid; the others keep what they have.
All-write_pool :
    (P Q : Pool → Type 0) (p : Pool) (pools : List Pool)
    → Q p
    → ((q : Pool) → (q.uuid == p.uuid) ≡ false → P q → Q q)
    → All P pools
    → All Q (write_pool p pools)
unfolding write_pool
All-write_pool P Q p [] h keep k = tt
All-write_pool P Q p (q ∷ pools) h keep k = elim (Bool-cases (q.uuid == p.uuid)) [
  | inl t ↦ (rw t h, All-write_pool P Q p pools h keep k.1)
  | inr f ↦ (rw f (keep q f k.0), All-write_pool P Q p pools h keep k.1)
]

module _ (lib : StorageLib) (saves : ℕ → ℕ → Bool) (cap : Capacity) (node : Node) where
  -- What a placement stores, and what it leaves of the pool.
  place-ok :
      (p : Pool) (m : Scheduled)
      → (place_node_into_pool lib saves node p).0 ≡ ok m
      → (m.pool ≡ p.uuid)
        × (m.cores ≡ node.cores)
        × (m.ram ≡ node.ram)
        × ((place_node_into_pool lib saves node p).1.uuid ≡ p.uuid)
        × ((place_node_into_pool lib saves node p).1.avail_cores ≡ p.avail_cores -ℤ pos node.cores)
        × ((place_node_into_pool lib saves node p).1.avail_ram ≡ p.avail_ram -ℤ pos node.ram)
  unfolding place_node_into_pool
  place-ok p m h = (
    ground (arith, h),
    ground (arith, h),
    ground (arith, h),
    ground (arith, h),
    ground (arith, h),
    ground (arith, h),
  )

  place-err :
      (p : Pool) (e : NodeError)
      → (place_node_into_pool lib saves node p).0 ≡ err e
      → ((place_node_into_pool lib saves node p).1.uuid ≡ p.uuid)
        × ((place_node_into_pool lib saves node p).1.avail_cores ≡ p.avail_cores)
        × ((place_node_into_pool lib saves node p).1.avail_ram ≡ p.avail_ram)
  unfolding place_node_into_pool
  place-err p e h = (ground (arith, h), ground (arith, h), ground (arith, h))

  failed-IsWithin :
      (machines : List Scheduled) (p : Pool) (e : NodeError)
      → (place_node_into_pool lib saves node p).0 ≡ err e
      → IsWithin cap machines p
      → IsWithin cap machines (place_node_into_pool lib saves node p).1
  failed-IsWithin machines p e h w =
      let (same, cores, ram) = place-err p e h in
      record {
        cores = rw cores w.cores;
        ram = rw ram w.ram;
        all_cores = rw (cores, same) w.all_cores;
        all_ram = rw (ram, same) w.all_ram;
      }

  placed-IsWithin :
      (machines : List Scheduled) (p : Pool) (m : Scheduled)
      → (place_node_into_pool lib saves node p).0 ≡ ok m
      → has_room node p ≡ true
      → IsWithin cap machines p
      → IsWithin cap (machines ++ m ∷ []) (place_node_into_pool lib saves node p).1
  unfolding has_room
  placed-IsWithin machines p m h room w =
      let (at, cores, ram, same, left_cores, left_ram) = place-ok p m h in
      record {
        cores = rw left_cores (sub-nonneg p.avail_cores node.cores (ground (arith, room)));
        ram = rw left_ram (sub-nonneg p.avail_ram node.ram (ground (arith, room)));
        all_cores =
            rw (left_cores, same)
              (balance (λ m. m.cores) p.avail_cores node.cores _ p.uuid machines m
                (ground (arith, room)) at cores w.all_cores);
        all_ram =
            rw (left_ram, same)
              (balance (λ m. m.ram) p.avail_ram node.ram _ p.uuid machines m (ground (arith, room))
                at ram w.all_ram);
      }

  other-IsWithin :
      (machines : List Scheduled) (m : Scheduled) (q : Pool)
      → (q.uuid == m.pool) ≡ false
      → IsWithin cap machines q
      → IsWithin cap (machines ++ m ∷ []) q
  other-IsWithin machines m q other w = record {
    cores = w.cores;
    ram = w.ram;
    all_cores = rw (used-other (λ m. m.cores) q.uuid machines m other) w.all_cores;
    all_ram = rw (used-other (λ m. m.ram) q.uuid machines m other) w.all_ram;
  }

  abbrev Fits : List Scheduled → Pool → Type 0
  Fits machines p = IsWithin cap machines p × (has_room node p ≡ true)

  placed-AllWithin :
      (p : Pool) (s : State) (m : Scheduled)
      → (place_node_into_pool lib saves node p).0 ≡ ok m
      → Fits s.machines p
      → AllWithin cap s
      → AllWithin cap (record {
        pools = write_pool (place_node_into_pool lib saves node p).1 s.pools;
        machines = s.machines ++ m ∷ [];
      })
  unfolding AllWithin
  placed-AllWithin p s m done fits w =
      All-write_pool (IsWithin cap s.machines) (IsWithin cap (s.machines ++ m ∷ []))
        (place_node_into_pool lib saves node p).1 s.pools
        (placed-IsWithin s.machines p m done fits.1 fits.0)
        (λ q other. other-IsWithin s.machines m q (elsewhere q other)) w
    where
      elsewhere :
          (q : Pool)
          → (q.uuid == (place_node_into_pool lib saves node p).1.uuid) ≡ false
          → (q.uuid == m.pool) ≡ false
      elsewhere q other =
          let (at, cores, ram, same, left_cores, left_ram) = place-ok p m done in
          ground (arith, other, at, same)

  failed-AllWithin :
      (p : Pool) (s : State) (e : NodeError)
      → (place_node_into_pool lib saves node p).0 ≡ err e
      → Fits s.machines p
      → AllWithin cap s
      → AllWithin cap
          (record s { pools = write_pool (place_node_into_pool lib saves node p).1 s.pools })
  unfolding AllWithin
  failed-AllWithin p s e failed fits w =
      All-write_pool (IsWithin cap s.machines) (IsWithin cap s.machines)
        (place_node_into_pool lib saves node p).1 s.pools
        (failed-IsWithin s.machines p e failed fits.0) (λ q other x. x) w

  try_pools-AllWithin :
      (ps : List Pool) (s : State)
      → All (Fits s.machines) ps
      → AllWithin cap s
      → AllWithin cap (try_pools lib saves node ps s)
  unfolding try_pools
  try_pools-AllWithin [] s fits w = w
  try_pools-AllWithin (p ∷ ps) s fits w =
      elim (Result-cases (place_node_into_pool lib saves node p).0) [
        | inl (m, done) ↦ rw (done, try_pools) (placed-AllWithin p s m done fits.0 w)
        | inr (e, failed) ↦
            rw (failed, try_pools)
              (try_pools-AllWithin ps
                (record s { pools = write_pool (place_node_into_pool lib saves node p).1 s.pools })
                fits.1 (failed-AllWithin p s e failed fits.0 w))
      ]

module _ (F : Weights) (weighters : List (List Pool → List F.W)) (lib : StorageLib)
    (saves : ℕ → ℕ → Bool) (db : Tables) (cap : Capacity) where
  suitable-Fits :
      (node : Node) (s : State)
      → AllWithin cap s
      → All (Fits lib saves cap node s.machines) (suitable (current db s.machines) node s.pools)
  unfolding AllWithin
  suitable-Fits node s w =
      All-map
        (λ p i.
          let (there, room) = IsIn-suitable (current db s.machines) node s.pools p i in
          (All-IsIn (IsWithin cap s.machines) p s.pools w there, room))
        (suitable (current db s.machines) node s.pools)
        (All-self (suitable (current db s.machines) node s.pools))

  schedule_node-AllWithin :
      (node : Node) (s : State)
      → AllWithin cap s
      → AllWithin cap (schedule_node F weighters lib saves db node s)
  unfolding schedule_node
  schedule_node-AllWithin node s w =
      elim (Bool-cases (is_empty (suitable (current db s.machines) node s.pools))) [
        | inl t ↦ rw t w
        | inr f ↦ rw f (
            try_pools-AllWithin lib saves cap node _ s
              (All-ranked F (Fits lib saves cap node s.machines) weighters _
                (suitable-Fits node s w))
              w)
      ]

  schedule_nodes-AllWithin :
      (nodes : List Node) (s : State)
      → AllWithin cap s
      → AllWithin cap (schedule_nodes F weighters lib saves db nodes s)
  unfolding schedule_nodes
  schedule_nodes-AllWithin [] s w = w
  schedule_nodes-AllWithin (node ∷ nodes) s w =
      schedule_nodes-AllWithin nodes (schedule_node F weighters lib saves db node s)
        (schedule_node-AllWithin node s w)

  -- If no pool is overdrawn and what is left and what the stored machines use make up the capacity
  -- of every pool, then this holds after any round of the scheduler too.
  pub schedule_on_pools-AllWithin :
      (nodes : List Node) (s : State)
      → AllWithin cap s
      → AllWithin cap (schedule_on_pools F weighters lib saves db nodes s)
  unfolding schedule_on_pools
  schedule_on_pools-AllWithin nodes s w = elim (Bool-cases (is_empty nodes || is_empty s.pools)) [
    | inl t ↦ rw t w
    | inr f ↦ rw f (schedule_nodes-AllWithin nodes s w)
  ]
