-- ===== src/Scheduler/Filters/Suitable.antt =====
-- What the filters of exordos_core/compute/scheduler/driver/filters let through.
use exordos_core.Base.{
  ◌≡◌, ◌==◌, true, false, not, ◌||◌, List, [], ◌∷◌, filter, any, is_empty, All-map, All-self,
  filter-All, filter_ext, any-IsIn, any-none, IsIn, IsIn-filter, filter-IsIn, arith, if◌then◌else◌,
  inl, inr, Bool-cases,
}
use exordos_core.Scheduler.Filters.{
  Node, Pool, Tables, has_room, available_filter, node_allocations, hosts_mate, affinity_filter,
}

module _ (db : Tables) (node : Node) where
  -- Two pools with one uuid host the same machines.
  same_uuid : (p q : Pool) → (q.uuid == p.uuid) ≡ true → hosts_mate db node q ≡ hosts_mate db node p
  unfolding hosts_mate
  same_uuid p q h = let e : q.uuid ≡ p.uuid = ground (arith, h) in rw e

  avail-test :
      (pools : List Pool) (p : Pool)
      → IsIn p pools
      → any (λ r. r.uuid == p.uuid) (filter (λ q. not (hosts_mate db node q)) pools)
        ≡ not (hosts_mate db node p)
  avail-test pools p i = elim (Bool-cases (hosts_mate db node p)) [
    | inl mate ↦ rw mate (
        any-none (λ r. r.uuid == p.uuid) (filter (λ q. not (hosts_mate db node q)) pools)
          (All-map (λ q t. no_mate q t mate) (filter (λ q. not (hosts_mate db node q)) pools)
            (filter-All (λ q. not (hosts_mate db node q)) pools)))
    | inr alone ↦ rw alone (
        any-IsIn (λ r. r.uuid == p.uuid) p (filter (λ q. not (hosts_mate db node q)) pools)
          (filter-IsIn (λ q. not (hosts_mate db node q)) p pools i (rw alone)) (ground arith))
  ]
    where
      no_mate :
          (q : Pool)
          → not (hosts_mate db node q) ≡ true
          → hosts_mate db node p ≡ true
          → (q.uuid == p.uuid) ≡ false
      no_mate q t mate = ground (arith, t, mate, same_uuid p q)

  -- With no policy for the node, or if every pool hosts a machine of another node under one of its
  -- policies, all pools pass; else exactly those that host none.
  pub affinity_filter_lem :
      (pools : List Pool)
      → affinity_filter db node pools ≡ (
          if is_empty (node_allocations db node)
            || is_empty (filter (λ p. not (hosts_mate db node p)) pools)
          then pools
          else filter (λ p. not (hosts_mate db node p)) pools)
  unfolding affinity_filter
  affinity_filter_lem pools = ground (
    arith,
    filter_ext
        (λ (p : Pool).
          any (λ (r : Pool). r.uuid == p.uuid) (filter (λ q. not (hosts_mate db node q)) pools))
        (λ (p : Pool). not (hosts_mate db node p)) pools
        (All-map (avail-test pools) pools (All-self pools)),
  )

  -- The constraint is soft: a pool passes whenever there is one.
  pub affinity_filter_soft :
      (pools : List Pool) → is_empty (affinity_filter db node pools) ≡ is_empty pools
  unfolding filter
  affinity_filter_soft [] = ground (arith, affinity_filter_lem [])
  affinity_filter_soft (p ∷ pools) = ground (arith, affinity_filter_lem (p ∷ pools))

  -- The two pool filters of the service, one behind the other.
  abbrev pub suitable : List Pool → List Pool
  suitable pools = affinity_filter db node (available_filter node pools)

  pub IsIn-affinity :
      (pools : List Pool) (p : Pool) → IsIn p (affinity_filter db node pools) → IsIn p pools
  IsIn-affinity pools p i =
      elim (Bool-cases (
        is_empty (node_allocations db node)
        || is_empty (filter (λ q. not (hosts_mate db node q)) pools))) [
          | inl all ↦ rw (affinity_filter_lem pools, all) at i
          | inr some_pass ↦
              (IsIn-filter (λ q. not (hosts_mate db node q)) p pools
                (rw (affinity_filter_lem pools, some_pass) at i)).0
        ]

  -- A suitable pool is one of the given ones and has room for the node.
  pub IsIn-suitable :
      (pools : List Pool) (p : Pool)
      → IsIn p (suitable pools)
      → IsIn p pools × (has_room node p ≡ true)
  unfolding available_filter
  IsIn-suitable pools p i =
      IsIn-filter (has_room node) p pools (IsIn-affinity (available_filter node pools) p i)
