-- ===== src/Scheduler/Filters/Exact.antt =====
-- Which pools the filters of exordos_core/compute/scheduler/driver/filters pass, told from the rows.
use exordos_core.Base.{
  ◌≡◌, ◌⊎◌, Bool, All, All-IsIn, refl, true, false, not, List, [], ◌∷◌, filter, is_empty, All-map,
  All-self, IsIn, IsIn-filter, filter-IsIn, arith, inl, inr, Bool-cases,
}
use exordos_core.Scheduler.Filters.Mates.{
  IsMateHost, HasRoom, has_room-HasRoom, HasRoom-has_room, hosts_mate-IsMateHost,
  own-node_allocations, IsMateHost-hosts_mate,
}
use exordos_core.Scheduler.Filters.{
  Node, Pool, Tables, has_room, available_filter, node_allocations, hosts_mate, affinity_filter,
}
use exordos_core.Scheduler.Filters.Suitable.{
  affinity_filter_lem, IsIn-affinity, suitable, IsIn-suitable,
}

-- The pool is in the list exactly if it passes.
abbrev pub IsDecided : (Pool → Type 0) → List Pool → Pool → Type 0
IsDecided Passes chosen p = (IsIn p chosen × Passes p) ⊎ ((¬ IsIn p chosen) × (¬ Passes p))

none_in : (A : Type 0) (xs : List A) → is_empty xs ≡ true → (x : A) → ¬ IsIn x xs
none_in A [] h x i = i
none_in A (y ∷ ys) h x i = absurd (ground (arith, h))

first_left :
    (test : Pool → Bool) (pools : List Pool)
    → is_empty (filter test pools) ≡ false
    → (p : Pool) × IsIn p pools × (test p ≡ true)
unfolding filter
first_left test [] h = absurd (ground (arith, h))
first_left test (p ∷ pools) h = elim (Bool-cases (test p)) [
  | inl t ↦ (p, inl refl, t)
  | inr f ↦ let (q, there, t) = first_left test pools (ground (arith, f, h)) in (q, inr there, t)
]

full_lem :
    (mate : Pool → Bool) (pools : List Pool)
    → is_empty (filter (λ q. not (mate q)) pools) ≡ true
    → (p : Pool) → IsIn p pools
    → mate p ≡ true
full_lem mate pools h p i = elim (Bool-cases (mate p)) [
  | inl t ↦ t
  | inr f ↦ absurd (
      none_in Pool (filter (λ q. not (mate q)) pools) h p
        (filter-IsIn (λ q. not (mate q)) p pools i (rw f)))
]

module _ (db : Tables) (node : Node) where
  -- A pool whose machines run no other node under the policies of this one, or any if all do.
  abbrev pub IsApart : List Pool → Pool → Type 0
  IsApart pools p = (¬ IsMateHost db node p) ⊎ All (IsMateHost db node) pools

  -- A pool with room for the node that is apart, or any with room if those that are have none.
  abbrev pub IsFit : List Pool → Pool → Type 0
  IsFit pools p =
      HasRoom node p
      × ((¬ IsMateHost db node p) ⊎ All (λ q. (¬ HasRoom node q) ⊎ IsMateHost db node q) pools)

  alone_lem : (p : Pool) → hosts_mate db node p ≡ false → ¬ IsMateHost db node p
  alone_lem p h m = absurd (ground (arith, h, IsMateHost-hosts_mate db node p m))

  no_policy-lem : (p : Pool) → is_empty (node_allocations db node) ≡ true → ¬ IsMateHost db node p
  no_policy-lem p h m =
      none_in _ (node_allocations db node) h m.own (own-node_allocations db node p m)

  -- Whether the affinity filter passes one of the pools.
  affinity-IsDecided :
      (pools : List Pool) (p : Pool)
      → IsIn p pools
      → IsDecided (IsApart pools) (affinity_filter db node pools) p
  affinity-IsDecided pools p i = elim (Bool-cases (is_empty (node_allocations db node))) [
    | inl free ↦ inl (rw (affinity_filter_lem db node pools, free) i, inl (no_policy-lem p free))
    | inr bound ↦ elim (Bool-cases (is_empty (filter (λ q. not (hosts_mate db node q)) pools))) [
      | inl full ↦ inl (
        rw (affinity_filter_lem db node pools, bound, full) i,
        inr (
            All-map
              (λ q there.
                hosts_mate-IsMateHost db node q
                  (full_lem (λ r. hosts_mate db node r) pools full q there))
              pools (All-self pools)),
      )
      | inr rest ↦ elim (Bool-cases (hosts_mate db node p)) [
        | inr alone ↦ inl (
          rw (affinity_filter_lem db node pools, bound, rest)
              (filter-IsIn (λ q. not (hosts_mate db node q)) p pools i (rw alone)),
          inl (alone_lem p alone),
        )
        | inl mate ↦
            let (q, there, apart) = first_left (λ r. not (hosts_mate db node r)) pools rest in
            inr (
              λ passed. absurd (
                  ground (
                    arith,
                    mate,
                    (IsIn-filter (λ q. not (hosts_mate db node q)) p pools
                        (rw (affinity_filter_lem db node pools, bound, rest) at passed)).1,
                  )),
              λ fit. elim fit [
                | inl apart_p ↦ apart_p (hosts_mate-IsMateHost db node p mate)
                | inr every ↦
                    alone_lem q (ground (arith, apart))
                      (All-IsIn (IsMateHost db node) q pools every there)
              ],
            )
      ]
    ]
  ]

  -- The affinity filter passes only given pools, and one of them exactly if no machine in it runs
  -- another node under a policy of this node, or if every given pool has such a machine.
  pub affinity_filter_exact :
      (pools : List Pool)
      → All (λ p. IsIn p pools) (affinity_filter db node pools)
        × All (IsDecided (IsApart pools) (affinity_filter db node pools)) pools
  affinity_filter_exact pools = (
    All-map (IsIn-affinity db node pools) (affinity_filter db node pools)
        (All-self (affinity_filter db node pools)),
    All-map (affinity-IsDecided pools) pools (All-self pools),
  )

  room_lem : (p : Pool) → has_room node p ≡ false → ¬ HasRoom node p
  room_lem p h room = absurd (ground (arith, h, HasRoom-has_room node p room))

  mates-room :
      (pools : List Pool)
      → All (IsMateHost db node) (filter (has_room node) pools)
      → All (λ q. (¬ HasRoom node q) ⊎ IsMateHost db node q) pools
  mates-room pools every =
      All-map
        (λ q there. elim (Bool-cases (has_room node q)) [
          | inl room ↦ inr (
              All-IsIn (IsMateHost db node) q (filter (has_room node) pools) every
                (filter-IsIn (has_room node) q pools there room))
          | inr full ↦ inl (room_lem q full)
        ])
        pools (All-self pools)

  room-mates :
      (pools : List Pool)
      → All (λ q. (¬ HasRoom node q) ⊎ IsMateHost db node q) pools
      → All (IsMateHost db node) (filter (has_room node) pools)
  room-mates pools every =
      All-map
        (λ q among.
          let (there, room) = IsIn-filter (has_room node) q pools among in
          elim (All-IsIn (λ r. (¬ HasRoom node r) ⊎ IsMateHost db node r) q pools every there) [
            | inl small ↦ absurd (small (has_room-HasRoom node q room))
            | inr mate ↦ mate
          ])
        (filter (has_room node) pools) (All-self (filter (has_room node) pools))

  suitable-IsDecided :
      (pools : List Pool) (p : Pool)
      → IsIn p pools
      → IsDecided (IsFit pools) (suitable db node pools) p
  unfolding available_filter
  suitable-IsDecided pools p i = elim (Bool-cases (has_room node p)) [
    | inr full ↦ inr (
      λ passed. absurd (
          ground (
            arith,
            full,
            (IsIn-filter (has_room node) p pools
                (IsIn-affinity db node (filter (has_room node) pools) p passed)).1,
          )),
      λ fit. room_lem p full fit.0,
    )
    | inl room ↦
        elim (affinity-IsDecided (filter (has_room node) pools) p
          (filter-IsIn (has_room node) p pools i room)) [
            | inl (passed, inl apart) ↦ inl (passed, (has_room-HasRoom node p room, inl apart))
            | inl (passed, inr every) ↦
                inl (passed, (has_room-HasRoom node p room, inr (mates-room pools every)))
            | inr (stopped, unfit) ↦ inr (
              stopped,
              λ fit. elim fit.1 [
                | inl apart ↦ unfit (inl apart)
                | inr every ↦ unfit (inr (room-mates pools every))
              ],
            )
          ]
  ]

  -- The two filters, one behind the other, pass only given pools, and one of them exactly if its free
  -- cores and its free memory are no less than what the node asks for, and either no machine in it runs
  -- another node under a policy of this node, or every given pool with that room has such a machine.
  pub suitable_exact :
      (pools : List Pool)
      → All (λ p. IsIn p pools) (suitable db node pools)
        × All (IsDecided (IsFit pools) (suitable db node pools)) pools
  suitable_exact pools = (
    All-map (λ p i. (IsIn-suitable db node pools p i).0) (suitable db node pools)
        (All-self (suitable db node pools)),
    All-map (suitable-IsDecided pools) pools (All-self pools),
  )
