-- ===== src/Ipam/State.antt =====
-- The methods of `Ipam` on its whole state: the pools of all subnets.
use exordos_core.Base.{
  ℕ, ◌≤◌, ◌≡◌, subst, Option, none, some, List, [], ◌∷◌, arith, inl, inr, Option-cases, All,
}
use exordos_core.Base.Dict.{lookup, insert, lookup-insert, lookup-insert_self}
use exordos_core.Base.Result.{ok, err, Result-cases}
use exordos_core.Ipam.{
  Ipam, IpamError, Subnet, Port, Library, take_ip, allocate_ip, deallocate_ip, add_subnet,
  calculate_pool, bounds, add_subnets, init, empty,
}
use exordos_core.Ipam.Pool
use exordos_core.Ipam.Pool.{
  AddressPool, ordered, IsOrdered, IsOrdered-le, occupy_ip-IsOrdered, free,
}
use exordos_core.Ipam.Calculate.{calculate_pool-free}
use exordos_core.Ipam.Allocate.{take_ip-IsTaken, take_ip_target, deallocate-take}

-- Every pool is in order.
pub record IsValid (ipam : Ipam) : Type 0 where
  pub pools : (k : ℕ) (p : AddressPool) → lookup k ipam.pool_map ≡ some p → IsOrdered 0 p

empty-IsValid : IsValid empty
unfolding lookup
empty-IsValid = record { pools = λ k p e. cc }

take_ip-IsOrdered :
    (u ip : ℕ) (target : Option ℕ) (p p' : AddressPool)
    → IsOrdered 0 p
    → take_ip u target p ≡ ok (ip, p')
    → IsOrdered 0 p'
take_ip-IsOrdered u ip none p p' h t = (take_ip-IsTaken 0 u ip p p' h t).kept_order
take_ip-IsOrdered u ip (some t) p p' h e = (take_ip_target 0 u ip t p p' h e).1

pub insert-IsValid :
    (k : ℕ) (p : AddressPool) (ipam : Ipam)
    → IsOrdered 0 p
    → IsValid ipam
    → IsValid (record { pool_map = insert k p ipam.pool_map })
insert-IsValid k p ipam h v = record {
  pools = λ j q e. ground (arith, lookup-insert k j p ipam.pool_map, v.pools j q, h);
}

module _ (lib : Library) (subnet : Subnet) (ipam : Ipam) where
  abbrev own : Option AddressPool
  own = lookup (lib.identity subnet) ipam.pool_map

  -- What `allocate_ip` returns and leaves when it succeeds.
  pub allocate_ip-eq-ok :
      (target : Option ℕ) (ip : ℕ)
      → (allocate_ip lib subnet target ipam).0 ≡ ok ip
      → (p : AddressPool) × (p' : AddressPool) × (own ≡ some p)
        × (take_ip subnet.uuid target p ≡ ok (ip, p'))
        × ((allocate_ip lib subnet target ipam).1
            ≡ record { pool_map = insert (lib.identity subnet) p' ipam.pool_map })
  unfolding allocate_ip
  allocate_ip-eq-ok target ip e = elim (Option-cases own) [
    | inl missing ↦ absurd (ground (arith, missing))
    | inr (p, found) ↦ elim (Result-cases (take_ip subnet.uuid target p)) [
      | inl ((ip', p'), taken) ↦
          (p, p', found, ground (arith, found, taken), ground (arith, found, taken))
      | inr (x, failed) ↦ absurd (ground (arith, found, failed))
    ]
  ]

  pub deallocate_ip-known :
      (a : ℕ) (p : AddressPool)
      → own ≡ some p
      → deallocate_ip lib subnet a ipam ≡ (
        ok tt,
        record { pool_map = insert (lib.identity subnet) (Pool.deallocate_ip a p) ipam.pool_map },
      )
  unfolding deallocate_ip
  deallocate_ip-known a p found = rw (found, deallocate_ip)

  -- A call that raises changes nothing.
  pub allocate_ip-eq-err :
      (target : Option ℕ) (e : IpamError)
      → (allocate_ip lib subnet target ipam).0 ≡ err e
      → (allocate_ip lib subnet target ipam).1 ≡ ipam
  unfolding allocate_ip
  allocate_ip-eq-err target e h = ground arith

  -- An allocation keeps every pool in order, whether it succeeds or raises.
  pub allocate_ip-IsValid :
      (target : Option ℕ) → IsValid ipam → IsValid (allocate_ip lib subnet target ipam).1
  allocate_ip-IsValid target v = elim (Result-cases (allocate_ip lib subnet target ipam).0) [
    | inl (ip, done) ↦
        let (p, p', found, taken, after) = allocate_ip-eq-ok target ip done in
        rw after (
          insert-IsValid (lib.identity subnet) p' ipam
            (take_ip-IsOrdered subnet.uuid ip target p p' (v.pools _ p found) taken) v)
    | inr (e, failed) ↦ rw (allocate_ip-eq-err target e failed) v
  ]

  -- Giving back an allocated address restores the pools of all subnets.
  pub deallocate-allocate :
      (ip j : ℕ)
      → IsValid ipam
      → (allocate_ip lib subnet none ipam).0 ≡ ok ip
      → lookup j (deallocate_ip lib subnet ip (allocate_ip lib subnet none ipam).1).1.pool_map
        ≡ lookup j ipam.pool_map
  unfolding deallocate_ip
  deallocate-allocate ip j v e =
      let (p, p', found, taken, after) = allocate_ip-eq-ok none ip e in
      let back = deallocate-take 0 subnet.uuid ip p p' (v.pools _ p found) taken in
      rw after (
        ground (
          arith,
          found,
          back,
          lookup-insert_self (lib.identity subnet) p' ipam.pool_map,
          lookup-insert (lib.identity subnet) j p' ipam.pool_map,
          lookup-insert (lib.identity subnet) j (Pool.deallocate_ip ip p')
              (insert (lib.identity subnet) p' ipam.pool_map),
        ))

-- The bounds of a subnet are in order.
abbrev pub HasBounds : Subnet × List Port → Type 0
HasBounds entry = (bounds entry.0).0 ≤ (bounds entry.0).1

module _ (lib : Library) where
  add_subnet-IsValid :
      (subnet : Subnet) (ports : List Port) (ipam ipam' : Ipam)
      → (bounds subnet).0 ≤ (bounds subnet).1
      → IsValid ipam
      → add_subnet lib subnet ports ipam ≡ ok ipam'
      → IsValid ipam'
  unfolding add_subnet
  add_subnet-IsValid subnet ports ipam ipam' le v e =
      elim (Result-cases (calculate_pool lib subnet ports)) [
        | inl (p, made) ↦
            let (h, _) = calculate_pool-free lib subnet ports p 0 le made in
            let same : record { pool_map = insert (lib.identity subnet) p ipam.pool_map } ≡ ipam' =
              ground (arith, made, e) in
            rw (← same) (
              insert-IsValid (lib.identity subnet) p ipam
                (IsOrdered-le 0 (bounds subnet).0 p (omega arith) h) v)
        | inr (x, failed) ↦ absurd (ground (arith, failed, e))
      ]

  add_subnets-IsValid :
      (subnet_map : List (Subnet × List Port)) (ipam ipam' : Ipam)
      → All HasBounds subnet_map
      → IsValid ipam
      → add_subnets lib subnet_map ipam ≡ ok ipam'
      → IsValid ipam'
  unfolding add_subnets
  add_subnets-IsValid [] ipam ipam' le v e = let same : ipam ≡ ipam' = cc in subst IsValid same v
  add_subnets-IsValid ((subnet, ports) ∷ rest) ipam ipam' le v e =
      elim (Result-cases (add_subnet lib subnet ports ipam)) [
        | inl (next, made) ↦
            add_subnets-IsValid rest next ipam' le.1
              (add_subnet-IsValid subnet ports ipam next le.0 v made) (ground (arith, made, e))
        | inr (x, failed) ↦ absurd (ground (arith, failed, e))
      ]

  -- A new `Ipam` has its pools in order.
  pub init-IsValid :
      (subnet_map : List (Subnet × List Port)) (ipam : Ipam)
      → All HasBounds subnet_map
      → init lib subnet_map ≡ ok ipam
      → IsValid ipam
  unfolding init
  init-IsValid subnet_map ipam le e = add_subnets-IsValid subnet_map empty ipam le empty-IsValid e
