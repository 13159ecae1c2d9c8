-- ===== src/Ipam/Calculate.antt =====
-- `Ipam.calculate_pool` against a description of it: which addresses are free at the start.
use exordos_core.Base.{
  ℕ, ◌≤◌, ◌≡◌, refl, ◌==◌, leb, Bool, false, ◌&&◌, not, any, none, some, List, [], ◌∷◌, arith,
  if◌then◌else◌,
}
use exordos_core.Base.Result.{ok}
use exordos_core.Ipam.{
  Subnet, Port, Library, bounds, discovered, exclude_port, exclude_ports, calculate_pool,
}
use exordos_core.Ipam.Pool.{
  AddressPool, free, ordered, IsOrdered, occupy_ip-IsOrdered, free-occupy_ip,
}

module _ (lib : Library) (subnet : Subnet) where
  -- Whether the port keeps the address: its address, unless that is a discovered one.
  unfoldable pub keeps : ℕ → Port → Bool
  keeps x port = elim port.ipv4 [
    | none ↦ false
    | some ip ↦ x == ip && not (discovered lib subnet ip)
  ]

  exclude_port_lem :
      (lo x : ℕ) (p : AddressPool) (port : Port)
      → IsOrdered lo p
      → IsOrdered lo (exclude_port lib subnet p port)
        × (free x (exclude_port lib subnet p port) ≡ (if keeps x port then false else free x p))
  unfolding exclude_port keeps
  exclude_port_lem lo x p port h =
      elim port.ipv4
        as (λ o.
          IsOrdered lo (exclude_port lib subnet p (record { ipv4 = o }))
          × (free x (exclude_port lib subnet p (record { ipv4 = o }))
              ≡ (if keeps x (record { ipv4 = o }) then false else free x p))) [
                | none ↦ (h, refl)
                | some ip ↦ (
                  ground (arith, occupy_ip-IsOrdered lo ip p),
                  ground (arith, free-occupy_ip lo ip x p),
                )
              ]

  exclude_ports_lem :
      (lo x : ℕ) (p : AddressPool) (ports : List Port)
      → IsOrdered lo p
      → IsOrdered lo (exclude_ports lib subnet p ports)
        × (free x (exclude_ports lib subnet p ports)
            ≡ (if any (keeps x) ports then false else free x p))
  unfolding exclude_ports any
  exclude_ports_lem lo x p [] h = (h, refl)
  exclude_ports_lem lo x p (port ∷ ports) h =
      let one = exclude_port_lem lo x p port h in
      let rest = exclude_ports_lem lo x (exclude_port lib subnet p port) ports one.0 in
      (rest.0, ground (arith, one.1, rest.1))

  calculate_pool-eq-ok :
      (ports : List Port) {pool : AddressPool}
      → calculate_pool lib subnet ports ≡ ok pool
      → exclude_ports lib subnet (bounds subnet ∷ []) ports ≡ pool
  unfolding calculate_pool
  calculate_pool-eq-ok ports e = ground arith

  start_lem :
      (x : ℕ)
      → (bounds subnet).0 ≤ (bounds subnet).1
      → IsOrdered (bounds subnet).0 (bounds subnet ∷ [])
        × (free x (bounds subnet ∷ []) ≡ (leb (bounds subnet).0 x && leb x (bounds subnet).1))
  unfolding ordered free
  start_lem x le = (ground arith, ground arith)

  -- A calculated pool is in order, and an address is free in it exactly if it lies between the
  -- bounds of the subnet and no port keeps it.
  pub calculate_pool-free :
      (ports : List Port) (pool : AddressPool) (x : ℕ)
      → (bounds subnet).0 ≤ (bounds subnet).1
      → calculate_pool lib subnet ports ≡ ok pool
      → IsOrdered (bounds subnet).0 pool
        × (free x pool ≡ (
            if any (keeps x) ports
            then false
            else leb (bounds subnet).0 x && leb x (bounds subnet).1))
  calculate_pool-free ports pool x le e =
      let start = start_lem x le in
      let all = exclude_ports_lem (bounds subnet).0 x (bounds subnet ∷ []) ports start.0 in
      rw (← calculate_pool-eq-ok ports e) (all.0, ground (arith, all.1, start.1))
