-- ===== src/Network/Reuse.antt =====
-- The handler of a failed allocation in the loop over the new nodes
-- (exordos_core/network/service.py).
use exordos_core.Base.{ℕ, ◌≡◌, refl, ◌∙◌, ap, false, Option, none, some, [], ◌∷◌, ◌++◌, arith}
use exordos_core.Base.Dict.{lookup, insert, lookup-insert_self}
use exordos_core.Base.Result.{ok, err}
use exordos_core.Ipam.{Ipam, no_ips_available, take_ip, allocate_ip}
use exordos_core.Ipam.State.{deallocate_ip-known}
use exordos_core.Ipam.Pool.{deallocate_ip}
use exordos_core.Network.Port.{
  new_port, allocate_port-eq-err, allocate_port-eq-ok, allocate_node-made,
}
use exordos_core.Network.{
  NetPort, inserted, Node, State, Env, find_subnet, append_port, release_port, insert_port,
  handle_node, allocate_node, allocate_nodes,
}

module _ (env : Env) (s : State) (ipam : Ipam) (p : NetPort) (made : s.ipam ≡ some ipam)
    (bound : s.port ≡ some p) (found : find_subnet s.subnet_map ≡ some p.subnet)
    (exhausted : lookup (env.library.identity p.subnet) ipam.pool_map ≡ some [])
    (ve : env.ipam_value_error ≡ false) where
  abbrev key : ℕ
  key = env.library.identity p.subnet

  -- The state of `Ipam` after the handler: the address of the earlier port is free.
  abbrev reopened : Ipam
  reopened = record { pool_map = insert key ((p.ipv4, p.ipv4) ∷ []) ipam.pool_map }

  abbrev after_first : State
  after_first = record s { ipam = some reopened }

  exhausted_lem :
      (node : Node)
      → (allocate_ip env.library p.subnet node.target_ipv4 ipam).0
        ≡ err (no_ips_available p.subnet.uuid)
  unfolding allocate_ip take_ip
  exhausted_lem node = ground (arith, exhausted)

  release_lem : release_port env ipam (record s { ipam = some ipam }) ≡ ok after_first
  unfolding release_port deallocate_ip
  release_lem =
      ground (arith, bound, deallocate_ip-known env.library p.subnet ipam p.ipv4 [] exhausted)

  first_round : (node : Node) → allocate_node env node s ≡ ok after_first
  unfolding handle_node
  first_round node = ground (
    arith,
    ve,
    release_lem,
    allocate_node-made env node s ipam ipam _ made
        (allocate_port-eq-err env node ipam s.subnet_map p.subnet _ found (exhausted_lem node)),
  )

  reopened_lem :
      allocate_ip env.library p.subnet none reopened
      ≡ (ok p.ipv4, record { pool_map = insert key [] reopened.pool_map })
  unfolding allocate_ip take_ip
  reopened_lem = ground (arith, lookup-insert_self key ((p.ipv4, p.ipv4) ∷ []) ipam.pool_map)

  abbrev after_second : Node → State
  after_second second = record {
    ipam = some (record { pool_map = insert key [] reopened.pool_map });
    subnet_map = append_port env (new_port second p.subnet p.ipv4) s.subnet_map;
    port = some (new_port second p.subnet p.ipv4);
    stored = s.stored ++ new_port second p.subnet p.ipv4 ∷ [];
  }

  second_round :
      (second : Node)
      → second.target_ipv4 ≡ none
      → second.insert ≡ inserted
      → allocate_node env second after_first ≡ ok (after_second second)
  unfolding handle_node insert_port
  second_round second un how =
      let got =
        ap (λ (o : Option ℕ). allocate_ip env.library p.subnet o reopened) un ∙ reopened_lem in
      ground (
        arith,
        how,
        got,
        allocate_node-made env second after_first reopened
            (allocate_ip env.library p.subnet second.target_ipv4 reopened).1
            (ok (new_port second p.subnet p.ipv4)) refl
            (allocate_port-eq-ok env second reopened s.subnet_map p.subnet p.ipv4 found
              (ground (arith, got))),
      )

  -- When the pool of a subnet is empty and the exceptions of `Ipam` are no `ValueError`, a node whose
  -- allocation fails makes the next node get the address of the last port that was stored before.
  pub allocate_nodes_reuse :
      (first second : Node)
      → second.target_ipv4 ≡ none
      → second.insert ≡ inserted
      → (t : State) × (allocate_nodes env (first ∷ second ∷ []) s ≡ ok t)
        × (t.stored ≡ s.stored ++ new_port second p.subnet p.ipv4 ∷ [])
  unfolding allocate_nodes
  allocate_nodes_reuse first second un how =
      (after_second second, ground (arith, first_round first, second_round second un how), refl)
