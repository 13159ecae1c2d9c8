-- ===== src/Network/Port.antt =====
-- What `_allocate_port` and a round of the loop over the nodes do, by cases
-- (exordos_core/network/service.py).
use exordos_core.Base.{ℕ, ◌≡◌, none, some, arith}
use exordos_core.Base.Result.{Result, ok, err}
use exordos_core.Ipam
use exordos_core.Ipam.{Ipam, IpamError, Subnet}
use exordos_core.Ipam.State.{allocate_ip-eq-err}
use exordos_core.Network.{
  NetPort, Node, State, SubnetMap, AllocateError, no_suitable_subnet, not_allocated, Env,
  find_subnet, ensure_ipam, allocate_port, handle_node, allocate_node,
}

-- The port that a node is given.
abbrev pub new_port : Node → Subnet → ℕ → NetPort
new_port node subnet ip = record {
  subnet = subnet;
  target_ipv4 = node.target_ipv4;
  ipv4 = ip;
  owner = node.uuid;
}

module _ (env : Env) where
  pub allocate_port-eq-none :
      (node : Node) (ipam : Ipam) (m : SubnetMap)
      → find_subnet m ≡ none
      → allocate_port env node ipam m ≡ (err no_suitable_subnet, ipam)
  unfolding allocate_port
  allocate_port-eq-none node ipam m e = ground (arith, e)

  pub allocate_port-eq-err :
      (node : Node) (ipam : Ipam) (m : SubnetMap) (subnet : Subnet) (e : IpamError)
      → find_subnet m ≡ some subnet
      → (Ipam.allocate_ip env.library subnet node.target_ipv4 ipam).0 ≡ err e
      → allocate_port env node ipam m ≡ (err (not_allocated e), ipam)
  unfolding allocate_port
  allocate_port-eq-err node ipam m subnet e found failed =
      ground
        (arith, found, failed, allocate_ip-eq-err env.library subnet ipam node.target_ipv4 e failed)

  pub allocate_port-eq-ok :
      (node : Node) (ipam : Ipam) (m : SubnetMap) (subnet : Subnet) (ip : ℕ)
      → find_subnet m ≡ some subnet
      → (Ipam.allocate_ip env.library subnet node.target_ipv4 ipam).0 ≡ ok ip
      → allocate_port env node ipam m ≡ (
        ok (new_port node subnet ip),
        (Ipam.allocate_ip env.library subnet node.target_ipv4 ipam).1,
      )
  unfolding allocate_port
  allocate_port-eq-ok node ipam m subnet ip found done = ground (arith, found, done)

  pub allocate_node-made :
      (node : Node) (s : State) (ipam ipam' : Ipam) (r : Result AllocateError NetPort)
      → s.ipam ≡ some ipam
      → allocate_port env node ipam s.subnet_map ≡ (r, ipam')
      → allocate_node env node s ≡ handle_node env node s r ipam'
  unfolding allocate_node ensure_ipam
  allocate_node-made node s ipam ipam' r made e = ground (arith, made, e)
