-- ===== src/Network/Tests.antt =====
-- Runs of the loops of exordos_core/network/service.py, and the theorems at concrete inputs.
use exordos_core.Base.{
  ℕ, ◌≡◌, refl, leb, ◌&&◌, true, false, Option, none, some, List, [], ◌∷◌, ◌++◌, arith,
}
use exordos_core.Base.Dict.{lookup, insert}
use exordos_core.Base.Result.{ok}
use exordos_core.Ipam
use exordos_core.Ipam.{Ipam, Subnet, Library, take_ip, allocate_ip}
use exordos_core.Ipam.Pool
use exordos_core.Ipam.Pool.{free, ordered, occupy_ip, extend_end}
use exordos_core.Ipam.View.{free_at}
use exordos_core.Network.{
  NetPort, inserted, Node, State, SubnetMap, Env, is_subnet_match, find_subnet, append_port,
  ipam_ports, ipam_map, ensure_ipam, allocate_port, release_port, insert_port, handle_node,
  allocate_node, allocate_nodes, allocate_hw_port, allocate_hw_ports, allocate_all,
}
use exordos_core.Network.Port.{new_port}
use exordos_core.Network.Stored.{IsSound, uses, has}
use exordos_core.Network.Reuse.{allocate_nodes_reuse}

abbrev library : Library
library = record {
  identity = λ s. s.uuid;
  contains = λ r a. leb r.0 a && leb a r.1;
  meets = λ r o. elim o [ none ↦ false | some q ↦ leb r.0 q.1 && leb q.0 r.1 ];
}

abbrev env : Env
env = record { library = library; ipam_value_error = false }

abbrev subnet : Subnet
subnet = record { uuid = 7; cidr = (10, 11); ip_range = none; ip_discovery_range = none }

abbrev boot : Subnet
boot = record { uuid = 6; cidr = (90, 99); ip_range = none; ip_discovery_range = none }

abbrev subnet_map : SubnetMap
subnet_map =
    (record { subnet = boot; has_next_server = true }, [])
    ∷ (record { subnet = subnet; has_next_server = false }, [])
    ∷ []

abbrev node : ℕ → Node
node uuid = record { uuid = uuid; target_ipv4 = none; insert = inserted }

abbrev port : ℕ → ℕ → NetPort
port ip owner = record { subnet = subnet; target_ipv4 = none; ipv4 = ip; owner = owner }

program : Unit {0}
unfolding is_subnet_match find_subnet append_port ipam_ports ipam_map ensure_ipam allocate_port
    release_port insert_port handle_node allocate_node allocate_nodes allocate_hw_port
    allocate_hw_ports allocate_all Ipam.init Ipam.add_subnets Ipam.add_subnet Ipam.calculate_pool
    Ipam.exclude_ports Ipam.exclude_port Ipam.bounds Ipam.allocate_ip Ipam.deallocate_ip take_ip
    occupy_ip extend_end Pool.deallocate_ip lookup insert free ordered free_at uses has
program = tt

abbrev start : State
start = record { ipam = none; subnet_map = subnet_map; port = none; stored = [] }

-- Two addresses and four nodes: the third fails, and the fourth gets the address of the second.
abbrev stored_by : Option State → List NetPort
stored_by none = []
stored_by (some s) = s.stored

four_nodes :
    (s : State) × (allocate_nodes env (node 1 ∷ node 2 ∷ node 3 ∷ node 4 ∷ []) start ≡ ok s)
    × (s.stored ≡ port 10 1 ∷ port 11 2 ∷ port 11 4 ∷ [])
unfolding program
four_nodes = (
  record {
    ipam = some (record { pool_map = (6, (90, 99) ∷ []) ∷ (7, []) ∷ [] });
    subnet_map =
        (record { subnet = boot; has_next_server = true }, [])
        ∷ (
          record { subnet = subnet; has_next_server = false },
          port 10 1 ∷ port 11 2 ∷ port 11 4 ∷ [],
        )
        ∷ [];
    port = some (port 11 4);
    stored = port 10 1 ∷ port 11 2 ∷ port 11 4 ∷ [];
  },
  refl,
  refl,
)

abbrev full : State
full = record {
  ipam = some (record { pool_map = (7, []) ∷ [] });
  subnet_map = subnet_map;
  port = some (port 11 2);
  stored = port 10 1 ∷ port 11 2 ∷ [];
}

allocate_nodes_reuse_example :
    (t : State) × (allocate_nodes env (node 3 ∷ node 4 ∷ []) full ≡ ok t)
    × (t.stored ≡ full.stored ++ new_port (node 4) subnet 11 ∷ [])
unfolding program
allocate_nodes_reuse_example =
    allocate_nodes_reuse env full (record { pool_map = (7, []) ∷ [] }) (port 11 2) refl refl refl
      refl refl (node 3) (node 4) refl refl

abbrev fresh : Ipam
fresh = record { pool_map = (7, (10, 11) ∷ []) ∷ [] }

abbrev before : State
before = record { ipam = some fresh; subnet_map = subnet_map; port = none; stored = [] }

before-IsSound : IsSound env before
unfolding program
before-IsSound = record {
  ipam = fresh;
  made = refl;
  valid = record { pools = λ k p e. ground arith };
  once = λ k a. ground arith;
}
