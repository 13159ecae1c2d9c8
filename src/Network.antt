-- ===== src/Network.antt =====
-- exordos_core/network/service.py: how an iteration of the network service gives addresses to new
-- nodes and to new hardware ports.
pub mod Port
pub mod Stored
pub mod Rounds
pub mod Addresses
pub mod Reuse
mod Tests
use exordos_core.Base.{
  ℕ, Bool, true, false, Option, none, some, List, [], ◌∷◌, ◌==◌, ◌++◌, if◌then◌else◌,
}
use exordos_core.Base.Result.{Result, ok, err}
use exordos_core.Ipam
use exordos_core.Ipam.{Ipam, IpamError, Library, Subnet}

-- A subnet as the service reads it: `next_server` is `None` or not.
pub record NetSubnet : Type 0 where
  pub subnet : Subnet
  pub has_next_server : Bool

-- A port, by the fields that the loops read. The others (mac, mask, project, source) are only stored.
pub record NetPort : Type 0 where
  pub subnet : Subnet
  pub target_ipv4 : Option ℕ
  pub ipv4 : ℕ
  pub owner : ℕ

-- How `port.insert()` ends.
pub data Insert : Type 0 where
  inserted value_error other_error : Insert

-- A node without ports: `default_network["target_ipv4"]`, and how the insertion of its port ends.
pub record Node : Type 0 where
  pub uuid : ℕ
  pub target_ipv4 : Option ℕ
  pub insert : Insert

-- A port of a hardware node that has no address so far.
pub record HwPort : Type 0 where
  pub subnet : Subnet
  pub machine : ℕ
  pub insert : Insert

-- The dictionary from subnets to their ports, in its order.
abbrev pub SubnetMap : Type 0
SubnetMap = List (NetSubnet × List NetPort)

-- What the iteration keeps: `ipam` once it is made, the ports of each subnet, the variable `port`,
-- and the ports that the database holds at the end.
pub record State : Type 0 where
  pub ipam : Option Ipam
  pub subnet_map : SubnetMap
  pub port : Option NetPort
  pub stored : List NetPort

-- An exception that ends the iteration: from the constructor of `Ipam`, from the read of `port`
-- before any assignment, or from `deallocate_ip` in the handler.
pub data Abort : Type 0 where
  ipam_error : IpamError → Abort
  unbound_port : Abort

-- What `_allocate_port` raises.
pub data AllocateError : Type 0 where
  no_suitable_subnet : AllocateError
  not_allocated : IpamError → AllocateError

-- `NetworkService._is_subnet_match`
unfoldable pub is_subnet_match : NetSubnet → Bool
is_subnet_match s = if s.has_next_server then false else true

-- The loop of `_allocate_port` over the subnets, with its `break` and its `else`.
unfoldable pub find_subnet : SubnetMap → Option Subnet
unfolding is_subnet_match
find_subnet [] = none
find_subnet ((s, ports) ∷ rest) =
    let others = find_subnet rest in if is_subnet_match s then some s.subnet else others

-- What the model takes from libraries: those of `Ipam`, and whether an exception of `Ipam` is a
-- `ValueError`, which its base class `izulu.root.Error` decides.
pub record Env : Type 0 where
  pub library : Library
  pub ipam_value_error : Bool

module _ (env : Env) where
  -- `subnet_map[subnet].append(port)`
  unfoldable pub append_port : NetPort → SubnetMap → SubnetMap
  append_port port [] = []
  append_port port ((s, ports) ∷ rest) =
      let others = (s, ports) ∷ append_port port rest in
      if env.library.identity s.subnet == env.library.identity port.subnet
      then (s, ports ++ port ∷ []) ∷ rest
      else others

  -- The ports of each subnet, as `Ipam` takes them.
  unfoldable pub ipam_ports : List NetPort → List Ipam.Port
  ipam_ports [] = []
  ipam_ports (p ∷ ports) = record { ipv4 = some p.ipv4 } ∷ ipam_ports ports

  unfoldable pub ipam_map : SubnetMap → List (Subnet × List Ipam.Port)
  unfolding ipam_ports
  ipam_map [] = []
  ipam_map ((s, ports) ∷ rest) = (s.subnet, ipam_ports ports) ∷ ipam_map rest

  -- `if ipam is None: ipam = net_ipam.Ipam(subnet_map)`
  unfoldable pub ensure_ipam : State → Result IpamError Ipam
  ensure_ipam s = elim s.ipam [
    | some ipam ↦ ok ipam
    | none ↦ Ipam.init env.library (ipam_map s.subnet_map)
  ]

  -- `NetworkService._allocate_port`, with the state of `ipam` behind the result.
  unfoldable pub allocate_port : Node → Ipam → SubnetMap → Result AllocateError NetPort × Ipam
  allocate_port node ipam subnet_map = elim (find_subnet subnet_map) [
    | none ↦ (err no_suitable_subnet, ipam)
    | some subnet ↦
        let (r, ipam') = Ipam.allocate_ip env.library subnet node.target_ipv4 ipam in
        elim r [
          | err e ↦ (err (not_allocated e), ipam')
          | ok ip ↦ (
            ok (record {
              subnet = subnet;
              target_ipv4 = node.target_ipv4;
              ipv4 = ip;
              owner = node.uuid;
            }),
            ipam',
          )
        ]
  ]

  -- `except Exception: ipam.deallocate_ip(port.subnet, port.ipv4)`, where `port` may be the port of
  -- an earlier round, or not be assigned.
  unfoldable pub release_port : Ipam → State → Result Abort State
  release_port ipam s = elim s.port [
    | none ↦ err unbound_port
    | some port ↦
        let (r, ipam') = Ipam.deallocate_ip env.library port.subnet port.ipv4 ipam in
        elim r [ ok _ ↦ ok (record s { ipam = some ipam' }) | err e ↦ err (ipam_error e) ]
  ]

  -- The `try` statement behind a successful `_allocate_port`: `port.insert()` and its handlers.
  unfoldable pub insert_port : Insert → NetPort → Ipam → State → Result Abort State
  insert_port inserted port ipam s = ok (record s { stored = s.stored ++ port ∷ [] })
  insert_port value_error port ipam s = ok s
  insert_port other_error port ipam s = release_port ipam s

  -- What follows `_allocate_port` in the `try` statement of the loop over the nodes: the rest of
  -- its body, or the handlers.
  unfoldable pub handle_node :
      Node → State → Result AllocateError NetPort → Ipam → Result Abort State
  handle_node node s (err no_suitable_subnet) ipam = ok (record s { ipam = some ipam })
  handle_node node s (err (not_allocated e)) ipam =
      if env.ipam_value_error
      then ok (record s { ipam = some ipam })
      else release_port ipam (record s { ipam = some ipam })
  handle_node node s (ok port) ipam =
      insert_port node.insert port ipam (record s {
        ipam = some ipam;
        subnet_map = append_port port s.subnet_map;
        port = some port;
      })

  -- The body of the loop over the new nodes.
  unfoldable pub allocate_node : Node → State → Result Abort State
  allocate_node node s = elim (ensure_ipam s) [
    | err e ↦ err (ipam_error e)
    | ok ipam ↦ let (r, ipam') = allocate_port node ipam s.subnet_map in handle_node node s r ipam'
  ]

  unfoldable pub allocate_nodes : List Node → State → Result Abort State
  allocate_nodes [] s = ok s
  allocate_nodes (node ∷ nodes) s = elim (allocate_node node s) [
    | err a ↦ err a
    | ok s' ↦ allocate_nodes nodes s'
  ]

  -- The body of the loop over the hardware ports: every exception in the `try` is logged.
  unfoldable pub allocate_hw_port : HwPort → State → Result Abort State
  allocate_hw_port hw s = elim (ensure_ipam s) [
    | err e ↦ err (ipam_error e)
    | ok ipam ↦
        let (r, ipam') = Ipam.allocate_ip env.library hw.subnet none ipam in
        elim r [
          | err e ↦ ok (record s { ipam = some ipam' })
          | ok ip ↦
              let port : NetPort = record {
                subnet = hw.subnet;
                target_ipv4 = none;
                ipv4 = ip;
                owner = hw.machine;
              } in
              elim hw.insert [
                | inserted ↦ ok (record s {
                  ipam = some ipam';
                  subnet_map = append_port port s.subnet_map;
                  stored = s.stored ++ port ∷ [];
                })
                | _ ↦ ok (record s { ipam = some ipam' })
              ]
        ]
  ]

  unfoldable pub allocate_hw_ports : List HwPort → State → Result Abort State
  allocate_hw_ports [] s = ok s
  allocate_hw_ports (hw ∷ ports) s = elim (allocate_hw_port hw s) [
    | err a ↦ err a
    | ok s' ↦ allocate_hw_ports ports s'
  ]

  -- The two loops of `NetworkService._iteration` that give out addresses.
  unfoldable pub allocate_all :
      List Node → List HwPort → SubnetMap → List NetPort → Result Abort State
  allocate_all nodes hw_ports subnet_map stored =
      elim (allocate_nodes nodes
        (record { ipam = none; subnet_map = subnet_map; port = none; stored = stored })) [
          | err a ↦ err a
          | ok s ↦ allocate_hw_ports hw_ports s
        ]
