-- ===== src/Ipam.antt =====
-- exordos_core/network/ipam.py: the class `Ipam`, with what it reads of a subnet and of a port
-- (exordos_core/compute/dm/models.py). The list of ranges is in `Pool`.
pub mod Pool
pub mod Canonical
pub mod Calculate
pub mod Allocate
pub mod Sessions
pub mod State
pub mod View
mod Tests
use exordos_core.Base.{
  ℕ, ◌+◌, ◌==◌, Bool, true, false, ◌&&◌, Option, none, some, List, [], ◌∷◌, if◌then◌else◌,
}
use exordos_core.Base.Dict.{Dict, lookup, insert}
use exordos_core.Base.Result.{Result, ok, err}
use Pool
use Pool.{AddressPool}

-- A `netaddr.IPRange`, and a network, by the numbers of the first and the last address.
abbrev pub IpRange : Type 0
IpRange = ℕ × ℕ

pub record Subnet : Type 0 where
  pub uuid : ℕ
  pub cidr : IpRange
  pub ip_range : Option IpRange
  pub ip_discovery_range : Option IpRange

pub record Port : Type 0 where
  pub ipv4 : Option ℕ

-- The libraries that the class calls. `identity` is what tells two subnets apart as keys of a
-- dictionary; `contains` is `address in range`, and `meets` is the truth value of
-- `IPSet(a) & IPSet(b)`, where the second range may be `None`.
pub record Library : Type 0 where
  pub identity : Subnet → ℕ
  pub contains : IpRange → ℕ → Bool
  pub meets : IpRange → Option IpRange → Bool

pub data IpamError : Type 0 where
  no_ips_available : (subnet : ℕ) → IpamError
  undefined_subnet : (subnet : ℕ) → IpamError
  ip_range_overlap : (ip_range_a : Option IpRange) (ip_range_b : IpRange) → IpamError

-- `Subnet.ip_range_pair`
unfoldable pub ip_range_pair : Subnet → Option (ℕ × ℕ)
ip_range_pair subnet = elim subnet.ip_range [
  | none ↦ none
  | some (first, last) ↦ some (first, last)
]

-- The first and the last address that the pool of a subnet starts from.
unfoldable pub bounds : Subnet → ℕ × ℕ
unfolding ip_range_pair
bounds subnet = elim (ip_range_pair subnet) [ none ↦ subnet.cidr | some pair ↦ pair ]

-- The state of an `Ipam`: the pool of each subnet.
pub record Ipam : Type 0 where
  pub pool_map : Dict AddressPool

abbrev pub empty : Ipam
empty = record { pool_map = [] }

-- Taking an address out of a pool that was found: the part of `allocate_ip` behind its first test.
unfoldable pub take_ip : ℕ → Option ℕ → AddressPool → Result IpamError (ℕ × AddressPool)
take_ip uuid target_ip [] = err (no_ips_available uuid)
take_ip uuid (some target) (r ∷ rest) = ok (target, Pool.occupy_ip target (r ∷ rest))
take_ip uuid none ((start, end) ∷ rest) =
    if start == end then ok (start, rest) else ok (start, (start + 1, end) ∷ rest)

module _ (lib : Library) where
  -- Whether the address lies in the discovery range, if there is one.
  unfoldable pub discovered : Subnet → ℕ → Bool
  discovered subnet ip = elim subnet.ip_discovery_range [
    | none ↦ false
    | some range ↦ lib.contains range ip
  ]

  -- The body of the loop over the ports.
  unfoldable pub exclude_port : Subnet → AddressPool → Port → AddressPool
  unfolding discovered
  exclude_port subnet pool port = elim port.ipv4 [
    | none ↦ pool
    | some ip ↦ if discovered subnet ip then pool else Pool.occupy_ip ip pool
  ]

  unfoldable pub exclude_ports : Subnet → AddressPool → List Port → AddressPool
  exclude_ports subnet pool [] = pool
  exclude_ports subnet pool (port ∷ ports) =
      exclude_ports subnet (exclude_port subnet pool port) ports

  -- `Ipam.calculate_pool`
  unfoldable pub calculate_pool : Subnet → List Port → Result IpamError AddressPool
  calculate_pool subnet ports =
      let pool = exclude_ports subnet (bounds subnet ∷ []) ports in
      elim subnet.ip_discovery_range [
        | none ↦ ok pool
        | some range ↦
            if lib.meets range subnet.ip_range
            then err (ip_range_overlap subnet.ip_range range)
            else ok pool
      ]

  -- `Ipam.add_subnet`
  unfoldable pub add_subnet : Subnet → List Port → Ipam → Result IpamError Ipam
  add_subnet subnet ports ipam = elim (calculate_pool subnet ports) [
    | ok pool ↦ ok (record { pool_map = insert (lib.identity subnet) pool ipam.pool_map })
    | err e ↦ err e
  ]

  -- `Ipam.__init__`: the loop over the items of `subnet_map`.
  unfoldable pub add_subnets : List (Subnet × List Port) → Ipam → Result IpamError Ipam
  add_subnets [] ipam = ok ipam
  add_subnets ((subnet, ports) ∷ subnet_map) ipam = elim (add_subnet subnet ports ipam) [
    | ok ipam' ↦ add_subnets subnet_map ipam'
    | err e ↦ err e
  ]

  unfoldable pub init : List (Subnet × List Port) → Result IpamError Ipam
  unfolding add_subnets
  init subnet_map = add_subnets subnet_map empty

  -- `Ipam.allocate_ip`: the address or the exception, and the state after the call.
  unfoldable pub allocate_ip : Subnet → Option ℕ → Ipam → Result IpamError ℕ × Ipam
  allocate_ip subnet target_ip ipam = elim (lookup (lib.identity subnet) ipam.pool_map) [
    | none ↦ (err (undefined_subnet subnet.uuid), ipam)
    | some pool ↦ elim (take_ip subnet.uuid target_ip pool) [
      | err e ↦ (err e, ipam)
      | ok (ip, pool') ↦
          (ok ip, record { pool_map = insert (lib.identity subnet) pool' ipam.pool_map })
    ]
  ]

  -- `Ipam.deallocate_ip`
  unfoldable pub deallocate_ip : Subnet → ℕ → Ipam → Result IpamError (Unit {0}) × Ipam
  deallocate_ip subnet address ipam = elim (lookup (lib.identity subnet) ipam.pool_map) [
    | none ↦ (err (undefined_subnet subnet.uuid), ipam)
    | some pool ↦ (
      ok tt,
      record {
        pool_map = insert (lib.identity subnet) (Pool.deallocate_ip address pool) ipam.pool_map;
      },
    )
  ]
