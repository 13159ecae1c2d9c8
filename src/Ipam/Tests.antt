-- ===== src/Ipam/Tests.antt =====
-- Runs of exordos_core/network/ipam.py on small subnets, and the theorems at concrete inputs.
use exordos_core.Base.{
  ℕ, ◌≡◌, refl, leb, true, false, ◌&&◌, none, some, List, [], ◌∷◌, arith, any, if◌then◌else◌,
}
use exordos_core.Base.Dict.{lookup, insert}
use exordos_core.Base.Result.{ok, err}
use exordos_core.Ipam.{
  Ipam, IpamError, no_ips_available, Subnet, Port, Library, bounds, take_ip, calculate_pool,
  exclude_ports, exclude_port, init, add_subnets, add_subnet, allocate_ip, deallocate_ip,
}
use exordos_core.Ipam.Pool
use exordos_core.Ipam.Pool.{
  AddressPool, occupy_ip, extend_end, free, ordered, IsOrdered, free-occupy_ip, free-deallocate_ip,
  deallocate_ip-IsOrdered,
}
use exordos_core.Ipam.Calculate.{keeps, calculate_pool-free}
use exordos_core.Ipam.Allocate.{
  IsTaken, take_ip-IsTaken, take_ip_total, deallocate-occupy, deallocate_ip_twice,
}
use exordos_core.Ipam.Sessions.{
  Session, count, shares, Step, allocate, here, next, IsSound, Reach-IsSound,
}
use exordos_core.Ipam.State.{IsValid, allocate_ip-IsValid, deallocate-allocate, init-IsValid}

abbrev pool : AddressPool
pool = (10, 12) ∷ (20, 20) ∷ []

abbrev library : Library
library = record {
  identity = λ s. s.uuid;
  contains = λ r a. leb r.0 a && leb a r.1;
  meets = λ r o. elim o [ none ↦ false | some q ↦ leb r.0 q.1 && leb q.0 r.1 ];
}

abbrev subnet : Subnet
subnet = record {
  uuid = 7;
  cidr = (0, 255);
  ip_range = some (10, 20);
  ip_discovery_range = some (30, 40);
}

abbrev ports : List Port
ports = record { ipv4 = some 12 } ∷ record { ipv4 = some 35 } ∷ record { ipv4 = none } ∷ []

program : Unit {0}
unfolding calculate_pool exclude_ports exclude_port bounds occupy_ip extend_end Pool.deallocate_ip
    init add_subnets add_subnet allocate_ip deallocate_ip take_ip lookup insert free ordered keeps
    any count
program = tt

calculate_pool-ports : calculate_pool library subnet ports ≡ ok ((10, 11) ∷ (13, 20) ∷ [])
unfolding program
calculate_pool-ports = refl

calculate_pool-free_example :
    IsOrdered (bounds subnet).0 ((10, 11) ∷ (13, 20) ∷ [])
    × (free 12 ((10, 11) ∷ (13, 20) ∷ []) ≡ (
        if any (keeps library subnet 12) ports
        then false
        else leb (bounds subnet).0 12 && leb 12 (bounds subnet).1))
unfolding program
calculate_pool-free_example =
    calculate_pool-free library subnet ports ((10, 11) ∷ (13, 20) ∷ []) 12 (omega arith)
      calculate_pool-ports

take_ip-IsTaken_example : IsTaken 10 10 pool ((11, 12) ∷ (20, 20) ∷ [])
unfolding program
take_ip-IsTaken_example = take_ip-IsTaken 10 7 10 pool ((11, 12) ∷ (20, 20) ∷ []) refl refl

take_ip_total_example :
    ((x : ℕ) → free x pool ≡ true → (r : ℕ × AddressPool) × (take_ip 7 none pool ≡ ok r))
    × ((e : IpamError)
        → take_ip 7 none pool ≡ err e
        → (e ≡ no_ips_available 7) × ((x : ℕ) → free x pool ≡ false))
unfolding program
take_ip_total_example = take_ip_total 10 7 pool refl

take_ip_target-free : take_ip 7 (some 11) pool ≡ ok (11, (10, 10) ∷ (12, 12) ∷ (20, 20) ∷ [])
unfolding program
take_ip_target-free = refl

deallocate-occupy_example : Pool.deallocate_ip 11 (occupy_ip 11 pool) ≡ pool
unfolding program
deallocate-occupy_example = deallocate-occupy 10 11 pool refl refl

deallocate_ip_twice_example :
    (Pool.deallocate_ip 12 ((10, 12) ∷ (20, 20) ∷ []) ≡ (10, 12) ∷ (12, 12) ∷ (20, 20) ∷ [])
    × (ordered 10 (Pool.deallocate_ip 12 ((10, 12) ∷ (20, 20) ∷ [])) ≡ false)
unfolding program
deallocate_ip_twice_example = deallocate_ip_twice 10 10 12 ((20, 20) ∷ []) refl (omega arith)

abbrev start : Session
start = record { pool = (10, 10) ∷ []; held = [] }

abbrev stop : Session
stop = record { pool = []; held = 10 ∷ [] }

start-IsSound : IsSound start
unfolding program
start-IsSound = record { in_order = refl; once = λ a. ground arith }

start-stop : Step start stop
unfolding program
start-stop = allocate start 7 10 [] refl

Reach-IsSound_example : IsSound stop × ((a : ℕ) → shares stop a ≡ shares start a)
Reach-IsSound_example = Reach-IsSound start-IsSound (next here start-stop)

abbrev subnet_map : List (Subnet × List Port)
subnet_map = (subnet, ports) ∷ []

abbrev ipam : Ipam
ipam = record { pool_map = (7, (10, 11) ∷ (13, 20) ∷ []) ∷ [] }

init-subnet_map : init library subnet_map ≡ ok ipam
unfolding program
init-subnet_map = refl

ipam-IsValid : IsValid ipam
unfolding program
ipam-IsValid = init-IsValid library subnet_map ipam (omega arith) init-subnet_map

init-IsValid_example : IsValid ipam
unfolding program
init-IsValid_example = init-IsValid library subnet_map ipam (omega arith) init-subnet_map

allocate_ip-IsValid_example : IsValid (allocate_ip library subnet (some 15) ipam).1
allocate_ip-IsValid_example = allocate_ip-IsValid library subnet ipam (some 15) ipam-IsValid

deallocate-allocate_example :
    lookup 7 (deallocate_ip library subnet 10 (allocate_ip library subnet none ipam).1).1.pool_map
    ≡ lookup 7 ipam.pool_map
unfolding program
deallocate-allocate_example = deallocate-allocate library subnet ipam 10 7 ipam-IsValid refl
