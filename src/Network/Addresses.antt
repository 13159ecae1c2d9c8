-- ===== src/Network/Addresses.antt =====
-- The addresses that the loops of exordos_core/network/service.py give to ports.
use exordos_core.Base.{false, ℕ, ◌≡◌, ◌==◌, true, List, [], ◌∷◌, All}
use exordos_core.Ipam.{Ipam}
use exordos_core.Ipam.View.{free_at}

-- Different free addresses of the subnet with this key.
abbrev pub IsSpare : ℕ → Ipam → List ℕ → Type 0
IsSpare k ipam [] = Unit
IsSpare k ipam (a ∷ spare) =
    (free_at k a ipam ≡ true) × All (λ b. (b == a) ≡ false) spare × IsSpare k ipam spare
