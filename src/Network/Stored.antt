-- ===== src/Network/Stored.antt =====
-- The ports that exordos_core/network/service.py has stored, and who uses which address.
use exordos_core.Base.{
  map, ℕ, ◌+◌, ◌≤◌, ◌≡◌, refl, ap, ◌==◌, Bool, ◌&&◌, none, some, List, [], ◌∷◌, ◌++◌, arith,
  if◌then◌else◌,
}
use exordos_core.Ipam.{Ipam}
use exordos_core.Ipam.State.{IsValid}
use exordos_core.Ipam.View.{free_at}
use exordos_core.Network.{NetPort, Insert, inserted, value_error, other_error, Node, State, Env}

-- The owner of the port behind the `try` statement, if it was inserted.
abbrev pub kept : Insert → ℕ → List ℕ
kept inserted u = u ∷ []
kept value_error u = []
kept other_error u = []

-- The nodes whose port can be inserted, in order.
abbrev pub placed : List Node → List ℕ
placed [] = []
placed (node ∷ nodes) = kept node.insert node.uuid ++ placed nodes

abbrev pub owners : List NetPort → List ℕ
owners ports = map (λ p. p.owner) ports

pub owners-append :
    (ports : List NetPort) (p : NetPort) → owners (ports ++ p ∷ []) ≡ owners ports ++ p.owner ∷ []
owners-append [] p = refl
owners-append (q ∷ ports) p = ap (λ (us : List ℕ). q.owner ∷ us) (owners-append ports p)

-- A node with no target address.
abbrev pub IsUntargeted : Node → Type 0
IsUntargeted node = node.target_ipv4 ≡ none

module _ (env : Env) where
  -- Whether the port has this address of the subnet with this key.
  unfoldable pub has : ℕ → ℕ → NetPort → Bool
  has k a p = env.library.identity p.subnet == k && a == p.ipv4

  -- How many of the ports have it.
  unfoldable pub uses : ℕ → ℕ → List NetPort → ℕ
  unfolding has
  uses k a [] = 0
  uses k a (p ∷ ports) = (if has k a p then 1 else 0) + uses k a ports

  pub uses-append :
      (k a : ℕ) (ports : List NetPort) (p : NetPort)
      → uses k a (ports ++ p ∷ []) ≡ uses k a ports + (if has k a p then 1 else 0)
  unfolding uses
  uses-append k a [] p = ground arith
  uses-append k a (q ∷ ports) p = ground (arith, uses-append k a ports p)

  -- `ipam` is made and its pools are in order; an address of a subnet has at most one stored port,
  -- and none while it is free.
  pub record IsSound (s : State) : Type 0 where
    pub ipam : Ipam
    pub made : s.ipam ≡ some ipam
    pub valid : IsValid ipam
    pub once : (k a : ℕ) → uses k a s.stored + (if free_at k a ipam then 1 else 0) ≤ 1
