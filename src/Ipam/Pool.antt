-- ===== src/Ipam/Pool.antt =====
-- The address pool of exordos_core/network/ipam.py: a list of ranges of free addresses, each with
-- its first and last address. An address is the number that `int(netaddr.IPAddress(...))` gives.
use exordos_core.Base.{
  ℕ, ◌+◌, ◌-◌, ◌≤◌, ◌≡◌, refl, Bool, true, false, ◌&&◌, ◌||◌, List, [], ◌∷◌, arith, ltb, leb, ◌==◌,
  if◌then◌else◌,
}

abbrev pub AddressPool : Type 0
AddressPool = List (ℕ × ℕ)

-- `Ipam.occupy_ip`: the loop over the ranges, which returns at the first one that it changes.
unfoldable pub occupy_ip : ℕ → AddressPool → AddressPool
occupy_ip address [] = []
occupy_ip address ((s, e) ∷ rest) =
    let others = (s, e) ∷ occupy_ip address rest in
    if s == e && s == address
    then rest
    else if address == s
    then (s + 1, e) ∷ rest
    else if address == e
    then (s, e - 1) ∷ rest
    else if ltb s address && ltb address e
    then (s, address - 1) ∷ (address + 1, e) ∷ rest
    else others

-- The branch `address == e + 1` of `Ipam.deallocate_ip`, with the merge into the next range.
unfoldable pub extend_end : ℕ → ℕ → AddressPool → AddressPool
extend_end s address [] = (s, address) ∷ []
extend_end s address ((next_start, next_end) ∷ rest) =
    if next_start == address + 1
    then (s, next_end) ∷ rest
    else (s, address) ∷ (next_start, next_end) ∷ rest

-- `Ipam.deallocate_ip` on the pool. `address < s - 1` and `address == s - 1` are written with the
-- 1 on the left, since the source subtracts integers.
unfoldable pub deallocate_ip : ℕ → AddressPool → AddressPool
deallocate_ip address [] = (address, address) ∷ []
deallocate_ip address ((s, e) ∷ rest) =
    let others = (s, e) ∷ deallocate_ip address rest in
    if ltb (address + 1) s
    then (address, address) ∷ (s, e) ∷ rest
    else if address + 1 == s
    then (address, e) ∷ rest
    else if address == e + 1
    then extend_end s address rest
    else if ltb s address && ltb address e
    then (s, e) ∷ rest
    else others

-- Whether an address is free, that is, in one of the ranges.
unfoldable pub free : ℕ → AddressPool → Bool
free x [] = false
free x ((s, e) ∷ rest) = (leb s x && leb x e) || free x rest

-- The ranges are not empty, start at `lo` or later, and stand in order with a gap between them.
unfoldable pub ordered : ℕ → AddressPool → Bool
ordered lo [] = true
ordered lo ((s, e) ∷ rest) = leb lo s && leb s e && ordered (e + 2) rest

abbrev pub IsOrdered : ℕ → AddressPool → Type 0
IsOrdered lo p = ordered lo p ≡ true

-- No address below the bound is free.
pub free-below : (lo x : ℕ) (p : AddressPool) → IsOrdered lo p → x + 1 ≤ lo → free x p ≡ false
unfolding free ordered
free-below lo x [] h lt = refl
free-below lo x ((s, e) ∷ rest) h lt = ground (arith, free-below (e + 2) x rest)

pub IsOrdered-le : (a b : ℕ) (p : AddressPool) → a ≤ b → IsOrdered b p → IsOrdered a p
unfolding ordered
IsOrdered-le a b [] h k = refl
IsOrdered-le a b ((s, e) ∷ rest) h k = ground arith

pub occupy_ip-IsOrdered :
    (lo a : ℕ) (p : AddressPool) → IsOrdered lo p → IsOrdered lo (occupy_ip a p)
unfolding occupy_ip ordered
occupy_ip-IsOrdered lo a [] h = refl
occupy_ip-IsOrdered lo a ((s, e) ∷ rest) h = ground (
  arith,
  occupy_ip-IsOrdered (e + 2) a rest,
  IsOrdered-le lo (e + 2) rest,
  IsOrdered-le (e - 1 + 2) (e + 2) rest,
)

pub free-occupy_ip :
    (lo a x : ℕ) (p : AddressPool)
    → IsOrdered lo p
    → free x (occupy_ip a p) ≡ (if x == a then false else free x p)
unfolding occupy_ip free ordered
free-occupy_ip lo a x [] h = ground arith
free-occupy_ip lo a x ((s, e) ∷ rest) h =
    ground
      (arith, free-occupy_ip (e + 2) a x rest, free-below (e + 2) x rest, free-below (e + 2) a rest)

extend_end-IsOrdered :
    (lo s a : ℕ) (rest : AddressPool)
    → lo ≤ s
    → s ≤ a
    → IsOrdered (a + 1) rest
    → IsOrdered lo (extend_end s a rest)
unfolding extend_end ordered
extend_end-IsOrdered lo s a [] k l h = ground arith
extend_end-IsOrdered lo s a ((s', e') ∷ rest) k l h = ground arith

free-extend_end :
    (s a x : ℕ) (rest : AddressPool)
    → s ≤ a
    → IsOrdered (a + 1) rest
    → free x (extend_end s a rest) ≡ ((leb s x && leb x a) || free x rest)
unfolding extend_end ordered free
free-extend_end s a x [] l h = ground arith
free-extend_end s a x ((s', e') ∷ rest) l h = ground arith

pub deallocate_ip-IsOrdered :
    (lo a : ℕ) (p : AddressPool)
    → lo ≤ a
    → IsOrdered lo p
    → free a p ≡ false
    → IsOrdered lo (deallocate_ip a p)
unfolding deallocate_ip ordered free
deallocate_ip-IsOrdered lo a [] k h f = ground arith
deallocate_ip-IsOrdered lo a ((s, e) ∷ rest) k h f = ground (
  arith,
  deallocate_ip-IsOrdered (e + 2) a rest,
  extend_end-IsOrdered lo s a rest,
  IsOrdered-le lo (e + 2) rest,
)

pub free-deallocate_ip :
    (lo a x : ℕ) (p : AddressPool)
    → IsOrdered lo p
    → free x (deallocate_ip a p) ≡ (if x == a then true else free x p)
unfolding deallocate_ip free ordered
free-deallocate_ip lo a x [] h = ground arith
free-deallocate_ip lo a x ((s, e) ∷ rest) h =
    ground (arith, free-deallocate_ip (e + 2) a x rest, free-extend_end s a x rest)
