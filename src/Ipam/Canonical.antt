-- ===== src/Ipam/Canonical.antt =====
-- Pools of exordos_core/network/ipam.py that have the same free addresses.
use exordos_core.Base.{ℕ, ◌+◌, ◌≤◌, ◌≡◌, refl, sym, [], ◌∷◌, arith}
use exordos_core.Ipam.Pool.{AddressPool, free, ordered, IsOrdered, free-below}

abbrev pub SameFree : AddressPool → AddressPool → Type 0
SameFree p q = (x : ℕ) → free x p ≡ free x q

module _ (lo s e s' e' : ℕ) (p q : AddressPool) (h : IsOrdered lo ((s, e) ∷ p))
    (k : IsOrdered lo ((s', e') ∷ q)) (same : SameFree ((s, e) ∷ p) ((s', e') ∷ q)) where
  first_le : s' ≤ s
  unfolding free ordered
  first_le = ground (arith, h, k, same s, free-below (e' + 2) s q)

  last_le : s ≡ s' → e ≤ e'
  unfolding free ordered
  last_le first = ground (arith, h, k, same (e' + 1), free-below (e' + 2) (e' + 1) q)

  same_tail : s ≡ s' → e ≡ e' → SameFree p q
  unfolding free ordered
  same_tail first last x =
      ground (arith, h, k, same x, free-below (e + 2) x p, free-below (e + 2) x q)

  IsOrdered-tail : IsOrdered (e + 2) p
  unfolding ordered
  IsOrdered-tail = ground (arith, h)

-- An ordered pool is determined by its free addresses.
pub pool_ext : (lo : ℕ) (p q : AddressPool) → IsOrdered lo p → IsOrdered lo q → SameFree p q → p ≡ q
pool_ext lo [] [] h k same = refl
pool_ext lo [] ((s, e) ∷ q) h k same = unfold free ordered in ground (arith, same s)
pool_ext lo ((s, e) ∷ p) [] h k same = unfold free ordered in ground (arith, same s)
pool_ext lo ((s, e) ∷ p) ((s', e') ∷ q) h k same =
    let back = λ (x : ℕ). sym (same x) in
    let first : s ≡ s' =
      omega (arith, first_le lo s e s' e' p q h k same, first_le lo s' e' s e q p k h back) in
    let last : e ≡ e' = omega (
      arith,
      last_le lo s e s' e' p q h k same first,
      last_le lo s' e' s e q p k h back (sym first),
    ) in
    let rest =
      pool_ext (e + 2) p q (IsOrdered-tail lo s e s' e' p q h k same)
        (ground (arith, last, IsOrdered-tail lo s' e' s e q p k h back))
        (same_tail lo s e s' e' p q h k same first last) in
    cc (first, last, rest)
