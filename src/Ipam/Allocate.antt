-- ===== src/Ipam/Allocate.antt =====
-- `Ipam.allocate_ip` on the pool of a subnet: which address it takes, and when it fails.
use exordos_core.Base.{
  ℕ, ◌+◌, ◌≤◌, ◌≡◌, refl, ◌==◌, inl, inr, Bool-cases, true, false, none, some, [], ◌∷◌, arith,
  if◌then◌else◌,
}
use exordos_core.Base.Result.{ok, err}
use exordos_core.Ipam.{IpamError, no_ips_available, take_ip}
use exordos_core.Ipam.Pool.{
  AddressPool, occupy_ip, deallocate_ip, free, ordered, IsOrdered, IsOrdered-le, free-below,
  occupy_ip-IsOrdered, free-occupy_ip, free-deallocate_ip, deallocate_ip-IsOrdered,
}
use exordos_core.Ipam.Canonical.{pool_ext}

-- What it means that `ip` was taken from `p` and `p'` is left.
pub record IsTaken (lo ip : ℕ) (p p' : AddressPool) : Type 0 where
  pub was_free : free ip p ≡ true
  pub lowest : (x : ℕ) → free x p ≡ true → ip ≤ x
  pub kept_order : IsOrdered lo p'
  pub left : (x : ℕ) → free x p' ≡ (if x == ip then false else free x p)

pub take_ip-IsTaken :
    (lo u ip : ℕ) (p p' : AddressPool)
    → IsOrdered lo p
    → take_ip u none p ≡ ok (ip, p')
    → IsTaken lo ip p p'
unfolding take_ip
take_ip-IsTaken lo u ip [] p' h t = cc
take_ip-IsTaken lo u ip ((s, e) ∷ rest) p' h t = record {
  was_free = unfold free ordered in ground arith;
  lowest = λ x f. unfold free ordered in ground (arith, free-below (e + 2) x rest);
  kept_order = unfold ordered in ground (arith, IsOrdered-le lo (e + 2) rest);
  left = λ x. unfold free ordered in ground (arith, free-below (e + 2) x rest);
}

-- The same of an allocation with a target, except that the target is taken whether or not it is free.
pub take_ip_target :
    (lo u ip t : ℕ) (p p' : AddressPool)
    → IsOrdered lo p
    → take_ip u (some t) p ≡ ok (ip, p')
    → (ip ≡ t) × IsOrdered lo p' × ((x : ℕ) → free x p' ≡ (if x == t then false else free x p))
unfolding take_ip
take_ip_target lo u ip t [] p' h e = cc
take_ip_target lo u ip t (r ∷ rest) p' h e = (
  ground arith,
  ground (arith, occupy_ip-IsOrdered lo t (r ∷ rest) h),
  λ x. ground (arith, free-occupy_ip lo t x (r ∷ rest) h),
)

-- `allocate_ip` takes some address whenever one is free; it fails only with the exception for an
-- empty pool, and then no address is free.
pub take_ip_total :
    (lo u : ℕ) (p : AddressPool)
    → IsOrdered lo p
    → ((x : ℕ) → free x p ≡ true → (r : ℕ × AddressPool) × (take_ip u none p ≡ ok r))
      × ((e : IpamError)
          → take_ip u none p ≡ err e
          → (e ≡ no_ips_available u) × ((x : ℕ) → free x p ≡ false))
unfolding take_ip free
take_ip_total lo u [] h = (λ x f. cc, λ e t. (cc, λ x. refl))
take_ip_total lo u ((s, e) ∷ rest) h = (
  λ x f. elim (Bool-cases (s == e)) [
    | inl same ↦ ((s, rest), rw same)
    | inr more ↦ ((s, (s + 1, e) ∷ rest), rw more)
  ],
  λ e t. absurd (ground arith),
)

-- The pools before and after an address left: giving it back restores the first.
module _ (lo a : ℕ) (p p' : AddressPool) (h : IsOrdered lo p) (h' : IsOrdered lo p')
    (f : free a p ≡ true) (left : (x : ℕ) → free x p' ≡ (if x == a then false else free x p)) where
  deallocate_ip_restores : deallocate_ip a p' ≡ p
  deallocate_ip_restores =
      pool_ext lo (deallocate_ip a p') p
        (deallocate_ip-IsOrdered lo a p' (ground (arith, f, free-below lo a p h)) h'
          (ground (arith, left a)))
        h (λ x. ground (arith, free-deallocate_ip lo a x p' h', left x, f))

-- Giving back an address that was allocated restores the pool itself, not only the free addresses.
pub deallocate-take :
    (lo u ip : ℕ) (p p' : AddressPool)
    → IsOrdered lo p
    → take_ip u none p ≡ ok (ip, p')
    → deallocate_ip ip p' ≡ p
deallocate-take lo u ip p p' h t =
    let taken = take_ip-IsTaken lo u ip p p' h t in
    deallocate_ip_restores lo ip p p' h taken.kept_order taken.was_free taken.left

-- The same for an address that a port occupies.
pub deallocate-occupy :
    (lo a : ℕ) (p : AddressPool)
    → IsOrdered lo p
    → free a p ≡ true
    → deallocate_ip a (occupy_ip a p) ≡ p
deallocate-occupy lo a p h f =
    deallocate_ip_restores lo a p (occupy_ip a p) h (occupy_ip-IsOrdered lo a p h) f
      (λ x. free-occupy_ip lo a x p h)

-- The last address of a range of two or more is free. When it is given back all the same, it
-- becomes a second range: it is free twice, and the pool is no longer in order.
pub deallocate_ip_twice :
    (lo s e : ℕ) (rest : AddressPool)
    → IsOrdered lo ((s, e) ∷ rest)
    → s + 1 ≤ e
    → (deallocate_ip e ((s, e) ∷ rest) ≡ (s, e) ∷ (e, e) ∷ rest)
      × (ordered lo (deallocate_ip e ((s, e) ∷ rest)) ≡ false)
unfolding deallocate_ip ordered
deallocate_ip_twice lo s e [] k h = (ground arith, ground arith)
deallocate_ip_twice lo s e ((s', e') ∷ rest) k h = (ground arith, ground arith)
