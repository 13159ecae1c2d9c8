-- ===== src/Ipam/View.antt =====
-- An `Ipam` as a set of free addresses for each subnet, and what its methods do to that set.
use exordos_core.Base.{
  ℕ, ◌≡◌, refl, ◌==◌, Bool, true, false, ◌&&◌, Option, none, some, arith, if◌then◌else◌,
  Option-cases, inl, inr,
}
use exordos_core.Base.Dict.{lookup, lookup-insert, lookup-insert_self}
use exordos_core.Base.Result.{ok}
use exordos_core.Ipam.{Ipam, Subnet, Library, allocate_ip, deallocate_ip}
use exordos_core.Ipam.Pool
use exordos_core.Ipam.Pool.{
  AddressPool, free, IsOrdered, free-deallocate_ip, deallocate_ip-IsOrdered,
}
use exordos_core.Ipam.Allocate.{take_ip-IsTaken, take_ip_total}
use exordos_core.Ipam.State.{IsValid, insert-IsValid, allocate_ip-eq-ok, deallocate_ip-known}

abbrev free_in : ℕ → Option AddressPool → Bool
free_in a none = false
free_in a (some p) = free a p

-- Whether the address is free in the subnet with this key.
unfoldable pub free_at : ℕ → ℕ → Ipam → Bool
free_at k a ipam = free_in a (lookup k ipam.pool_map)

module _ (lib : Library) (subnet : Subnet) (ipam : Ipam) (v : IsValid ipam) where
  -- A successful allocation with no target takes one address of its subnet, which was free.
  pub free_at-allocate :
      (ip : ℕ)
      → (allocate_ip lib subnet none ipam).0 ≡ ok ip
      → (free_at (lib.identity subnet) ip ipam ≡ true)
        × ((k a : ℕ)
            → free_at k a (allocate_ip lib subnet none ipam).1
              ≡ (if lib.identity subnet == k && a == ip then false else free_at k a ipam))
  unfolding free_at
  free_at-allocate ip e =
      let (p, p', found, taken, after) = allocate_ip-eq-ok lib subnet ipam none ip e in
      let t = take_ip-IsTaken 0 subnet.uuid ip p p' (v.pools _ p found) taken in
      (rw found t.was_free, λ k a. rw (after, lookup-insert) (ground (arith, found, t.left a)))

  -- An address that is not free is free after it is given back, and nothing else changes.
  pub free_at-deallocate :
      (a : ℕ) (p : AddressPool)
      → lookup (lib.identity subnet) ipam.pool_map ≡ some p
      → free_at (lib.identity subnet) a ipam ≡ false
      → IsValid (deallocate_ip lib subnet a ipam).1
        × ((deallocate_ip lib subnet a ipam).0 ≡ ok tt)
        × ((k x : ℕ)
            → free_at k x (deallocate_ip lib subnet a ipam).1
              ≡ (if lib.identity subnet == k && x == a then true else free_at k x ipam))
  unfolding free_at
  free_at-deallocate a p found f =
      let h = v.pools (lib.identity subnet) p found in
      let h' = deallocate_ip-IsOrdered 0 a p (omega arith) h (ground (arith, found, f)) in
      rw (deallocate_ip-known lib subnet ipam a p found) (
        insert-IsValid (lib.identity subnet) (Pool.deallocate_ip a p) ipam h' v,
        refl,
        λ k x. rw lookup-insert (ground (arith, found, free-deallocate_ip 0 a x p h)),
      )

  pub known-allocate :
      (ip : ℕ)
      → (allocate_ip lib subnet none ipam).0 ≡ ok ip
      → (p : AddressPool) × (lookup
            (lib.identity subnet)
            (allocate_ip lib subnet none ipam).1.pool_map
          ≡ some p)
  known-allocate ip e =
      let (p, p', found, taken, after) = allocate_ip-eq-ok lib subnet ipam none ip e in
      (p', rw (after, lookup-insert_self))

  -- An allocation with no target succeeds while the subnet has a free address.
  pub allocate_ip_total :
      (a : ℕ)
      → free_at (lib.identity subnet) a ipam ≡ true
      → (ip : ℕ) × ((allocate_ip lib subnet none ipam).0 ≡ ok ip)
  unfolding free_at allocate_ip
  allocate_ip_total a f = elim (Option-cases (lookup (lib.identity subnet) ipam.pool_map)) [
    | inl missing ↦ absurd (ground (arith, missing, f))
    | inr (p, found) ↦
        let ((ip, p'), taken) =
          (take_ip_total 0 subnet.uuid p (v.pools _ p found)).0 a (ground (arith, found, f)) in
        (ip, ground (arith, found, taken))
  ]
