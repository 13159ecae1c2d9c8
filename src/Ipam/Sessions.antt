-- ===== src/Ipam/Sessions.antt =====
-- Callers that allocate addresses from one pool and give back only what they hold.
use exordos_core.Base.{
  ℕ, ◌+◌, ◌≤◌, ◌≡◌, ap, ◌∙◌, refl, ◌==◌, true, false, none, some, List, [], ◌∷◌, ◌++◌, arith,
  if◌then◌else◌,
}
use exordos_core.Base.Result.{ok}
use exordos_core.Ipam.{take_ip}
use exordos_core.Ipam.Pool.{
  AddressPool, deallocate_ip, free, IsOrdered, free-deallocate_ip, deallocate_ip-IsOrdered,
}
use exordos_core.Ipam.Allocate.{take_ip-IsTaken, take_ip_target}

-- The pool, and the addresses that are handed out.
pub record Session : Type 0 where
  pub pool : AddressPool
  pub held : List ℕ

-- How often an address is handed out.
unfoldable pub count : ℕ → List ℕ → ℕ
count a [] = 0
count a (x ∷ xs) = (if x == a then 1 else 0) + count a xs

-- `allocate_ip` with no target, with a target that is free, and `deallocate_ip` of a held address.
pub data Step : Session → Session → Type 0 where
  allocate :
      (t : Session) (u ip : ℕ) (p : AddressPool)
      → take_ip u none t.pool ≡ ok (ip, p)
      → Step t (record { pool = p; held = ip ∷ t.held })
  allocate_target :
      (t : Session) (u ip : ℕ) (p : AddressPool)
      → free ip t.pool ≡ true
      → take_ip u (some ip) t.pool ≡ ok (ip, p)
      → Step t (record { pool = p; held = ip ∷ t.held })
  deallocate :
      (t : Session) (ip : ℕ) (before after : List ℕ)
      → t.held ≡ before ++ ip ∷ after
      → Step t (record { pool = deallocate_ip ip t.pool; held = before ++ after })

pub data Reach (s : Session) : Session → Type 0 where
  here : Reach s s
  next : {t u : Session} → Reach s t → Step t u → Reach s u

-- How often an address stands in a session: in the hands of callers, and in the pool.
abbrev pub shares : Session → ℕ → ℕ
shares s a = count a s.held + (if free a s.pool then 1 else 0)

-- The pool is in order, and no address is there twice.
pub record IsSound (s : Session) : Type 0 where
  pub in_order : IsOrdered 0 s.pool
  pub once : (a : ℕ) → shares s a ≤ 1

count-append : (a : ℕ) (xs ys : List ℕ) → count a (xs ++ ys) ≡ count a xs + count a ys
unfolding count
count-append a [] ys = ground arith
count-append a (x ∷ xs) ys = ground (arith, count-append a xs ys)

count-middle :
    (a x : ℕ) (xs ys : List ℕ)
    → count a (xs ++ x ∷ ys) ≡ (if x == a then 1 else 0) + count a (xs ++ ys)
unfolding count
count-middle a x xs ys = ground (arith, count-append a xs (x ∷ ys), count-append a xs ys)

-- A held address is not free.
held-not-free :
    (s : Session) (ip : ℕ) (before after : List ℕ)
    → IsSound s
    → s.held ≡ before ++ ip ∷ after
    → free ip s.pool ≡ false
held-not-free s ip before after v e =
    ground (arith, v.once ip, ap (count ip) e, count-middle ip ip before after)

Step-in_order : {s t : Session} → Step s t → IsSound s → IsOrdered 0 t.pool
Step-in_order (allocate s u ip p t) v = (take_ip-IsTaken 0 u ip s.pool p v.in_order t).kept_order
Step-in_order (allocate_target s u ip p f t) v = (take_ip_target 0 u ip ip s.pool p v.in_order t).1
Step-in_order (deallocate s ip before after e) v =
    deallocate_ip-IsOrdered 0 ip s.pool (omega arith) v.in_order
      (held-not-free s ip before after v e)

Step-shares : {s t : Session} → Step s t → IsSound s → (a : ℕ) → shares t a ≡ shares s a
Step-shares (allocate s u ip p t) v a =
    let taken = take_ip-IsTaken 0 u ip s.pool p v.in_order t in
    unfold count in ground (arith, taken.left a, taken.was_free)
Step-shares (allocate_target s u ip p f t) v a =
    let taken = take_ip_target 0 u ip ip s.pool p v.in_order t in
    unfold count in ground (arith, taken.2 a, f)
Step-shares (deallocate s ip before after e) v a = ground (
  arith,
  free-deallocate_ip 0 ip a s.pool v.in_order,
  held-not-free s ip before after v e,
  ap (count a) e,
  count-middle a ip before after,
)

Step-IsSound : {s t : Session} → Step s t → IsSound s → IsSound t
Step-IsSound {s} {t} st v = record {
  in_order = Step-in_order st v;
  once = λ a. rw (Step-shares st v a) (v.once a);
}

-- Whatever the order of allocations and releases from a sound start, the pool stays in order, no
-- address is held twice or held while free, and none is lost: each stands in the session as often
-- as at the start.
pub Reach-IsSound :
    {s t : Session} → IsSound s → Reach s t → IsSound t × ((a : ℕ) → shares t a ≡ shares s a)
Reach-IsSound v here = (v, λ a. refl)
Reach-IsSound v (next r st) =
    let (w, same) = Reach-IsSound v r in (Step-IsSound st w, λ a. Step-shares st w a ∙ same a)
