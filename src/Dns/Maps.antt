-- ===== src/Dns/Maps.antt =====
-- The dictionaries of `_full_sync_domain` of exordos_core/dns_sync/service.py, by the lists they are made of.
use exordos_core.Base.{
  ℕ, ◌≡◌, ◌⊎◌, inl, inr, refl, ◌==◌, true, false, none, some, List, [], ◌∷◌, arith, Bool-cases,
  IsIn,
}
use exordos_core.Base.Dict.{Dict, lookup, insert, lookup-insert}
use exordos_core.Dns.{Record, EcoRecord}
use exordos_core.Dns.Domains.{keys, has_key, local_map, eco_map}
use exordos_core.Dns.Created.{IsKeyed}

pub lookup-keys {ℓ} :
    {V : Type ℓ} (d : Dict V) (u : ℕ) (v : V) → lookup u d ≡ some v → IsIn u (keys d)
unfolding lookup keys
lookup-keys [] u v h = absurd (cc h)
lookup-keys ((k, w) ∷ d) u v h = elim (Bool-cases (k == u)) [
  | inl same ↦ inl (ground (arith, same))
  | inr other ↦ inr (lookup-keys d u v (ground (arith, other, h)))
]

pub has_key-some {ℓ} :
    {V : Type ℓ} (d : Dict V) (u : ℕ) (v : V) → lookup u d ≡ some v → has_key d u ≡ true
unfolding has_key
has_key-some d u v h = rw (h, has_key) refl

pub has_key-none {ℓ} : {V : Type ℓ} (d : Dict V) (u : ℕ) → lookup u d ≡ none → has_key d u ≡ false
unfolding has_key
has_key-none d u h = rw (h, has_key) refl

-- An element that no other one shadows is in the dictionary.
pub eco_map-lookup :
    (records : List EcoRecord) (d : Dict EcoRecord) (u : ℕ) (e : EcoRecord)
    → ((f : EcoRecord) → IsIn f records → f.uuid ≡ u → f ≡ e)
    → (IsIn e records × (e.uuid ≡ u)) ⊎ (lookup u d ≡ some e)
    → lookup u (eco_map records d) ≡ some e
unfolding eco_map
eco_map-lookup [] d u e only (inl here) = absurd here.0
eco_map-lookup [] d u e only (inr before) = before
eco_map-lookup (r ∷ records) d u e only there =
    eco_map-lookup records (insert r.uuid r d) u e (λ f i. only f (inr i))
      (elim (Bool-cases (r.uuid == u)) [
        | inl same ↦
            let is : r ≡ e = only r (inl refl) (ground (arith, same)) in
            inr (ground (arith, lookup-insert r.uuid u r d, same, is))
        | inr other ↦ elim there [
          | inr before ↦ inr (ground (arith, lookup-insert r.uuid u r d, other, before))
          | inl here ↦ elim here.0 [
            | inl is ↦ absurd (ground (arith, other, here.1, is))
            | inr later ↦ inl (later, here.1)
          ]
        ]
      ])

pub local_map-lookup :
    (records : List Record) (d : Dict Record) (r : Record)
    → ((q : Record) → IsIn q records → q.uuid ≡ r.uuid → q ≡ r)
    → IsIn r records ⊎ (lookup r.uuid d ≡ some r)
    → lookup r.uuid (local_map records d) ≡ some r
unfolding local_map
local_map-lookup [] d r only (inl here) = absurd here
local_map-lookup [] d r only (inr before) = before
local_map-lookup (q ∷ records) d r only there =
    local_map-lookup records (insert q.uuid q d) r (λ f i. only f (inr i))
      (elim (Bool-cases (q.uuid == r.uuid)) [
        | inl same ↦
            let is : q ≡ r = only q (inl refl) (ground (arith, same)) in
            inr (ground (arith, lookup-insert q.uuid r.uuid q d, same, is))
        | inr other ↦ elim there [
          | inr before ↦ inr (ground (arith, lookup-insert q.uuid r.uuid q d, other, before))
          | inl here ↦ elim here [
            | inl is ↦ absurd (ground (arith, other, is))
            | inr later ↦ inl later
          ]
        ]
      ])

pub local_map-IsIn :
    (records : List Record) (d : Dict Record) (u : ℕ) (r : Record)
    → lookup u (local_map records d) ≡ some r
    → (IsIn r records × (r.uuid ≡ u)) ⊎ (lookup u d ≡ some r)
unfolding local_map
local_map-IsIn [] d u r there = inr there
local_map-IsIn (q ∷ records) d u r there =
    elim (local_map-IsIn records (insert q.uuid q d) u r there) [
      | inl (inside, same) ↦ inl (inr inside, same)
      | inr before ↦ elim (Bool-cases (q.uuid == u)) [
        | inl same ↦
            let is : r ≡ q = ground (arith, lookup-insert q.uuid u q d, before, same) in
            inl (inl is, ground (arith, is, same))
        | inr other ↦ inr (ground (arith, lookup-insert q.uuid u q d, before, other))
      ]
    ]

pub local_map-IsKeyed : (records : List Record) → IsKeyed (local_map records [])
unfolding lookup
local_map-IsKeyed records u r there = elim (local_map-IsIn records [] u r there) [
  | inl (inside, same) ↦ same
  | inr nothing ↦ absurd (cc nothing)
]
