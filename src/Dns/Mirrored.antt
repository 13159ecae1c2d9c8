-- ===== src/Dns/Mirrored.antt =====
-- The specification of `_full_sync_domain` of exordos_core/dns_sync/service.py: the rows of the realm in the
-- zone are the local records.
use exordos_core.Base.{
  ℕ, ◌≡◌, inl, inr, ap, ◌∙◌, Bool, true, not, Option, none, some, List, filter, arith, Option-cases,
  IsIn, filter-IsIn, IsIn-filter,
}
use exordos_core.Base.Dict.{Dict, lookup}
use exordos_core.Dns.{Record, EcoRecord, is_own, build_record_data}
use exordos_core.Dns.Server.{Server, IsServer}
use exordos_core.Dns.Domains.{keys, has_key, delete_extra, reconcile}
use exordos_core.Dns.Reliable.{IsFree, IsReliable, IsHeld, IsHeld-≡}
use exordos_core.Dns.Created.{IsKeyed, create_missing-apart, create_missing_now}
use exordos_core.Dns.Settled.{update_common_held, update_common_now}
use exordos_core.Dns.Deleted.{delete_extra-apart, delete_extra_now}
use exordos_core.Dns.Maps.{lookup-keys, has_key-some, has_key-none}

-- An order in which Python goes over a set has the elements of the set.
abbrev pub IsOrder : (List ℕ → List ℕ) → Type 0
IsOrder order =
    (us : List ℕ) (u : ℕ) → (IsIn u us → IsIn u (order us)) × (IsIn u (order us) → IsIn u us)

module _ {S : Type 0} (server : Server S) (row : S → (domain uuid : ℕ) → Option EcoRecord)
    (laws : IsServer server row) (order : List ℕ → List ℕ) (ordered : IsOrder order) (tag d : ℕ)
    (sure : IsReliable server row d) (locals : Dict Record) (ecos : Dict EcoRecord)
    (keyed : IsKeyed locals) where
  abbrev IsMirror : Record → S → Type 0
  IsMirror r s = IsHeld server row laws tag d sure (build_record_data r (some tag)) s

  -- A dictionary that shows the rows of the zone with the mark alone as they stand.
  abbrev pub IsShown : S → Type 0
  IsShown s = (u : ℕ) (e : EcoRecord) → lookup u ecos ≡ some e → row s d u ≡ some e

  not-true : (b : Bool) → b ≡ true → not b ≡ true → ⊥
  not-true b h k = ground (arith, h, k)

  -- The last loop leaves the rows of local records.
  deleted_others :
      (r : Record) (s : S)
      → lookup r.uuid locals ≡ some r
      → IsMirror r s
      → IsMirror r (
          delete_extra server d
            (some tag)
            ecos
            (order (filter (λ (u : ℕ). not (has_key locals u)) (keys ecos)))
            s)
  unfolding build_record_data
  deleted_others r s given held =
      IsHeld-≡ server row laws tag d sure (build_record_data r (some tag)) s _
        (delete_extra-apart server row laws tag d sure ecos _ r.uuid s (λ i.
          let (inside, other) =
            IsIn-filter (λ (u : ℕ). not (has_key locals u)) r.uuid (keys ecos)
              ((ordered (filter (λ (u : ℕ). not (has_key locals u)) (keys ecos)) r.uuid).1 i) in
          not-true (has_key locals r.uuid) (has_key-some locals r.uuid r given) other))
        held

  absent : (r : Record) (s : S) → IsShown s → IsFree row s r.uuid → lookup r.uuid ecos ≡ none
  absent r s shown free = elim (Option-cases (lookup r.uuid ecos)) [
    | inl missing ↦ missing
    | inr (e, there) ↦ absurd (ground (arith, shown r.uuid e there, free d))
  ]

  pub reconcile_free :
      (r : Record) (s : S)
      → IsShown s
      → lookup r.uuid locals ≡ some r
      → IsFree row s r.uuid
      → IsMirror r (reconcile server order d (some tag) locals ecos s)
  unfolding reconcile build_record_data
  reconcile_free r s shown given free = deleted_others r _ given (
      update_common_held server row laws tag d sure locals ecos keyed _ r _ given (
        create_missing_now server row laws tag d sure locals ecos keyed _ r s given
          ((ordered (filter (λ (u : ℕ). not (has_key ecos u)) (keys locals)) r.uuid).0 (
            filter-IsIn (λ (u : ℕ). not (has_key ecos u)) r.uuid (keys locals)
              (lookup-keys locals r.uuid r given)
              (ap not (has_key-none ecos r.uuid (absent r s shown free)))))
          (inl free)))

  pub reconcile_own :
      (r : Record) (e : EcoRecord) (s : S)
      → IsShown s
      → lookup r.uuid locals ≡ some r
      → lookup r.uuid ecos ≡ some e
      → is_own tag e ≡ true
      → IsMirror r (reconcile server order d (some tag) locals ecos s)
  unfolding reconcile
  reconcile_own r e s shown given eco own = deleted_others r _ given (
      update_common_now server row laws tag d sure locals ecos keyed _ r e _ given eco own
        ((ordered (filter (λ (u : ℕ). has_key ecos u) (keys locals)) r.uuid).0 (
          filter-IsIn (λ (u : ℕ). has_key ecos u) r.uuid (keys locals)
            (lookup-keys locals r.uuid r given) (has_key-some ecos r.uuid e eco)))
        (inl (
          create_missing-apart server row laws tag d sure locals ecos keyed _ r.uuid d s (λ i.
            let (inside, other) =
              IsIn-filter (λ (u : ℕ). not (has_key ecos u)) r.uuid (keys locals)
                ((ordered (filter (λ (u : ℕ). not (has_key ecos u)) (keys locals)) r.uuid).1 i) in
            absurd (not-true (has_key ecos r.uuid) (has_key-some ecos r.uuid e eco) other))
          ∙ shown r.uuid e eco)))

  pub reconcile_gone :
      (u : ℕ) (e : EcoRecord) (s : S)
      → lookup u locals ≡ none
      → lookup u ecos ≡ some e
      → is_own tag e ≡ true
      → row (reconcile server order d (some tag) locals ecos s) d u ≡ none
  unfolding reconcile
  reconcile_gone u e s missing eco own =
      delete_extra_now server row laws tag d sure ecos _ u e _ eco own (
        (ordered (filter (λ (v : ℕ). not (has_key locals v)) (keys ecos)) u).0 (
          filter-IsIn (λ (v : ℕ). not (has_key locals v)) u (keys ecos) (lookup-keys ecos u e eco)
            (ap not (has_key-none locals u missing))))
