-- ===== src/Dns/Created.antt =====
-- The first loop of `_full_sync_domain` of exordos_core/dns_sync/service.py, at a server that carries out each
-- request.
use exordos_core.Base.{
  ℕ, ◌≡◌, ◌⊎◌, inl, inr, refl, sym, ◌∙◌, subst, ◌==◌, false, Option, none, some, List, [], ◌∷◌,
  arith, Bool-cases, Option-cases, IsIn,
}
use exordos_core.Base.Dict.{Dict, lookup}
use exordos_core.Dns.{Record, EcoRecord, build_record_data}
use exordos_core.Dns.Server.{Server, IsServer}
use exordos_core.Dns.Calls.{eco_create_record}
use exordos_core.Dns.Domains.{create_missing}
use exordos_core.Dns.Marks.{build-single_mark}
use exordos_core.Dns.Reliable.{IsFree, IsReliable, IsHeld, IsHeld-≡, create-IsHeld, create-apart}

-- Each record is under its uuid.
abbrev pub IsKeyed : Dict Record → Type 0
IsKeyed locals = (u : ℕ) (r : Record) → lookup u locals ≡ some r → r.uuid ≡ u

module _ {S : Type 0} (server : Server S) (row : S → (domain uuid : ℕ) → Option EcoRecord)
    (laws : IsServer server row) (tag d : ℕ) (sure : IsReliable server row d) (locals : Dict Record)
    (ecos : Dict EcoRecord) (keyed : IsKeyed locals) where
  abbrev pub data_of : Record → EcoRecord
  data_of r = build_record_data r (some tag)

  abbrev pub IsMirror : Record → S → Type 0
  IsMirror r s = IsHeld server row laws tag d sure (data_of r) s

  -- One step of the first loop, for the record under `v`, as the row under `u` sees it.
  create_apart :
      (v u : ℕ) (r : Record) (s : S) (d' : ℕ)
      → lookup v locals ≡ some r
      → (u == v) ≡ false
      → row (eco_create_record server d (data_of r) s).1 d' u ≡ row s d' u
  unfolding build_record_data
  create_apart v u r s d' found apart =
      create-apart server row laws tag d sure (data_of r) s d' u
        (ground (arith, apart, keyed v r found))

  pub keys_apart :
      (v u : ℕ) (r : Record)
      → lookup v locals ≡ some r
      → (u ≡ v → lookup u locals ≡ none)
      → (u == v) ≡ false
  keys_apart v u r found out = elim (Bool-cases (u == v)) [
    | inr apart ↦ apart
    | inl same ↦ let is : u ≡ v = ground (arith, same) in absurd (ground (arith, out is, found, is))
  ]

  -- What is not in the local map is not touched by the first loop.
  pub create_missing-apart :
      (us : List ℕ) (u d' : ℕ) (s : S)
      → (IsIn u us → lookup u locals ≡ none)
      → row (create_missing server d (some tag) locals us s) d' u ≡ row s d' u
  unfolding create_missing
  create_missing-apart [] u d' s out = refl
  create_missing-apart (v ∷ us) u d' s out = elim (Option-cases (lookup v locals)) [
    | inl missing ↦ rw (missing, create_missing) (create_missing-apart us u d' s (λ i. out (inr i)))
    | inr (r, found) ↦
        rw (found, create_missing)
          (create_missing-apart us u d' _ (λ i. out (inr i))
            ∙ create_apart v u r s d' found (keys_apart v u r found (λ e. out (inl e))))
  ]

  -- The row under the uuid of a local record is as it should be, or nothing is there.
  abbrev pub IsSlot : Record → S → Type 0
  IsSlot r s = IsFree row s r.uuid ⊎ IsMirror r s

  create_first :
      (v : ℕ) (r q : Record) (s : S)
      → r.uuid ≡ v
      → lookup v locals ≡ some q
      → lookup r.uuid locals ≡ some r
      → IsSlot r s
      → IsMirror r (eco_create_record server d (data_of q) s).1
  unfolding build_record_data
  create_first v r q s same found given slot =
      let is : q ≡ r = ground (arith, same, found, given) in
      subst (λ (x : Record). IsMirror r (eco_create_record server d (data_of x) s).1) (sym is)
        (create-IsHeld server row laws tag d sure (data_of r) s (build-single_mark r (some tag))
          slot)

  create_keeps :
      (v : ℕ) (r q : Record) (s : S)
      → lookup v locals ≡ some q
      → lookup r.uuid locals ≡ some r
      → IsSlot r s
      → IsSlot r (eco_create_record server d (data_of q) s).1
  unfolding build_record_data
  create_keeps v r q s found given slot = elim (Bool-cases (r.uuid == v)) [
    | inl same ↦ inr (create_first v r q s (ground (arith, same)) found given slot)
    | inr apart ↦ elim slot [
      | inl free ↦ inl (λ d'. create_apart v r.uuid q s d' found apart ∙ free d')
      | inr held ↦ inr (
          IsHeld-≡ server row laws tag d sure (data_of r) s _
            (create_apart v r.uuid q s d found apart) held)
    ]
  ]

  -- A row that is as it should be stays so.
  create_held :
      (v : ℕ) (r q : Record) (s : S)
      → lookup v locals ≡ some q
      → lookup r.uuid locals ≡ some r
      → IsMirror r s
      → IsMirror r (eco_create_record server d (data_of q) s).1
  unfolding build_record_data
  create_held v r q s found given held = elim (Bool-cases (r.uuid == v)) [
    | inl same ↦ create_first v r q s (ground (arith, same)) found given (inr held)
    | inr apart ↦
        IsHeld-≡ server row laws tag d sure (data_of r) s _
          (create_apart v r.uuid q s d found apart) held
  ]

  pub create_missing_held :
      (us : List ℕ) (r : Record) (s : S)
      → lookup r.uuid locals ≡ some r
      → IsMirror r s
      → IsMirror r (create_missing server d (some tag) locals us s)
  unfolding create_missing
  create_missing_held [] r s given held = held
  create_missing_held (v ∷ us) r s given held = elim (Option-cases (lookup v locals)) [
    | inl missing ↦ rw (missing, create_missing) (create_missing_held us r s given held)
    | inr (q, found) ↦
        rw (found, create_missing)
          (create_missing_held us r _ given (create_held v r q s found given held))
  ]

  pub create_missing_now :
      (us : List ℕ) (r : Record) (s : S)
      → lookup r.uuid locals ≡ some r
      → IsIn r.uuid us
      → IsSlot r s
      → IsMirror r (create_missing server d (some tag) locals us s)
  unfolding create_missing
  create_missing_now [] r s given i slot = absurd i
  create_missing_now (v ∷ us) r s given (inl is) slot = elim (Option-cases (lookup v locals)) [
    | inl missing ↦ absurd (ground (arith, is, missing, given))
    | inr (q, found) ↦
        rw (found, create_missing)
          (create_missing_held us r _ given (create_first v r q s is found given slot))
  ]
  create_missing_now (v ∷ us) r s given (inr i) slot = elim (Option-cases (lookup v locals)) [
    | inl missing ↦ rw (missing, create_missing) (create_missing_now us r s given i slot)
    | inr (q, found) ↦
        rw (found, create_missing)
          (create_missing_now us r _ given i (create_keeps v r q s found given slot))
  ]
