-- ===== src/Dns/Deleted.antt =====
-- The third loop of `_full_sync_domain` of exordos_core/dns_sync/service.py, at a server that carries out each
-- request.
use exordos_core.Base.{
  ℕ, ◌≡◌, inl, inr, refl, sym, ◌∙◌, subst, ◌==◌, true, false, Option, none, some, List, [], ◌∷◌,
  arith, Bool-cases, Option-cases, IsIn,
}
use exordos_core.Base.Dict.{Dict, lookup}
use exordos_core.Dns.{EcoRecord, is_own}
use exordos_core.Dns.Server.{Server, IsServer}
use exordos_core.Dns.Calls.{eco_delete_record}
use exordos_core.Dns.Domains.{delete_one, delete_extra}
use exordos_core.Dns.Reliable.{IsReliable, delete-apart, delete-none}

module _ {S : Type 0} (server : Server S) (row : S → (domain uuid : ℕ) → Option EcoRecord)
    (laws : IsServer server row) (tag d : ℕ) (sure : IsReliable server row d)
    (ecos : Dict EcoRecord) where
  delete_one-apart :
      (v u : ℕ) (f : EcoRecord) (s : S)
      → (u == v) ≡ false
      → row (delete_one server d v (some tag) f s) d u ≡ row s d u
  unfolding delete_one
  delete_one-apart v u f s apart = elim (Bool-cases (is_own tag f)) [
    | inr other ↦ rw other refl
    | inl own ↦ rw own (delete-apart server row laws tag d sure v s u apart)
  ]

  not_head : (v u : ℕ) (us : List ℕ) → (IsIn u (v ∷ us) → ⊥) → (u == v) ≡ false
  not_head v u us out = elim (Bool-cases (u == v)) [
    | inr apart ↦ apart
    | inl same ↦ absurd (out (inl (ground (arith, same))))
  ]

  pub delete_extra-apart :
      (us : List ℕ) (u : ℕ) (s : S)
      → (IsIn u us → ⊥)
      → row (delete_extra server d (some tag) ecos us s) d u ≡ row s d u
  unfolding delete_extra
  delete_extra-apart [] u s out = refl
  delete_extra-apart (v ∷ us) u s out = elim (Option-cases (lookup v ecos)) [
    | inl missing ↦ rw (missing, delete_extra) (delete_extra-apart us u s (λ i. out (inr i)))
    | inr (f, there) ↦
        rw (there, delete_extra)
          (delete_extra-apart us u _ (λ i. out (inr i))
            ∙ delete_one-apart v u f s (not_head v u us out))
  ]

  deleted : (v u : ℕ) (s : S) → v ≡ u → row (eco_delete_record server d v s).1 d u ≡ none
  deleted v u s is =
      subst (λ (x : ℕ). row (eco_delete_record server d x s).1 d u ≡ none) (sym is)
        (delete-none server row laws tag d sure u s)

  delete_one_gone :
      (v u : ℕ) (f : EcoRecord) (s : S)
      → row s d u ≡ none
      → row (delete_one server d v (some tag) f s) d u ≡ none
  unfolding delete_one
  delete_one_gone v u f s gone = elim (Bool-cases (u == v)) [
    | inr apart ↦ delete_one-apart v u f s apart ∙ gone
    | inl same ↦ elim (Bool-cases (is_own tag f)) [
      | inr other ↦ rw other gone
      | inl own ↦ rw own (deleted v u s (ground (arith, same)))
    ]
  ]

  -- Nothing stands under the uuid, and no deletion changes that.
  delete_extra_gone :
      (us : List ℕ) (u : ℕ) (s : S)
      → row s d u ≡ none
      → row (delete_extra server d (some tag) ecos us s) d u ≡ none
  unfolding delete_extra
  delete_extra_gone [] u s gone = gone
  delete_extra_gone (v ∷ us) u s gone = elim (Option-cases (lookup v ecos)) [
    | inl missing ↦ rw (missing, delete_extra) (delete_extra_gone us u s gone)
    | inr (f, there) ↦
        rw (there, delete_extra) (delete_extra_gone us u _ (delete_one_gone v u f s gone))
  ]

  pub delete_extra_now :
      (us : List ℕ) (u : ℕ) (e : EcoRecord) (s : S)
      → lookup u ecos ≡ some e
      → is_own tag e ≡ true
      → IsIn u us
      → row (delete_extra server d (some tag) ecos us s) d u ≡ none
  unfolding delete_extra delete_one
  delete_extra_now [] u e s eco own i = absurd i
  delete_extra_now (v ∷ us) u e s eco own (inl is) =
      rw (rw is at eco, delete_extra) (rw own (delete_extra_gone us u _ (deleted v u s (sym is))))
  delete_extra_now (v ∷ us) u e s eco own (inr i) = elim (Option-cases (lookup v ecos)) [
    | inl missing ↦ rw (missing, delete_extra) (delete_extra_now us u e s eco own i)
    | inr (f, there) ↦ rw (there, delete_extra) (delete_extra_now us u e _ eco own i)
  ]
