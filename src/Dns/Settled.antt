-- ===== src/Dns/Settled.antt =====
-- The second and third loops of `_full_sync_domain` of exordos_core/dns_sync/service.py, at a server that
-- carries out each request.
use exordos_core.Base.{
  ℕ, ◌≡◌, ◌⊎◌, inl, inr, refl, sym, ◌∙◌, subst, ◌==◌, true, false, not, ◌&&◌, Option, none, some,
  List, [], ◌∷◌, arith, Bool-cases, Option-cases, IsIn,
}
use exordos_core.Base.Dict.{Dict, lookup}
use exordos_core.Dns.{Record, EcoRecord, is_own, build_record_data, is_same}
use exordos_core.Dns.Server.{Server, IsServer}
use exordos_core.Dns.Domains.{update_one, update_common}
use exordos_core.Dns.Marks.{build-single_mark}
use exordos_core.Dns.Reliable.{IsReliable, IsHeld, IsHeld-≡, update-IsHeld, update-apart}
use exordos_core.Dns.Created.{IsKeyed, keys_apart}

module _ {S : Type 0} (server : Server S) (row : S → (domain uuid : ℕ) → Option EcoRecord)
    (laws : IsServer server row) (tag d : ℕ) (sure : IsReliable server row d) (locals : Dict Record)
    (ecos : Dict EcoRecord) (keyed : IsKeyed locals) where
  abbrev IsRight : Record → S → Type 0
  IsRight r s = IsHeld server row laws tag d sure (build_record_data r (some tag)) s

  update_one-apart :
      (v u : ℕ) (r : Record) (e : EcoRecord) (s : S)
      → lookup v locals ≡ some r
      → (u == v) ≡ false
      → row (update_one server d (some tag) r e s) d u ≡ row s d u
  unfolding update_one build_record_data
  update_one-apart v u r e s found apart =
      elim (Bool-cases (is_own tag e && not (is_same (build_record_data r (some tag)) e))) [
        | inr same ↦ rw same refl
        | inl changed ↦ rw changed (
            update-apart server row laws tag d sure (build_record_data r (some tag)) s d u
              (ground (arith, apart, keyed v r found)))
      ]

  -- The step for a row with the mark alone that the dictionary shows as it stands.
  update_one-IsRight :
      (r : Record) (e : EcoRecord) (s : S)
      → row s d r.uuid ≡ some e
      → is_own tag e ≡ true
      → IsRight r (update_one server d (some tag) r e s)
  unfolding update_one build_record_data
  update_one-IsRight r e s there own =
      elim (Bool-cases (is_same (build_record_data r (some tag)) e)) [
        | inl same ↦ rw own (rw same (record { found = e; there = there; own = own; same = same }))
        | inr changed ↦ rw own (
            rw changed (
              update-IsHeld server row laws tag d sure (build_record_data r (some tag)) e s
                (build-single_mark r (some tag)) there own))
      ]

  -- A row that is as it should be stays so, whatever the dictionary shows.
  update_one_held :
      (r : Record) (e : EcoRecord) (s : S)
      → IsRight r s
      → IsRight r (update_one server d (some tag) r e s)
  unfolding update_one build_record_data
  update_one_held r e s held =
      elim (Bool-cases (is_own tag e && not (is_same (build_record_data r (some tag)) e))) [
        | inr same ↦ rw same held
        | inl changed ↦ rw changed (
            update-IsHeld server row laws tag d sure (build_record_data r (some tag)) held.found s
              (build-single_mark r (some tag)) held.there held.own)
      ]

  at_uuid :
      (r : Record) (v : ℕ) (q : Record) (f : EcoRecord) (s : S)
      → lookup v locals ≡ some q
      → (r.uuid == v) ≡ false
      → row (update_one server d (some tag) q f s) d (build_record_data r (some tag)).uuid
        ≡ row s d (build_record_data r (some tag)).uuid
  unfolding build_record_data
  at_uuid r v q f s found apart = update_one-apart v r.uuid q f s found apart

  -- One step at `v`, as the record `r` sees it that is as it should be.
  step_held :
      (v : ℕ) (r q : Record) (f : EcoRecord) (s : S)
      → lookup v locals ≡ some q
      → lookup r.uuid locals ≡ some r
      → IsRight r s
      → IsRight r (update_one server d (some tag) q f s)
  step_held v r q f s found given held = elim (Bool-cases (r.uuid == v)) [
    | inl same ↦
        let is : q ≡ r = ground (arith, same, found, given) in
        subst (λ (x : Record). IsRight r (update_one server d (some tag) x f s)) (sym is)
          (update_one_held r f s held)
    | inr apart ↦
        IsHeld-≡ server row laws tag d sure (build_record_data r (some tag)) s _
          (at_uuid r v q f s found apart) held
  ]

  pub update_common_held :
      (us : List ℕ) (r : Record) (s : S)
      → lookup r.uuid locals ≡ some r
      → IsRight r s
      → IsRight r (update_common server d (some tag) locals ecos us s)
  unfolding update_common
  update_common_held [] r s given held = held
  update_common_held (v ∷ us) r s given held = elim (Option-cases (lookup v locals)) [
    | inl missing ↦ rw (missing, update_common) (update_common_held us r s given held)
    | inr (q, found) ↦ elim (Option-cases (lookup v ecos)) [
      | inl missing ↦
          rw (found, update_common)
            (rw (missing, update_common) (update_common_held us r s given held))
      | inr (f, there) ↦
          rw (found, update_common)
            (rw (there, update_common)
              (update_common_held us r _ given (step_held v r q f s found given held)))
    ]
  ]

  pub update_common-apart :
      (us : List ℕ) (u : ℕ) (s : S)
      → (IsIn u us → lookup u locals ≡ none)
      → row (update_common server d (some tag) locals ecos us s) d u ≡ row s d u
  unfolding update_common
  update_common-apart [] u s out = refl
  update_common-apart (v ∷ us) u s out = elim (Option-cases (lookup v locals)) [
    | inl missing ↦ rw (missing, update_common) (update_common-apart us u s (λ i. out (inr i)))
    | inr (q, found) ↦ elim (Option-cases (lookup v ecos)) [
      | inl missing ↦
          rw (found, update_common)
            (rw (missing, update_common) (update_common-apart us u s (λ i. out (inr i))))
      | inr (f, there) ↦
          rw (found, update_common)
            (rw (there, update_common)
              (update_common-apart us u _ (λ i. out (inr i))
                ∙ update_one-apart v u q f s found (
                    keys_apart server row laws tag d sure locals ecos keyed v u q found
                      (λ e. out (inl e)))))
    ]
  ]

  -- The row stands as the dictionary shows it, or is as it should be.
  abbrev IsShown : Record → EcoRecord → S → Type 0
  IsShown r e s = (row s d r.uuid ≡ some e) ⊎ IsRight r s

  step_first :
      (v : ℕ) (r q : Record) (e f : EcoRecord) (s : S)
      → r.uuid ≡ v
      → lookup v locals ≡ some q
      → lookup r.uuid locals ≡ some r
      → lookup v ecos ≡ some f
      → lookup r.uuid ecos ≡ some e
      → is_own tag e ≡ true
      → IsShown r e s
      → IsRight r (update_one server d (some tag) q f s)
  step_first v r q e f s same found given shown eco own (inr held) =
      step_held v r q f s found given held
  step_first v r q e f s same found given shown eco own (inl there) =
      let is : q ≡ r = ground (arith, same, found, given) in
      let is_e : f ≡ e = ground (arith, same, shown, eco) in
      subst (λ (x : Record). IsRight r (update_one server d (some tag) x f s)) (sym is)
        (subst (λ (x : EcoRecord). IsRight r (update_one server d (some tag) r x s)) (sym is_e)
          (update_one-IsRight r e s there own))

  step-IsShown :
      (v : ℕ) (r q : Record) (e f : EcoRecord) (s : S)
      → lookup v locals ≡ some q
      → lookup r.uuid locals ≡ some r
      → lookup v ecos ≡ some f
      → lookup r.uuid ecos ≡ some e
      → is_own tag e ≡ true
      → IsShown r e s
      → IsShown r e (update_one server d (some tag) q f s)
  step-IsShown v r q e f s found given shown eco own (inr held) =
      inr (step_held v r q f s found given held)
  step-IsShown v r q e f s found given shown eco own (inl there) = elim (Bool-cases (r.uuid == v)) [
    | inl same ↦
        inr (step_first v r q e f s (ground (arith, same)) found given shown eco own (inl there))
    | inr apart ↦ inl (update_one-apart v r.uuid q f s found apart ∙ there)
  ]

  pub update_common_now :
      (us : List ℕ) (r : Record) (e : EcoRecord) (s : S)
      → lookup r.uuid locals ≡ some r
      → lookup r.uuid ecos ≡ some e
      → is_own tag e ≡ true
      → IsIn r.uuid us
      → IsShown r e s
      → IsRight r (update_common server d (some tag) locals ecos us s)
  unfolding update_common
  update_common_now [] r e s given eco own i slot = absurd i
  update_common_now (v ∷ us) r e s given eco own i slot = elim (Option-cases (lookup v locals)) [
    | inl missing ↦ elim i [
      | inl is ↦ absurd (ground (arith, is, missing, given))
      | inr j ↦ rw (missing, update_common) (update_common_now us r e s given eco own j slot)
    ]
    | inr (q, found) ↦ elim (Option-cases (lookup v ecos)) [
      | inl missing ↦ elim i [
        | inl is ↦ absurd (ground (arith, is, missing, eco))
        | inr j ↦
            rw (found, update_common)
              (rw (missing, update_common) (update_common_now us r e s given eco own j slot))
      ]
      | inr (f, there) ↦
          rw (found, update_common)
            (rw (there, update_common)
              (elim i [
                | inl is ↦
                    update_common_held us r _ given
                      (step_first v r q e f s is found given there eco own slot)
                | inr j ↦
                    update_common_now us r e _ given eco own j
                      (step-IsShown v r q e f s found given there eco own slot)
              ]))
    ]
  ]
