-- ===== src/Dns/Sync.antt =====
-- The rows of a server that the rounds of exordos_core/dns_sync/service.py leave alone.
use exordos_core.Base.{
  ℕ, ◌≡◌, ◌⊎◌, inl, inr, refl, ◌==◌, true, false, not, ◌&&◌, Option, none, some, List, [], ◌∷◌,
  arith, Bool-cases, Option-cases, IsIn, IsIn-filter,
}
use exordos_core.Base.Dict.{Dict, lookup, insert, lookup-insert}
use exordos_core.Dns.{soa, Record, EcoRecord, is_own, build_record_data, is_same}
use exordos_core.Dns.Server.{Server, listed, IsServer}
use exordos_core.Dns.Calls.{eco_create_record}
use exordos_core.Dns.Domains.{
  eco_map, without_soa, is_own_by, create_missing, update_one, update_common, delete_one,
  delete_extra, reconcile,
}
use exordos_core.Dns.Safe.{
  IsClear, IsStep, IsStep-refl, IsStep-trans, is_given, IsMark, build-IsMarked, create-IsStep,
  update-IsStep, delete-IsStep,
}

module _ {S : Type 0} (server : Server S) (row : S → (domain uuid : ℕ) → Option EcoRecord)
    (laws : IsServer server row) (tag : ℕ) where
  create_missing-IsStep :
      (d : ℕ) (o : Option ℕ) (locals : Dict Record) (us : List ℕ) (s : S)
      → IsMark tag o
      → IsStep row tag (is_given o) s (create_missing server d o locals us s)
  unfolding create_missing
  create_missing-IsStep d o locals [] s mark = IsStep-refl row tag (is_given o) s
  create_missing-IsStep d o locals (u ∷ us) s mark = elim (Option-cases (lookup u locals)) [
    | inl missing ↦ rw (missing, create_missing) (create_missing-IsStep d o locals us s mark)
    | inr (r, found) ↦
        rw (found, create_missing)
          (IsStep-trans row tag (is_given o) s
            (eco_create_record server d (build_record_data r o) s).1 _
            (create-IsStep server row laws tag (is_given o) d (build_record_data r o) s
              (build-IsMarked tag r o mark))
            (create_missing-IsStep d o locals us _ mark))
  ]

  update_one-IsStep :
      (d : ℕ) (o : Option ℕ) (r : Record) (e : EcoRecord) (s : S)
      → IsMark tag o
      → IsStep row tag (is_given o) s (update_one server d o r e s)
  unfolding update_one
  update_one-IsStep d o r e s mark =
      elim (Bool-cases (is_own_by o e && not (is_same (build_record_data r o) e))) [
        | inr same ↦ rw same (IsStep-refl row tag (is_given o) s)
        | inl changed ↦ rw changed (
            update-IsStep server row laws tag (is_given o) d r.uuid (build_record_data r o) s
              (build-IsMarked tag r o mark))
      ]

  update_common-IsStep :
      (d : ℕ) (o : Option ℕ) (locals : Dict Record) (ecos : Dict EcoRecord) (us : List ℕ) (s : S)
      → IsMark tag o
      → IsStep row tag (is_given o) s (update_common server d o locals ecos us s)
  unfolding update_common
  update_common-IsStep d o locals ecos [] s mark = IsStep-refl row tag (is_given o) s
  update_common-IsStep d o locals ecos (u ∷ us) s mark = elim (Option-cases (lookup u locals)) [
    | inl missing ↦ rw (missing, update_common) (update_common-IsStep d o locals ecos us s mark)
    | inr (r, found) ↦ elim (Option-cases (lookup u ecos)) [
      | inl missing ↦
          rw (found, update_common) (rw missing (update_common-IsStep d o locals ecos us s mark))
      | inr (e, there) ↦
          rw (found, update_common)
            (rw there (
              IsStep-trans row tag (is_given o) s (update_one server d o r e s) _
                (update_one-IsStep d o r e s mark)
                (update_common-IsStep d o locals ecos us _ mark)))
    ]
  ]

  -- The dictionary tells of each row with the mark alone that nobody else's stands there.
  abbrev pub IsClearMap : S → (d : ℕ) → Dict EcoRecord → Type 0
  IsClearMap s d ecos =
      (u : ℕ) (e : EcoRecord) → lookup u ecos ≡ some e → is_own tag e ≡ true → IsClear row tag s d u

  is_mark : (t : ℕ) → IsMark tag (some t) → t ≡ tag
  is_mark t (inl e) = ground (arith, e)
  is_mark t (inr e) = absurd (cc e)

  delete_one-IsStep :
      (d u : ℕ) (o : Option ℕ) (e : EcoRecord) (s : S)
      → IsMark tag o
      → (is_given o ≡ true → is_own tag e ≡ true → IsClear row tag s d u)
      → IsStep row tag (is_given o) s (delete_one server d u o e s)
  unfolding delete_one
  delete_one-IsStep d u none e s mark before = IsStep-refl row tag false s
  delete_one-IsStep d u (some t) e s mark before = elim (Bool-cases (is_own t e)) [
    | inr other ↦ rw other (IsStep-refl row tag true s)
    | inl own ↦
        rw own
          (delete-IsStep server row laws tag true d u s (before refl (rw (is_mark t mark) at own)))
  ]

  delete_extra-IsStep :
      (d : ℕ) (o : Option ℕ) (ecos : Dict EcoRecord) (us : List ℕ) (s : S)
      → IsMark tag o
      → (is_given o ≡ true → IsClearMap s d ecos)
      → IsStep row tag (is_given o) s (delete_extra server d o ecos us s)
  unfolding delete_extra
  delete_extra-IsStep d o ecos [] s mark clear = IsStep-refl row tag (is_given o) s
  delete_extra-IsStep d o ecos (u ∷ us) s mark clear = elim (Option-cases (lookup u ecos)) [
    | inl missing ↦ rw (missing, delete_extra) (delete_extra-IsStep d o ecos us s mark clear)
    | inr (e, found) ↦
        let first = delete_one-IsStep d u o e s mark (λ on own. clear on u e found own) in
        rw (found, delete_extra)
          (IsStep-trans row tag (is_given o) s (delete_one server d u o e s) _ first (
            delete_extra-IsStep d o ecos us _ mark
              (λ on v f there own. first.clear on d v (clear on v f there own))))
  ]

  pub reconcile-IsStep :
      (order : List ℕ → List ℕ) (d : ℕ) (o : Option ℕ) (locals : Dict Record)
      (ecos : Dict EcoRecord) (s : S)
      → IsMark tag o
      → IsClearMap s d ecos
      → IsStep row tag (is_given o) s (reconcile server order d o locals ecos s)
  unfolding reconcile
  reconcile-IsStep order d o locals ecos s mark clear =
      let made = create_missing-IsStep d o locals _ s mark in
      let changed = update_common-IsStep d o locals ecos _ _ mark in
      let both = IsStep-trans row tag (is_given o) s _ _ made changed in
      IsStep-trans row tag (is_given o) s _ _ both (
        delete_extra-IsStep d o ecos _ _ mark
          (λ on u e there own. both.clear on d u (clear u e there own)))

  -- Whatever the dictionary of a list holds is an element, under its uuid, or was there before.
  pub eco_map-IsIn :
      (records : List EcoRecord) (d : Dict EcoRecord) (u : ℕ) (e : EcoRecord)
      → lookup u (eco_map records d) ≡ some e
      → (IsIn e records × (e.uuid ≡ u)) ⊎ (lookup u d ≡ some e)
  unfolding eco_map
  eco_map-IsIn [] d u e there = inr there
  eco_map-IsIn (r ∷ records) d u e there =
      elim (eco_map-IsIn records (insert r.uuid r d) u e there) [
        | inl (inside, same) ↦ inl (inr inside, same)
        | inr before ↦ elim (Bool-cases (r.uuid == u)) [
          | inl same ↦
              let is : e ≡ r = ground (arith, lookup-insert r.uuid u r d, before, same) in
              inl (inl is, ground (arith, is, same))
          | inr other ↦ inr (ground (arith, lookup-insert r.uuid u r d, before, other))
        ]
      ]

  pub zone_clear :
      (s : S) (d : ℕ) (asked : Option ℕ) (records : List EcoRecord)
      → server.list_records d asked s ≡ listed records
      → IsClearMap s d (eco_map (without_soa records) [])
  unfolding without_soa lookup is_own
  zone_clear s d asked records answer u e there own f here =
      elim (eco_map-IsIn (without_soa records) [] u e there) [
        | inr nothing ↦ absurd (cc nothing)
        | inl (inside, same) ↦
            let (in_zone, kept) =
              IsIn-filter (λ (r : EcoRecord). not (r.type == soa)) e records inside in
            let stands = laws.list_row d asked s records e answer in_zone in
            ground (arith, rw same at stands, here, own)
      ]
