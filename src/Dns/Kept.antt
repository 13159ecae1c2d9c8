-- ===== src/Dns/Kept.antt =====
-- The rows of a server that a synchronisation of exordos_core/dns_sync/service.py leaves alone.
use exordos_core.Base.{
  ℕ, ◌≡◌, ◌⊎◌, inl, inr, refl, sym, ◌∙◌, leb, false, Option, none, some, List, [], ◌∷◌, is_empty,
  arith, Bool-cases, Option-cases,
}
use exordos_core.Base.Dict.{Dict, lookup}
use exordos_core.Dns.{Domain, Record, Database, EcoRecord, is_own, build_record_data}
use exordos_core.Dns.Server.{Server, ListAnswer, listed, filter_refused, list_failed, IsServer}
use exordos_core.Dns.Calls.{
  Mirror, mark_for, is_filter_refused, list_zone, list_tagged, eco_list_records,
}
use exordos_core.Dns.Domains.{
  eco_map, without_soa, local_map, records_of, recent_records, group_by_domain, full_sync_domain,
  full_sync_created, full_sync_one, full_sync, push_one, push_all, push_groups, fast_sync,
}
use exordos_core.Dns.Safe.{is_given, IsMark, build-IsMarked, create-IsStep, update-IsStep}
use exordos_core.Dns.Sync.{reconcile-IsStep, zone_clear}

ListAnswer-cases :
    (a : ListAnswer)
    → ((rows : List EcoRecord) × (a ≡ listed rows)) ⊎ ((a ≡ filter_refused) ⊎ (a ≡ list_failed))
ListAnswer-cases (listed rows) = inl (rows, refl)
ListAnswer-cases filter_refused = inr (inl refl)
ListAnswer-cases list_failed = inr (inr refl)

abbrev pub IsAnswer : {S : Type 0} → Server S → (d : ℕ) → S → List EcoRecord → Type 0
IsAnswer server d s records = (asked : Option ℕ) × (server.list_records d asked s ≡ listed records)

module _ {S : Type 0} (server : Server S) where
  list_zone-IsAnswer :
      (d : ℕ) (s : S) (m : Mirror) (records : List EcoRecord)
      → (list_zone server d s m).0 ≡ some records
      → IsAnswer server d s records
  unfolding list_zone
  list_zone-IsAnswer d s m records h = elim (ListAnswer-cases (server.list_records d none s)) [
    | inl (rows, answer) ↦ (none, ground (arith, answer, h))
    | inr (inl refused) ↦ absurd (ground (arith, refused, h))
    | inr (inr lost) ↦ absurd (ground (arith, lost, h))
  ]

  list_tagged-IsAnswer :
      (now d tag : ℕ) (s : S) (m : Mirror) (records : List EcoRecord)
      → (list_tagged server now d tag s m).0 ≡ some records
      → IsAnswer server d s records
  unfolding list_tagged
  list_tagged-IsAnswer now d tag s m records h =
      elim (ListAnswer-cases (server.list_records d (some tag) s)) [
        | inl (rows, answer) ↦ (some tag, ground (arith, answer, h))
        | inr (inl refused) ↦ elim (ListAnswer-cases (server.list_records d none s)) [
          | inl (rows, answer) ↦ (none, ground (arith, refused, answer, h))
          | inr (inl again) ↦ absurd (ground (arith, refused, again, h))
          | inr (inr lost) ↦ absurd (ground (arith, refused, lost, h))
        ]
        | inr (inr lost) ↦ absurd (ground (arith, lost, h))
      ]

  eco_list_records-IsAnswer :
      (now d tag : ℕ) (s : S) (m : Mirror) (records : List EcoRecord)
      → (eco_list_records server now d tag s m).0 ≡ some records
      → IsAnswer server d s records
  unfolding eco_list_records
  eco_list_records-IsAnswer now d tag s m records h =
      elim (Bool-cases (is_filter_refused now m).0) [
        | inl refused ↦
            list_zone-IsAnswer d s (is_filter_refused now m).1 records (ground (arith, refused, h))
        | inr asked ↦
            list_tagged-IsAnswer now d tag s (is_filter_refused now m).1 records
              (ground (arith, asked, h))
      ]

pub mark_for-IsMark : (m : Mirror) (tag : ℕ) → IsMark tag (mark_for m tag)
unfolding mark_for
mark_for-IsMark m tag = elim (Bool-cases m.tags_unsupported) [
  | inl bare ↦ rw bare (inr refl)
  | inr marked ↦ rw marked (inl refl)
]

-- The rows without the mark alone stay.
abbrev pub IsKept :
    {S : Type 0} → (S → (domain uuid : ℕ) → Option EcoRecord) → (tag : ℕ) → S → S → Type 0
IsKept row tag s s' =
    (d u : ℕ) (e : EcoRecord) → row s d u ≡ some e → is_own tag e ≡ false → row s' d u ≡ some e

module _ {S : Type 0} (server : Server S) (row : S → (domain uuid : ℕ) → Option EcoRecord)
    (laws : IsServer server row) (tag : ℕ) where
  pub IsKept-trans :
      (s s' s'' : S) → IsKept row tag s s' → IsKept row tag s' s'' → IsKept row tag s s''
  IsKept-trans s s' s'' f g d u e there other = g d u e (f d u e there other) other

  pub IsKept-refl : (s : S) → IsKept row tag s s
  IsKept-refl s d u e there other = there

  module _ (order : List ℕ → List ℕ) where
    full_sync_domain_keeps :
        (db : Database) (now domain eco_domain : ℕ) (s : S) (m : Mirror)
        → IsKept row tag s (full_sync_domain server order db now domain eco_domain tag s m).0
    unfolding full_sync_domain
    full_sync_domain_keeps db now domain eco_domain s m =
        elim (Option-cases (eco_list_records server now eco_domain tag s m).0) [
          | inl lost ↦ rw (lost, full_sync_domain) (IsKept-refl s)
          | inr (records, answer) ↦
              let (asked, listing) =
                eco_list_records-IsAnswer server now eco_domain tag s m records answer in
              let step =
                reconcile-IsStep server row laws tag order eco_domain
                  (mark_for (eco_list_records server now eco_domain tag s m).1 tag)
                  (local_map (records_of db.records domain) []) (eco_map (without_soa records) []) s
                  (mark_for-IsMark (eco_list_records server now eco_domain tag s m).1 tag)
                  (zone_clear server row laws tag s eco_domain asked records listing) in
              rw (answer, full_sync_domain) step.keeps
        ]

    created_keeps :
        (db : Database) (now domain : ℕ) (posted : Option ℕ × S) (m : Mirror)
        → IsKept row tag posted.1 (full_sync_created server order db now domain tag posted m).0
    unfolding full_sync_created
    created_keeps db now domain (none, s) m = IsKept-refl s
    created_keeps db now domain (some eco_domain, s) m =
        full_sync_domain_keeps db now domain eco_domain s m

    full_sync_one_keeps :
        (db : Database) (now : ℕ) (ecos : Dict ℕ) (d : Domain) (s : S) (m : Mirror)
        → IsKept row tag s (full_sync_one server order db now tag ecos d (s, m)).0
    unfolding full_sync_one
    full_sync_one_keeps db now ecos d s m = elim (Option-cases (lookup d.name ecos)) [
      | inr (eco_domain, found) ↦
          rw (found, full_sync_one) (full_sync_domain_keeps db now d.uuid eco_domain s m)
      | inl missing ↦
          rw (missing, full_sync_one)
            (λ d' u e there other.
              created_keeps db now d.uuid (server.post_domain d.name s) m d' u e
                (laws.domain_row d.name s d' u ∙ there) other)
    ]

    pub full_sync_keeps :
        (db : Database) (now : ℕ) (ecos : Dict ℕ) (domains : List Domain) (sm : S × Mirror)
        → IsKept row tag sm.0 (full_sync server order db now tag ecos domains sm).0
    unfolding full_sync
    full_sync_keeps db now ecos [] sm = IsKept-refl sm.0
    full_sync_keeps db now ecos (d ∷ domains) sm =
        IsKept-trans sm.0 _ _ (full_sync_one_keeps db now ecos d sm.0 sm.1)
          (full_sync_keeps db now ecos domains (full_sync_one server order db now tag ecos d sm))

  push_one_keeps :
      (since d : ℕ) (o : Option ℕ) (r : Record) (s : S)
      → IsMark tag o
      → IsKept row tag s (push_one server since d o r s)
  unfolding push_one
  push_one_keeps since d o r s mark =
      let marked = build-IsMarked tag r o mark in
      elim (Bool-cases (leb since r.created_at)) [
        | inl new ↦
            rw new
              (create-IsStep server row laws tag (is_given o) d (build_record_data r o) s
                marked).keeps
        | inr old ↦
            rw old
              (update-IsStep server row laws tag (is_given o) d r.uuid (build_record_data r o) s
                marked).keeps
      ]

  push_all_keeps :
      (since d : ℕ) (o : Option ℕ) (records : List Record) (s : S)
      → IsMark tag o
      → IsKept row tag s (push_all server since d o records s)
  unfolding push_all
  push_all_keeps since d o [] s mark = IsKept-refl s
  push_all_keeps since d o (r ∷ records) s mark =
      IsKept-trans s _ _ (push_one_keeps since d o r s mark)
        (push_all_keeps since d o records (push_one server since d o r s) mark)

  push_groups_keeps :
      (since : ℕ) (o : Option ℕ) (ecos : Dict ℕ) (groups : List (Domain × List Record)) (s : S)
      → IsMark tag o
      → IsKept row tag s (push_groups server since o ecos groups s)
  unfolding push_groups
  push_groups_keeps since o ecos [] s mark = IsKept-refl s
  push_groups_keeps since o ecos ((d, records) ∷ groups) s mark =
      elim (Option-cases (lookup d.name ecos)) [
        | inl missing ↦ rw (missing, push_groups) (push_groups_keeps since o ecos groups s mark)
        | inr (eco_domain, found) ↦
            rw (found, push_groups)
              (IsKept-trans s _ _ (push_all_keeps since eco_domain o records s mark) (
                push_groups_keeps since o ecos groups (push_all server since eco_domain o records s)
                  mark))
      ]

  pub fast_sync_keeps :
      (db : Database) (since : ℕ) (o : Option ℕ) (s s' : S)
      → IsMark tag o
      → fast_sync server db since o s ≡ some s'
      → IsKept row tag s s'
  unfolding fast_sync
  fast_sync_keeps db since o s s' mark h =
      let groups = group_by_domain db.domains (recent_records since db.records) [] in
      elim (Bool-cases (is_empty groups)) [
        | inl idle ↦ let same : s ≡ s' = ground (arith, idle, h) in rw (sym same) (IsKept-refl s)
        | inr busy ↦ elim (Option-cases (server.list_domains s)) [
          | inl lost ↦ absurd (ground (arith, busy, lost, h))
          | inr (ecos, found) ↦
              let same : push_groups server since o ecos groups s ≡ s' =
                ground (arith, busy, found, h) in
              rw (sym same) (push_groups_keeps since o ecos groups s mark)
        ]
      ]
