-- ===== src/Dns/Domains.antt =====
-- exordos_core/dns_sync/service.py: `_full_sync_domain`, `_fast_sync`, `_ensure_realm_domain` and
-- `_sync_all_domains`. `order` gives the elements of a set in the order in which Python goes over it.
use exordos_core.Base.{
  ℕ, leb, ◌==◌, Bool, true, false, not, ◌&&◌, Option, none, some, List, [], ◌∷◌, ◌++◌, filter,
  is_empty, if◌then◌else◌,
}
use exordos_core.Base.Dict.{Dict, lookup, insert}
use exordos_core.Dns.{soa, Domain, Record, Database, EcoRecord, is_own, build_record_data, is_same}
use exordos_core.Dns.Server.{Server}
use exordos_core.Dns.Calls.{
  Mirror, mark_for, eco_list_records, eco_create_record, eco_update_record, eco_delete_record,
}

-- Seconds.
abbrev pub full_sync_interval : ℕ
full_sync_interval = 60

-- Dictionaries of the local and of the remote records by their uuids, added to one.
unfoldable pub local_map : List Record → Dict Record → Dict Record
local_map [] d = d
local_map (r ∷ records) d = local_map records (insert r.uuid r d)

unfoldable pub eco_map : List EcoRecord → Dict EcoRecord → Dict EcoRecord
eco_map [] d = d
eco_map (r ∷ records) d = eco_map records (insert r.uuid r d)

unfoldable pub keys {ℓ} : {V : Type ℓ} → Dict V → List ℕ
keys [] = []
keys ((k, v) ∷ d) = k ∷ keys d

unfoldable pub has_key {ℓ} : {V : Type ℓ} → Dict V → ℕ → Bool
has_key d k = elim (lookup k d) [ none ↦ false | some v ↦ true ]

-- `setdefault(domain, []).append(rec)`
unfoldable pub add_to_group :
    Domain → Record → List (Domain × List Record) → List (Domain × List Record)
add_to_group d r [] = (d, r ∷ []) ∷ []
add_to_group d r ((e, records) ∷ groups) =
    let rest = add_to_group d r groups in
    if e.uuid == d.uuid then (e, records ++ (r ∷ [])) ∷ groups else (e, records) ∷ rest

unfoldable pub find_domain : List Domain → (uuid : ℕ) → Option Domain
find_domain [] uuid = none
find_domain (d ∷ domains) uuid =
    let later = find_domain domains uuid in if d.uuid == uuid then some d else later

-- The groups of the records whose domains are synchronised.
unfoldable pub group_by_domain :
    List Domain → List Record → List (Domain × List Record) → List (Domain × List Record)
group_by_domain domains [] groups = groups
group_by_domain domains (r ∷ records) groups = elim (find_domain domains r.domain) [
  | none ↦ group_by_domain domains records groups
  | some d ↦
      if d.sync_to_ecosystem
      then group_by_domain domains records (add_to_group d r groups)
      else group_by_domain domains records groups
]

unfoldable pub recent_records : (since : ℕ) → List Record → List Record
recent_records since = filter (λ (r : Record). leb since r.updated_at && not (r.type == soa))

-- The local records of a domain, without SOA records.
unfoldable pub records_of : List Record → (domain : ℕ) → List Record
records_of records domain =
    filter (λ (r : Record). r.domain == domain && not (r.type == soa)) records

unfoldable pub without_soa : List EcoRecord → List EcoRecord
without_soa = filter (λ (r : EcoRecord). not (r.type == soa))

abbrev pub is_own_by : Option ℕ → EcoRecord → Bool
is_own_by none e = false
is_own_by (some tag) e = is_own tag e

module _ {S : Type 0} (server : Server S) where
  -- The three loops of the full reconciliation.
  unfoldable pub create_missing : (domain : ℕ) (tag : Option ℕ) → Dict Record → List ℕ → S → S
  create_missing domain tag locals [] s = s
  create_missing domain tag locals (u ∷ us) s = elim (lookup u locals) [
    | none ↦ create_missing domain tag locals us s
    | some r ↦
        create_missing domain tag locals us
          ((eco_create_record server domain (build_record_data r tag) s).1)
  ]

  -- The body of the second loop.
  unfoldable pub update_one : (domain : ℕ) (tag : Option ℕ) → Record → EcoRecord → S → S
  update_one domain tag r e s =
      if is_own_by tag e && not (is_same (build_record_data r tag) e)
      then (eco_update_record server domain r.uuid (build_record_data r tag) s).1
      else s

  unfoldable pub update_common :
      (domain : ℕ) (tag : Option ℕ) → Dict Record → Dict EcoRecord → List ℕ → S → S
  update_common domain tag locals ecos [] s = s
  update_common domain tag locals ecos (u ∷ us) s = elim (lookup u locals) [
    | none ↦ update_common domain tag locals ecos us s
    | some r ↦ elim (lookup u ecos) [
      | none ↦ update_common domain tag locals ecos us s
      | some e ↦ update_common domain tag locals ecos us (update_one domain tag r e s)
    ]
  ]

  unfoldable pub delete_one : (domain u : ℕ) (tag : Option ℕ) → EcoRecord → S → S
  delete_one domain u tag e s =
      if is_own_by tag e then (eco_delete_record server domain u s).1 else s

  unfoldable pub delete_extra : (domain : ℕ) (tag : Option ℕ) → Dict EcoRecord → List ℕ → S → S
  delete_extra domain tag ecos [] s = s
  delete_extra domain tag ecos (u ∷ us) s = elim (lookup u ecos) [
    | none ↦ delete_extra domain tag ecos us s
    | some e ↦ delete_extra domain tag ecos us (delete_one domain u tag e s)
  ]

  module _ (order : List ℕ → List ℕ) where
    -- The loops over the differences and the intersection of the two sets of uuids.
    unfoldable pub reconcile : (domain : ℕ) (tag : Option ℕ) → Dict Record → Dict EcoRecord → S → S
    reconcile domain tag locals ecos s =
        let created =
          create_missing domain tag locals
            (order (filter (λ (u : ℕ). not (has_key ecos u)) (keys locals))) s in
        let updated =
          update_common domain tag locals ecos
            (order (filter (λ (u : ℕ). has_key ecos u) (keys locals))) created in
        delete_extra domain tag ecos
          (order (filter (λ (u : ℕ). not (has_key locals u)) (keys ecos))) updated

    -- `_full_sync_domain`; none is a request for the zone that failed.
    unfoldable pub full_sync_domain :
        Database → (now domain eco_domain tag : ℕ) → S → Mirror → S × Mirror
    full_sync_domain db now domain eco_domain tag s m =
        let (answer, m') = eco_list_records server now eco_domain tag s m in
        elim answer [
          | none ↦ (s, m')
          | some records ↦ (
            reconcile eco_domain (mark_for m' tag) (local_map (records_of db.records domain) [])
                (eco_map (without_soa records) []) s,
            m',
          )
        ]

    -- A domain that was created, with the uuid that the server gave.
    unfoldable pub full_sync_created :
        Database → (now domain tag : ℕ) → Option ℕ × S → Mirror → S × Mirror
    full_sync_created db now domain tag (none, s) m = (s, m)
    full_sync_created db now domain tag (some eco_domain, s) m =
        full_sync_domain db now domain eco_domain tag s m

    -- The body of the loop of the full sync: the domain is created where it is missing.
    unfoldable pub full_sync_one :
        Database → (now tag : ℕ) → Dict ℕ → Domain → S × Mirror → S × Mirror
    full_sync_one db now tag ecos d (s, m) = elim (lookup d.name ecos) [
      | some eco_domain ↦ full_sync_domain db now d.uuid eco_domain tag s m
      | none ↦ full_sync_created db now d.uuid tag (server.post_domain d.name s) m
    ]

    unfoldable pub full_sync :
        Database → (now tag : ℕ) → Dict ℕ → List Domain → S × Mirror → S × Mirror
    full_sync db now tag ecos [] sm = sm
    full_sync db now tag ecos (d ∷ domains) sm =
        full_sync db now tag ecos domains (full_sync_one db now tag ecos d sm)

  -- The push of one record of the fast sync.
  unfoldable pub push_one : (since eco_domain : ℕ) (tag : Option ℕ) → Record → S → S
  push_one since eco_domain tag r s =
      if leb since r.created_at
      then (eco_create_record server eco_domain (build_record_data r tag) s).1
      else (eco_update_record server eco_domain r.uuid (build_record_data r tag) s).1

  unfoldable pub push_all : (since eco_domain : ℕ) (tag : Option ℕ) → List Record → S → S
  push_all since eco_domain tag [] s = s
  push_all since eco_domain tag (r ∷ records) s =
      push_all since eco_domain tag records (push_one since eco_domain tag r s)

  -- The changed records, domain by domain, each with the uuid of its domain at the server if it has one.
  unfoldable pub push_groups :
      (since : ℕ) (tag : Option ℕ) → Dict ℕ → List (Domain × List Record) → S → S
  push_groups since tag ecos [] s = s
  push_groups since tag ecos ((d, records) ∷ groups) s = elim (lookup d.name ecos) [
    | none ↦ push_groups since tag ecos groups s
    | some eco_domain ↦ push_groups since tag ecos groups (push_all since eco_domain tag records s)
  ]

  -- `_fast_sync`; none is a request for the domains that raises.
  unfoldable pub fast_sync : Database → (since : ℕ) (tag : Option ℕ) → S → Option S
  fast_sync db since tag s =
      let groups = group_by_domain db.domains (recent_records since db.records) [] in
      if is_empty groups then some s else elim (server.list_domains s) [
        | none ↦ none
        | some ecos ↦ some (push_groups since tag ecos groups s)
      ]
