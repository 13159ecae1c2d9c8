-- ===== src/Dns/Tests.antt =====
-- Runs of exordos_core/dns_sync/service.py.
use exordos_core.Base.{
  ℕ, ◌≡◌, inl, inr, refl, sym, ◌∙◌, true, false, some, List, [], ◌∷◌, filter, arith,
}
use exordos_core.Base.Dict.{lookup, insert, delete}
use exordos_core.Dns.{
  Tag, realm, plain, Record, Database, EcoRecord, is_own, realm_marks, is_only, all_equal,
  build_record_data, is_same, single_mark,
}
use exordos_core.Dns.Calls.{
  mark_for, is_filter_refused, list_tagged, eco_list_records, put_own, eco_update_record,
  after_post, eco_create_record, eco_delete_record,
}
use exordos_core.Dns.Domains.{
  keys, local_map, eco_map, has_key, records_of, without_soa, create_missing, update_one,
  update_common, delete_one, delete_extra, reconcile, full_sync_domain, full_sync_one, full_sync,
}
use exordos_core.Dns.Service.{
  initial, is_named, mark_domain, ensure_domain, ensure_realm_domain, run_full, run_sync,
  start_sync, sync_all_domains,
}
use exordos_core.Dns.Kept.{IsKept}
use exordos_core.Dns.Rounds.{run_rounds, run_rounds-IsKept}
use exordos_core.Dns.Mirrored.{IsOrder}
use exordos_core.Dns.Zone.{IsUnique, IsMirrored, full_sync_domain-IsMirrored}
use exordos_core.Dns.Sample.{Rows, row, row_at, rows_of, zone, zone-IsServer, zone-IsReliable}

abbrev eco : (uuid value : ℕ) → List Tag → EcoRecord
eco uuid value tags = record {
  uuid = uuid;
  type = 1;
  ttl = 3600;
  disabled = false;
  record_value = value;
  tags = some tags;
}

-- A row of this realm, 7, one of an operator and one of the realm 8.
abbrev before : Rows
before =
    (30, eco 30 1 (realm 7 ∷ []))
    ∷ (31, eco 31 2 (plain 5 ∷ []))
    ∷ (32, eco 32 3 (realm 8 ∷ []))
    ∷ []

abbrev local : (uuid value : ℕ) → Record
local uuid value = record {
  uuid = uuid;
  domain = 2;
  type = 1;
  ttl = 3600;
  disabled = false;
  record_value = value;
  tags = plain 6 ∷ [];
  created_at = 100;
  updated_at = 100;
}

-- A new record and one whose uuid an operator's row has.
abbrev db : Database
db = record {
  domains = record { uuid = 2; name = 9; sync_to_ecosystem = true } ∷ [];
  records = local 33 4 ∷ local 31 5 ∷ [];
}

abbrev same_order : List ℕ → List ℕ
same_order us = us

mirrored :
    (run_rounds zone same_order 7 ((db, 200, 150, 20, 21) ∷ []) (before, initial)).0
    ≡ (31, eco 31 2 (plain 5 ∷ []))
      ∷ (32, eco 32 3 (realm 8 ∷ []))
      ∷ (33, eco 33 4 (plain 6 ∷ realm 7 ∷ []))
      ∷ []
unfolding run_rounds sync_all_domains start_sync ensure_realm_domain run_sync run_full filter
    ensure_domain is_named mark_domain full_sync full_sync_one lookup full_sync_domain
    eco_list_records is_filter_refused list_tagged reconcile delete_extra insert delete after_post
    eco_create_record eco_delete_record eco_update_record mark_for put_own create_missing delete_one
    eco_map has_key keys local_map records_of update_common update_one without_soa all_equal
    build_record_data is_only is_own is_same realm_marks single_mark row_at rows_of
mirrored = refl

run_rounds-IsKept_example :
    IsKept row 7 before
      (run_rounds zone same_order 7
        ((db, 200, 150, 20, 21) ∷ (db, 201, 151, 22, 23) ∷ [])
        (before, initial)).0
run_rounds-IsKept_example =
    run_rounds-IsKept zone row zone-IsServer 7 same_order
      ((db, 200, 150, 20, 21) ∷ (db, 201, 151, 22, 23) ∷ []) before initial

same_order-IsOrder : IsOrder same_order
same_order-IsOrder us u = (λ i. i, λ i. i)

db-IsUnique : IsUnique (records_of db.records 2)
unfolding records_of filter
db-IsUnique r q (inl e) (inl f) same = f ∙ sym e
db-IsUnique r q (inl e) (inr (inl f)) same = absurd (ground (arith, e, f, same))
db-IsUnique r q (inr (inl e)) (inl f) same = absurd (ground (arith, e, f, same))
db-IsUnique r q (inr (inl e)) (inr (inl f)) same = f ∙ sym e
db-IsUnique r q (inr (inl e)) (inr (inr j)) same = absurd j
db-IsUnique r q (inl e) (inr (inr j)) same = absurd j
db-IsUnique r q (inr (inr i)) j same = absurd i

full_sync_domain-IsMirrored_example :
    IsMirrored row 7 1
      (records_of db.records 2)
      before
      (full_sync_domain zone same_order db 200 2 1 7 before initial.mirror).0
full_sync_domain-IsMirrored_example =
    full_sync_domain-IsMirrored zone row zone-IsServer same_order same_order-IsOrder 7 1
      zone-IsReliable db 200 2 before initial.mirror refl refl db-IsUnique
