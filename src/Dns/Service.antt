-- ===== src/Dns/Service.antt =====
-- exordos_core/dns_sync/service.py: `_ensure_realm_domain` and `_sync_all_domains`. `mono` is the clock of
-- the full syncs in seconds, `wall` the one of the records; fresh uuids are arguments.
use exordos_core.Base.{
  ℕ, ◌+◌, leb, ◌==◌, Bool, true, false, Option, none, some, List, [], ◌∷◌, filter, is_empty,
  if◌then◌else◌,
}
use exordos_core.Dns.{soa, Domain, Record, Database}
use exordos_core.Dns.Server.{Server, realm_info, realm_failed}
use exordos_core.Dns.Calls.{Mirror, mark_for}
use exordos_core.Dns.Domains.{full_sync_interval, full_sync, fast_sync}

-- The state of the service, for one endpoint.
pub record Service : Type 0 where
  pub mirror : Mirror
  pub initialized : Bool
  pub last_full_sync_at : ℕ
  pub last_fast_sync_dt : Option ℕ

-- `__init__`
abbrev pub initial : Service
initial = record {
  mirror = record { filter_lang_refused = none; tags_unsupported = false };
  initialized = false;
  last_full_sync_at = full_sync_interval + 1;
  last_fast_sync_dt = none;
}

unfoldable pub is_named : (name : ℕ) → List Domain → Bool
is_named name [] = false
is_named name (d ∷ domains) =
    let later = is_named name domains in if d.name == name then true else later

-- The first domain with the name is marked.
unfoldable pub mark_domain : (name : ℕ) → List Domain → List Domain
mark_domain name [] = []
mark_domain name (d ∷ domains) =
    let rest = mark_domain name domains in
    if d.name == name then record d { sync_to_ecosystem = true } ∷ domains else d ∷ rest

-- The record that `Domain.insert` adds; its fields but the type do not matter here.
abbrev soa_record : (uuid domain now : ℕ) → Record
soa_record uuid domain now = record {
  uuid = uuid;
  domain = domain;
  type = soa;
  ttl = 3600;
  disabled = false;
  record_value = 0;
  tags = [];
  created_at = now;
  updated_at = now;
}

unfoldable pub ensure_domain : (wall uuid soa_uuid name : ℕ) → Database → Database
ensure_domain wall uuid soa_uuid name db =
    if is_named name db.domains
    then record db { domains = mark_domain name db.domains }
    else record {
      domains = record { uuid = uuid; name = name; sync_to_ecosystem = true } ∷ db.domains;
      records = soa_record soa_uuid uuid wall ∷ db.records;
    }

module _ {S : Type 0} (server : Server S) where
  -- `_ensure_realm_domain`; a request that raises initializes nothing either.
  unfoldable pub ensure_realm_domain : (wall uuid soa_uuid : ℕ) → Database → S → Bool × Database
  ensure_realm_domain wall uuid soa_uuid db s = elim (server.get_realm s) [
    | realm_failed ↦ (false, db)
    | realm_info domain ↦ elim domain [
      | none ↦ (false, db)
      | some name ↦ (true, ensure_domain wall uuid soa_uuid name db)
    ]
  ]

  module _ (order : List ℕ → List ℕ) where
    -- The full reconciliation, for the domains to synchronise; it raises if the domains are not listed.
    unfoldable pub run_full :
        (mono wall tag : ℕ) → Database → List Domain → S → Service → S × Service
    run_full mono wall tag db domains s v =
        if is_empty domains then (s, v) else elim (server.list_domains s) [
          | none ↦ (s, v)
          | some ecos ↦
              let (s', m) = full_sync server order db mono tag ecos domains (s, v.mirror) in
              (s', record v { mirror = m; last_full_sync_at = mono; last_fast_sync_dt = some wall })
        ]

    unfoldable pub run_fast : (wall tag : ℕ) → Database → S → Service → S × Service
    run_fast wall tag db s v = elim v.last_fast_sync_dt [
      | none ↦ (s, v)
      | some since ↦ elim (fast_sync server db since (mark_for v.mirror tag) s) [
        | none ↦ (s, v)
        | some s' ↦ (s', record v { last_fast_sync_dt = some wall })
      ]
    ]

    -- `_sync_all_domains` behind the initialization
    unfoldable pub run_sync : (mono wall tag : ℕ) → Database → S → Service → S × Service
    run_sync mono wall tag db s v =
        if leb (v.last_full_sync_at + full_sync_interval) mono
        then run_full mono wall tag db (filter (λ (d : Domain). d.sync_to_ecosystem) db.domains) s v
        else run_fast wall tag db s v

    abbrev with_database : Database → S × Service → Database × S × Service
    with_database db (s, v) = (db, s, v)

    -- The first call, by whether the domain of the realm is there.
    unfoldable pub start_sync :
        (mono wall tag : ℕ) → S → Service → Bool × Database → Database × S × Service
    start_sync mono wall tag s v (initialized, db) =
        if initialized
        then with_database db (run_sync mono wall tag db s (record v { initialized = true }))
        else (db, s, v)

    unfoldable pub sync_all_domains :
        (mono wall uuid soa_uuid tag : ℕ) → Database × S × Service → Database × S × Service
    sync_all_domains mono wall uuid soa_uuid tag (db, s, v) =
        if v.initialized
        then with_database db (run_sync mono wall tag db s v)
        else start_sync mono wall tag s v (ensure_realm_domain wall uuid soa_uuid db s)
