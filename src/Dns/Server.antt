-- ===== src/Dns/Server.antt =====
-- The HTTP API of the ecosystem server that exordos_core/dns_sync/service.py calls, as an interface: what
-- it answers, and what its documentation says of the rows behind it.
use exordos_core.Base.{ℕ, ◌≡◌, ◌⊎◌, ◌==◌, false, ◌&&◌, Option, some, List, IsIn}
use exordos_core.Base.Dict.{Dict}
use exordos_core.Dns.{EcoRecord, tags_of}

-- The answer to a GET of the records of a zone. An old server refuses the filter with 400, or with 500
-- and a KeyError.
pub data ListAnswer : Type 0 where
  listed : List EcoRecord → ListAnswer
  filter_refused : ListAnswer
  list_failed : ListAnswer

pub data RealmAnswer : Type 0 where
  realm_info : (domain : Option ℕ) → RealmAnswer
  realm_failed : RealmAnswer

-- The answer to a request that writes; a request that failed may have been carried out.
pub data Answer : Type 0 where
  done : Answer
  conflict : Answer
  failed : Answer

-- A domain is a number here, its uuid at the server; none is a request that failed.
pub record Server (S : Type 0) : Type 0 where
  pub get_realm : S → RealmAnswer
  pub list_domains : S → Option (Dict ℕ)
  pub post_domain : (name : ℕ) → S → Option ℕ × S
  pub list_records : (domain : ℕ) (tag : Option ℕ) → S → ListAnswer
  pub get_record : (domain uuid : ℕ) → S → Option EcoRecord
  pub post_record : (domain : ℕ) → EcoRecord → S → Answer × S
  pub put_record : (domain uuid : ℕ) → EcoRecord → S → Answer × S
  pub delete_record : (domain uuid : ℕ) → S → Answer × S

-- The row that a server keeps of a dictionary.
pub record IsStored (r e : EcoRecord) : Type 0 where
  pub uuid : e.uuid ≡ r.uuid
  pub type : e.type ≡ r.type
  pub ttl : e.ttl ≡ r.ttl
  pub disabled : e.disabled ≡ r.disabled
  pub record_value : e.record_value ≡ r.record_value
  pub tags : tags_of e.tags ≡ tags_of r.tags

module _ {S : Type 0} (server : Server S) (row : S → (domain uuid : ℕ) → Option EcoRecord) where
  -- What a request writes, whether it fails or not: at most the row that it names.
  pub record IsServer : Type 0 where
    pub get_row :
        (d u : ℕ) (s : S) (e : EcoRecord) → server.get_record d u s ≡ some e → row s d u ≡ some e
    pub list_row :
        (d : ℕ) (tag : Option ℕ) (s : S) (rows : List EcoRecord) (e : EcoRecord)
        → server.list_records d tag s ≡ listed rows
        → IsIn e rows
        → row s d e.uuid ≡ some e
    pub domain_row :
        (name : ℕ) (s : S) (d u : ℕ) → row (server.post_domain name s).1 d u ≡ row s d u
    pub post_keeps :
        (d : ℕ) (r : EcoRecord) (s : S) (d' u : ℕ) (e : EcoRecord)
        → row s d' u ≡ some e
        → row (server.post_record d r s).1 d' u ≡ some e
    pub post_row :
        (d : ℕ) (r : EcoRecord) (s : S) (d' u : ℕ) (e : EcoRecord)
        → row (server.post_record d r s).1 d' u ≡ some e
        → (row s d' u ≡ some e) ⊎ IsStored r e
    pub put_keeps :
        (d u : ℕ) (r : EcoRecord) (s : S) (d' u' : ℕ)
        → (d' == d && u' == u) ≡ false
        → row (server.put_record d u r s).1 d' u' ≡ row s d' u'
    pub put_row :
        (d u : ℕ) (r : EcoRecord) (s : S) (e : EcoRecord)
        → row (server.put_record d u r s).1 d u ≡ some e
        → (row s d u ≡ some e) ⊎ IsStored r e
    pub delete_keeps :
        (d u : ℕ) (s : S) (d' u' : ℕ)
        → (d' == d && u' == u) ≡ false
        → row (server.delete_record d u s).1 d' u' ≡ row s d' u'
    pub delete_row :
        (d u : ℕ) (s : S) (e : EcoRecord)
        → row (server.delete_record d u s).1 d u ≡ some e
        → row s d u ≡ some e
