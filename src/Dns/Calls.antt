-- ===== src/Dns/Calls.antt =====
-- exordos_core/dns_sync/service.py: `_eco_list_records`, `_eco_create_record`, `_eco_update_record` and
-- `_eco_delete_record`, for one endpoint. A call that raises gives `false`, as its caller logs the exception.
use exordos_core.Base.{
  ℕ, ◌+◌, leb, Bool, true, false, not, Option, none, some, List, any, is_empty, if◌then◌else◌,
}
use exordos_core.Dns.{EcoRecord, tags_of, realm_marks, is_only, single_mark}
use exordos_core.Dns.Server.{
  Server, listed, filter_refused, list_failed, Answer, done, conflict, failed,
}

-- Seconds.
abbrev pub filter_refusal_ttl : ℕ
filter_refusal_ttl = 3600

-- What the service remembers of the endpoint.
pub record Mirror : Type 0 where
  pub filter_lang_refused : Option ℕ
  pub tags_unsupported : Bool

-- `_mark_for`
unfoldable pub mark_for : Mirror → ℕ → Option ℕ
mark_for m tag = if m.tags_unsupported then none else some tag

-- `_filter_refused`: its answer, and what it forgets.
unfoldable pub is_filter_refused : (now : ℕ) → Mirror → Bool × Mirror
is_filter_refused now m = elim m.filter_lang_refused [
  | none ↦ (false, m)
  | some refused_at ↦
      if leb (refused_at + filter_refusal_ttl) now
      then (false, record { filter_lang_refused = none; tags_unsupported = false })
      else (true, m)
]

abbrev pub has_tags : EcoRecord → Bool
has_tags r = elim r.tags [ none ↦ false | some tags ↦ true ]

-- `_observe_record_tags`
unfoldable pub observe_record_tags : List EcoRecord → Mirror → Mirror
observe_record_tags records m =
    if is_empty records then m else record m { tags_unsupported = not (any has_tags records) }

module _ {S : Type 0} (server : Server S) where
  -- The whole zone.
  unfoldable pub list_zone : (domain : ℕ) → S → Mirror → Option (List EcoRecord) × Mirror
  list_zone domain s m = elim (server.list_records domain none s) [
    | listed records ↦ (some records, observe_record_tags records m)
    | filter_refused ↦ (none, m)
    | list_failed ↦ (none, m)
  ]

  unfoldable pub list_tagged : (now domain tag : ℕ) → S → Mirror → Option (List EcoRecord) × Mirror
  list_tagged now domain tag s m = elim (server.list_records domain (some tag) s) [
    | listed records ↦ (some records, m)
    | filter_refused ↦ elim (server.list_records domain none s) [
      | listed records ↦
          (some records, observe_record_tags records (record m { filter_lang_refused = some now }))
      | filter_refused ↦ (none, m)
      | list_failed ↦ (none, m)
    ]
    | list_failed ↦ (none, m)
  ]

  unfoldable pub eco_list_records :
      (now domain tag : ℕ) → S → Mirror → Option (List EcoRecord) × Mirror
  eco_list_records now domain tag s m =
      let (refused, m') = is_filter_refused now m in
      if refused then list_zone domain s m' else list_tagged now domain tag s m'

  abbrev pub answered : Answer × S → Bool × S
  answered (done, s) = (true, s)
  answered (conflict, s) = (false, s)
  answered (failed, s) = (false, s)

  -- The PUT of a dictionary with the mark, behind the check of the mark of the row.
  unfoldable pub put_own : (domain uuid mark : ℕ) → EcoRecord → S → Bool × S
  put_own domain uuid mark r s = elim (server.get_record domain uuid s) [
    | none ↦ (false, s)
    | some existing ↦
        if is_only mark (realm_marks (tags_of existing.tags))
        then answered (server.put_record domain uuid r s)
        else (false, s)
  ]

  unfoldable pub eco_update_record : (domain uuid : ℕ) → EcoRecord → S → Bool × S
  eco_update_record domain uuid r s = elim (single_mark (realm_marks (tags_of r.tags))) [
    | none ↦ (false, s)
    | some mark ↦ put_own domain uuid mark r s
  ]

  unfoldable pub after_post : (domain : ℕ) → EcoRecord → Answer × S → Bool × S
  after_post domain r (done, s) = (true, s)
  after_post domain r (conflict, s) = eco_update_record domain r.uuid r s
  after_post domain r (failed, s) = (false, s)

  unfoldable pub eco_create_record : (domain : ℕ) → EcoRecord → S → Bool × S
  eco_create_record domain r s = after_post domain r (server.post_record domain r s)

  unfoldable pub eco_delete_record : (domain uuid : ℕ) → S → Bool × S
  eco_delete_record domain uuid s = answered (server.delete_record domain uuid s)
