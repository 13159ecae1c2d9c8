-- ===== src/Dns/Zone.antt =====
-- `_full_sync_domain` of exordos_core/dns_sync/service.py against its specification.
use exordos_core.Base.{
  ℕ, ◌≡◌, ◌⊎◌, inl, inr, refl, sym, ap, ◌∙◌, subst, ◌==◌, true, false, not, Option, none, some,
  List, [], arith, Option-cases, IsIn, filter-IsIn, IsIn-filter,
}
use exordos_core.Base.Dict.{Dict, lookup}
use exordos_core.Dns.{soa, Record, Database, EcoRecord, is_own, build_record_data}
use exordos_core.Dns.Server.{Server, listed, IsServer}
use exordos_core.Dns.Calls.{Mirror, mark_for, is_filter_refused, list_tagged, eco_list_records}
use exordos_core.Dns.Domains.{
  local_map, eco_map, without_soa, records_of, reconcile, full_sync_domain,
}
use exordos_core.Dns.Sync.{eco_map-IsIn}
use exordos_core.Dns.Reliable.{IsFree, IsReliable, IsHeld}
use exordos_core.Dns.Maps.{eco_map-lookup, local_map-lookup, local_map-IsIn, local_map-IsKeyed}
use exordos_core.Dns.Copied.{IsCopy, is_same-IsCopy}
use exordos_core.Dns.Mirrored.{IsOrder, reconcile_free, reconcile_own, reconcile_gone}

-- A row of the realm that the mirror looks at.
abbrev pub IsOwnRow :
    {S : Type 0}
    → (S → (domain uuid : ℕ) → Option EcoRecord)
    → (tag d : ℕ) → S
    → ℕ
    → EcoRecord
    → Type 0
IsOwnRow row tag d s u e = (row s d u ≡ some e) × (is_own tag e ≡ true) × ((e.type == soa) ≡ false)

-- No two of the records have one uuid.
abbrev pub IsUnique : List Record → Type 0
IsUnique records = (r q : Record) → IsIn r records → IsIn q records → q.uuid ≡ r.uuid → q ≡ r

-- The rows of the realm are the records: each record whose uuid was free, or the realm's, has a row with its
-- fields and tags and the mark, and no row without a record is left.
pub record IsMirrored {S : Type 0} (row : S → (domain uuid : ℕ) → Option EcoRecord) (tag d : ℕ)
    (records : List Record) (s s' : S) : Type 0 where
  pub held :
      (r : Record)
      → IsIn r records
      → IsFree row s r.uuid ⊎ ((e : EcoRecord) × IsOwnRow row tag d s r.uuid e)
      → (f : EcoRecord) × (row s' d r.uuid ≡ some f) × (is_own tag f ≡ true) × IsCopy tag r f
  pub gone :
      (u : ℕ) (e : EcoRecord)
      → IsOwnRow row tag d s u e
      → ((r : Record) → IsIn r records → r.uuid ≡ u → ⊥)
      → row s' d u ≡ none

module _ {S : Type 0} (server : Server S) (row : S → (domain uuid : ℕ) → Option EcoRecord)
    (laws : IsServer server row) (order : List ℕ → List ℕ) (ordered : IsOrder order) (tag d : ℕ)
    (sure : IsReliable server row d) where
  -- The dictionary of a zone that was listed.
  zone-IsShown :
      (s : S) (asked : Option ℕ) (rows : List EcoRecord)
      → server.list_records d asked s ≡ listed rows
      → (u : ℕ) (e : EcoRecord) → lookup u (eco_map (without_soa rows) []) ≡ some e
      → row s d u ≡ some e
  unfolding without_soa lookup
  zone-IsShown s asked rows answer u e there =
      elim (eco_map-IsIn server row laws tag (without_soa rows) [] u e there) [
        | inr nothing ↦ absurd (cc nothing)
        | inl (inside, same) ↦
            let (in_zone, kept) =
              IsIn-filter (λ (r : EcoRecord). not (r.type == soa)) e rows inside in
            ap (λ (v : ℕ). row s d v) (sym same) ∙ laws.list_row d asked s rows e answer in_zone
      ]

  zone-lookup :
      (s : S) (asked : Option ℕ) (rows : List EcoRecord) (u : ℕ) (e : EcoRecord)
      → server.list_records d asked s ≡ listed rows
      → IsIn e rows
      → IsOwnRow row tag d s u e
      → lookup u (eco_map (without_soa rows) []) ≡ some e
  unfolding without_soa
  zone-lookup s asked rows u e answer inside (there, own, kind) =
      eco_map-lookup (without_soa rows) [] u e
        (λ f i same.
          let (in_zone, kept) = IsIn-filter (λ (r : EcoRecord). not (r.type == soa)) f rows i in
          let here : row s d u ≡ some f =
            ap (λ (v : ℕ). row s d v) (sym same) ∙ laws.list_row d asked s rows f answer in_zone in
          ground (arith, here, there))
        (inl (
          filter-IsIn (λ (r : EcoRecord). not (r.type == soa)) e rows inside (ap not kind),
          sure.row_uuid d u s e there,
        ))

  module _ (records : List Record) (unique : IsUnique records) where
    local-lookup : (r : Record) → IsIn r records → lookup r.uuid (local_map records []) ≡ some r
    local-lookup r inside =
        local_map-lookup records [] r (λ q i same. unique r q inside i same) (inl inside)

    local-none :
        (u : ℕ)
        → ((r : Record) → IsIn r records → r.uuid ≡ u → ⊥)
        → lookup u (local_map records []) ≡ none
    unfolding lookup
    local-none u out = elim (Option-cases (lookup u (local_map records []))) [
      | inl missing ↦ missing
      | inr (r, found) ↦ elim (local_map-IsIn records [] u r found) [
        | inl (inside, same) ↦ absurd (out r inside same)
        | inr nothing ↦ absurd (cc nothing)
      ]
    ]

    held_row :
        (r : Record) (s : S)
        → IsHeld server row laws tag d sure (build_record_data r (some tag)) s
        → (f : EcoRecord) × (row s d r.uuid ≡ some f) × (is_own tag f ≡ true) × IsCopy tag r f
    unfolding build_record_data
    held_row r s h = (h.found, h.there, h.own, is_same-IsCopy tag r h.found h.same)

    reconcile-IsMirrored :
        (s : S) (rows : List EcoRecord)
        → server.list_records d (some tag) s ≡ listed rows
        → ((u : ℕ) (e : EcoRecord) → row s d u ≡ some e → is_own tag e ≡ true → IsIn e rows)
        → IsMirrored row tag d records s (
            reconcile server order d
              (some tag)
              (local_map records [])
              (eco_map (without_soa rows) [])
              s)
    reconcile-IsMirrored s rows answer complete =
        let locals : Dict Record = local_map records [] in
        let ecos : Dict EcoRecord = eco_map (without_soa rows) [] in
        let keyed = local_map-IsKeyed records in
        let shown = zone-IsShown s (some tag) rows answer in
        record {
          held = λ r inside slot. held_row r _ (elim slot [
            | inl free ↦
                reconcile_free server row laws order ordered tag d sure locals ecos keyed r s shown
                  (local-lookup r inside) free
            | inr (e, (there, own, kind)) ↦
                reconcile_own server row laws order ordered tag d sure locals ecos keyed r e s shown
                  (local-lookup r inside)
                  (zone-lookup s (some tag) rows r.uuid e answer (complete r.uuid e there own)
                    (there, own, kind))
                  own
          ]);
          gone = λ u e (there, own, kind) out.
              reconcile_gone server row laws order ordered tag d sure locals ecos keyed u e s
                (local-none u out)
                (zone-lookup s (some tag) rows u e answer (complete u e there own)
                  (there, own, kind))
                own;
        }

  zone_listed :
      (now : ℕ) (s : S) (m : Mirror) (rows : List EcoRecord)
      → m.filter_lang_refused ≡ none
      → server.list_records d (some tag) s ≡ listed rows
      → eco_list_records server now d tag s m ≡ (some rows, m)
  unfolding eco_list_records is_filter_refused list_tagged
  zone_listed now s m rows asked answer = ground (arith, asked, answer)

  tag_marked : (m : Mirror) → m.tags_unsupported ≡ false → mark_for m tag ≡ some tag
  unfolding mark_for
  tag_marked m tagged = ground (arith, tagged)

  full_sync_domain_lem :
      (db : Database) (now domain : ℕ) (s : S) (m : Mirror) (rows : List EcoRecord)
      → eco_list_records server now d tag s m ≡ (some rows, m)
      → mark_for m tag ≡ some tag
      → (full_sync_domain server order db now domain d tag s m).0
        ≡ reconcile server order d
            (some tag)
            (local_map (records_of db.records domain) [])
            (eco_map (without_soa rows) [])
            s
  unfolding full_sync_domain
  full_sync_domain_lem db now domain s m rows answer marked =
      rw (answer, full_sync_domain)
        (rw (ap (λ (a : Option (List EcoRecord) × Mirror). mark_for a.1 tag) answer ∙ marked) refl)

  -- The reconciliation of a zone, at a server with tags and filters that carries out each request, and for
  -- local records with distinct uuids: the rows of the realm are then the records of the domain, without SOA
  -- records, as `IsMirrored` has it.
  pub full_sync_domain-IsMirrored :
      (db : Database) (now domain : ℕ) (s : S) (m : Mirror)
      → m.filter_lang_refused ≡ none
      → m.tags_unsupported ≡ false
      → IsUnique (records_of db.records domain)
      → IsMirrored row tag d
          (records_of db.records domain)
          s
          (full_sync_domain server order db now domain d tag s m).0
  full_sync_domain-IsMirrored db now domain s m asked tagged unique =
      let (rows, answer, complete) = sure.list tag s in
      let run =
        full_sync_domain_lem db now domain s m rows (zone_listed now s m rows asked answer)
          (tag_marked m tagged) in
      subst (IsMirrored row tag d (records_of db.records domain) s) (sym run)
        (reconcile-IsMirrored (records_of db.records domain) unique s rows answer complete)
