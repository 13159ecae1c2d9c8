-- ===== src/Dns/Sample.antt =====
-- A server of one zone with a list of rows, for the runs of exordos_core/dns_sync/service.py.
use exordos_core.Base.{
  ℕ, ◌≡◌, ◌⊎◌, inl, inr, refl, sym, ap, ◌==◌, false, ◌&&◌, Option, none, some, List, [], ◌∷◌,
  if◌then◌else◌, arith, Bool-cases, Option-cases, IsIn,
}
use exordos_core.Base.Dict.{
  Dict, lookup, insert, delete, lookup-insert, lookup-insert_self, lookup-delete,
}
use exordos_core.Dns.{EcoRecord, tags_of}
use exordos_core.Dns.Server.{
  Server, listed, list_failed, realm_info, done, conflict, failed, IsStored, IsServer,
}
use exordos_core.Dns.Domains.{keys}
use exordos_core.Dns.Reliable.{IsFree, IsReliable}
use exordos_core.Dns.Maps.{lookup-keys}

-- A server with one zone, 1: its rows by their uuids.
abbrev pub Rows : Type 0
Rows = Dict EcoRecord

unfoldable pub row_at : Option EcoRecord → (domain uuid : ℕ) → Option EcoRecord
row_at none d u = none
row_at (some e) d u = if d == 1 && e.uuid == u then some e else none

abbrev pub row : Rows → (domain uuid : ℕ) → Option EcoRecord
row s d u = row_at (lookup u s) d u

-- The rows under these keys.
unfoldable pub rows_of : Rows → List ℕ → List EcoRecord
rows_of s [] = []
rows_of s (u ∷ us) =
    let rest = rows_of s us in
    elim (lookup u s) [ none ↦ rest | some e ↦ if e.uuid == u then e ∷ rest else rest ]

abbrev pub zone : Server Rows
zone = record {
  get_realm = λ s. realm_info (some 9);
  list_domains = λ s. some ((9, 1) ∷ []);
  post_domain = λ name s. (none, s);
  list_records = λ d tag s. if d == 1 then listed (rows_of s (keys s)) else list_failed;
  get_record = λ d u s. row s d u;
  post_record = λ d r s.
      if d == 1
      then elim (row s d r.uuid) [ none ↦ (done, insert r.uuid r s) | some e ↦ (conflict, s) ]
      else (failed, s);
  put_record = λ d u r s. if d == 1 && u == r.uuid then (done, insert u r s) else (failed, s);
  delete_record = λ d u s. if d == 1 then (done, delete u s) else (failed, s);
}

rows_of-IsIn :
    (s : Rows) (us : List ℕ) (e : EcoRecord) → IsIn e (rows_of s us) → lookup e.uuid s ≡ some e
unfolding rows_of
rows_of-IsIn s [] e i = absurd i
rows_of-IsIn s (u ∷ us) e i = elim (Option-cases (lookup u s)) [
  | inl missing ↦ rows_of-IsIn s us e (rw (missing, rows_of) at i)
  | inr (f, found) ↦ elim (Bool-cases (f.uuid == u)) [
    | inr other ↦ rows_of-IsIn s us e (rw other at (rw (found, rows_of) at i))
    | inl same ↦ elim (rw same at (rw (found, rows_of) at i)) [
      | inr later ↦ rows_of-IsIn s us e later
      | inl is ↦ rw is (ground (arith, same, found))
    ]
  ]
]

row-IsStored : (r e : EcoRecord) → r ≡ e → IsStored r e
row-IsStored r e same = record {
  uuid = ap (λ (x : EcoRecord). x.uuid) (sym same);
  type = ap (λ (x : EcoRecord). x.type) (sym same);
  ttl = ap (λ (x : EcoRecord). x.ttl) (sym same);
  disabled = ap (λ (x : EcoRecord). x.disabled) (sym same);
  record_value = ap (λ (x : EcoRecord). x.record_value) (sym same);
  tags = ap (λ (x : EcoRecord). tags_of x.tags) (sym same);
}

zone-list_row :
    (d : ℕ) (tag : Option ℕ) (s : Rows) (rows : List EcoRecord) (e : EcoRecord)
    → zone.list_records d tag s ≡ listed rows
    → IsIn e rows
    → row s d e.uuid ≡ some e
unfolding row_at
zone-list_row d tag s rows e answer i = elim (Bool-cases (d == 1)) [
  | inr other ↦ absurd (ground (arith, other, answer))
  | inl one ↦
      let all : rows_of s (keys s) ≡ rows = ground (arith, one, answer) in
      ground (arith, one, rows_of-IsIn s (keys s) e (rw (sym all) at i))
]

zone-post_keeps :
    (d : ℕ) (r : EcoRecord) (s : Rows) (d' u : ℕ) (e : EcoRecord)
    → row s d' u ≡ some e
    → row (zone.post_record d r s).1 d' u ≡ some e
unfolding row_at
zone-post_keeps d r s d' u e there = ground (arith, there, lookup-insert r.uuid u r s)

zone-post_row :
    (d : ℕ) (r : EcoRecord) (s : Rows) (d' u : ℕ) (e : EcoRecord)
    → row (zone.post_record d r s).1 d' u ≡ some e
    → (row s d' u ≡ some e) ⊎ IsStored r e
unfolding row_at
zone-post_row d r s d' u e there = elim (Bool-cases (r.uuid == u && d == 1)) [
  | inr other ↦ inl (ground (arith, other, there, lookup-insert r.uuid u r s))
  | inl same ↦ elim (Option-cases (row s d r.uuid)) [
    | inr (f, found) ↦ inl (ground (arith, same, found, there))
    | inl free ↦
        inr (row-IsStored r e (ground (arith, same, free, there, lookup-insert r.uuid u r s)))
  ]
]

zone-put_keeps :
    (d u : ℕ) (r : EcoRecord) (s : Rows) (d' u' : ℕ)
    → (d' == d && u' == u) ≡ false
    → row (zone.put_record d u r s).1 d' u' ≡ row s d' u'
unfolding row_at
zone-put_keeps d u r s d' u' apart = ground (arith, apart, lookup-insert u u' r s)

zone-put_row :
    (d u : ℕ) (r : EcoRecord) (s : Rows) (e : EcoRecord)
    → row (zone.put_record d u r s).1 d u ≡ some e
    → (row s d u ≡ some e) ⊎ IsStored r e
unfolding row_at
zone-put_row d u r s e there = elim (Bool-cases (d == 1 && u == r.uuid)) [
  | inr other ↦ inl (ground (arith, other, there))
  | inl same ↦ inr (row-IsStored r e (ground (arith, same, there, lookup-insert u u r s)))
]

zone-delete_keeps :
    (d u : ℕ) (s : Rows) (d' u' : ℕ)
    → (d' == d && u' == u) ≡ false
    → row (zone.delete_record d u s).1 d' u' ≡ row s d' u'
unfolding row_at
zone-delete_keeps d u s d' u' apart = ground (arith, apart, lookup-delete u u' s)

zone-delete_row :
    (d u : ℕ) (s : Rows) (e : EcoRecord)
    → row (zone.delete_record d u s).1 d u ≡ some e
    → row s d u ≡ some e
unfolding row_at
zone-delete_row d u s e there = ground (arith, there, lookup-delete u u s)

pub zone-IsServer : IsServer zone row
zone-IsServer = record {
  get_row = λ d u s e there. there;
  list_row = zone-list_row;
  domain_row = λ name s d u. refl;
  post_keeps = zone-post_keeps;
  post_row = zone-post_row;
  put_keeps = zone-put_keeps;
  put_row = zone-put_row;
  delete_keeps = zone-delete_keeps;
  delete_row = zone-delete_row;
}

rows_of-complete :
    (s : Rows) (us : List ℕ) (u : ℕ) (e : EcoRecord)
    → IsIn u us
    → row s 1 u ≡ some e
    → IsIn e (rows_of s us)
unfolding rows_of row_at
rows_of-complete s [] u e i there = absurd i
rows_of-complete s (v ∷ us) u e i there = elim (Option-cases (lookup v s)) [
  | inl missing ↦ elim i [
    | inl is ↦ absurd (ground (arith, is, missing, there))
    | inr j ↦ rw (missing, rows_of) (rows_of-complete s us u e j there)
  ]
  | inr (f, found) ↦ elim (Bool-cases (f.uuid == v)) [
    | inr other ↦ elim i [
      | inl is ↦ absurd (ground (arith, is, found, other, there))
      | inr j ↦ rw (found, rows_of) (rw other (rows_of-complete s us u e j there))
    ]
    | inl same ↦
        rw (found, rows_of)
          (rw same (elim i [
            | inl is ↦ inl (ground (arith, is, found, there))
            | inr j ↦ inr (rows_of-complete s us u e j there)
          ]))
  ]
]

in_keys : (s : Rows) (u : ℕ) (e : EcoRecord) → row s 1 u ≡ some e → IsIn u (keys s)
unfolding row_at
in_keys s u e there = elim (Option-cases (lookup u s)) [
  | inr (f, found) ↦ lookup-keys s u f found
  | inl missing ↦ absurd (ground (arith, missing, there))
]

zone-post :
    (r : EcoRecord) (s : Rows)
    → IsFree row s r.uuid
    → ((zone.post_record 1 r s).0 ≡ done)
      × ((e : EcoRecord) × (row (zone.post_record 1 r s).1 1 r.uuid ≡ some e) × IsStored r e)
unfolding row_at
zone-post r s free = (
  ground (arith, free 1),
  (r, ground (arith, free 1, lookup-insert_self r.uuid r s), row-IsStored r r refl),
)

pub zone-IsReliable : IsReliable zone row 1
unfolding row_at
zone-IsReliable = record {
  row_uuid = λ d u s e there. ground (arith, there);
  get = λ u s e there. there;
  list = λ tag s. (
    rows_of s (keys s),
    refl,
    λ u e there own. rows_of-complete s (keys s) u e (in_keys s u e there) there,
  );
  post = zone-post;
  put = λ r s e there. (r, ground (arith, lookup-insert_self r.uuid r s), row-IsStored r r refl);
  delete = λ u s. ground (arith, lookup-delete u u s);
}
