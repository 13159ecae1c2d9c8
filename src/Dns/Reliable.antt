-- ===== src/Dns/Reliable.antt =====
-- What the requests of exordos_core/dns_sync/service.py write at a server that carries them all out.
use exordos_core.Base.{
  ℕ, ◌≡◌, ◌⊎◌, inl, inr, refl, sym, ap, ◌∙◌, subst, ◌==◌, true, false, Option, none, some, List, [],
  ◌∷◌, arith, Bool-cases, Option-cases, IsIn,
}
use exordos_core.Dns.{
  Tag, realm, plain, EcoRecord, tags_of, realm_marks, is_only, is_own, is_same, same_tags,
  remove_tag, tag_eq,
}
use exordos_core.Dns.Server.{Server, listed, Answer, done, conflict, failed, IsStored, IsServer}
use exordos_core.Dns.Calls.{
  put_own, eco_update_record, after_post, eco_create_record, eco_delete_record,
}
use exordos_core.Dns.Safe.{marks_of, stored-is_own, answered_lem}

-- Nothing is under the uuid, in any zone.
abbrev pub IsFree :
    {S : Type 0} → (S → (domain uuid : ℕ) → Option EcoRecord) → S → (uuid : ℕ) → Type 0
IsFree row s u = (d : ℕ) → row s d u ≡ none

module _ {S : Type 0} (server : Server S) (row : S → (domain uuid : ℕ) → Option EcoRecord) where
  -- A server that answers each request for a zone, and carries it out.
  pub record IsReliable (d : ℕ) : Type 0 where
    pub row_uuid : (d' u : ℕ) (s : S) (e : EcoRecord) → row s d' u ≡ some e → e.uuid ≡ u
    pub get :
        (u : ℕ) (s : S) (e : EcoRecord) → row s d u ≡ some e → server.get_record d u s ≡ some e
    pub list :
        (tag : ℕ) (s : S)
        → (rows : List EcoRecord) × (server.list_records d (some tag) s ≡ listed rows)
          × ((u : ℕ) (e : EcoRecord) → row s d u ≡ some e → is_own tag e ≡ true → IsIn e rows)
    pub post :
        (r : EcoRecord) (s : S)
        → IsFree row s r.uuid
        → ((server.post_record d r s).0 ≡ done)
          × ((e : EcoRecord) × (row (server.post_record d r s).1 d r.uuid ≡ some e) × IsStored r e)
    pub put :
        (r : EcoRecord) (s : S) (e : EcoRecord)
        → row s d r.uuid ≡ some e
        → (f : EcoRecord) × (row (server.put_record d r.uuid r s).1 d r.uuid ≡ some f)
          × IsStored r f
    pub delete : (u : ℕ) (s : S) → row (server.delete_record d u s).1 d u ≡ none

tag_eq_refl : (t : Tag) → tag_eq t t ≡ true
unfolding tag_eq
tag_eq_refl (realm r) = ground arith
tag_eq_refl (plain t) = ground arith

same_tags_refl : (tags : List Tag) → same_tags tags tags ≡ true
unfolding same_tags remove_tag
same_tags_refl [] = refl
same_tags_refl (t ∷ tags) = ground (arith, tag_eq_refl t, same_tags_refl tags)

stored-is_same : (r e : EcoRecord) → IsStored r e → is_same r e ≡ true
unfolding is_same
stored-is_same r e stored = rw stored.tags (
    ground (
      arith,
      stored.type,
      stored.ttl,
      stored.disabled,
      stored.record_value,
      same_tags_refl (tags_of r.tags),
    ))

module _ {S : Type 0} (server : Server S) (row : S → (domain uuid : ℕ) → Option EcoRecord)
    (laws : IsServer server row) (tag d : ℕ) (sure : IsReliable server row d) where
  -- The row of the dictionary is there, with the mark alone, and as it should be.
  pub record IsHeld (r : EcoRecord) (s : S) : Type 0 where
    pub found : EcoRecord
    pub there : row s d r.uuid ≡ some found
    pub own : is_own tag found ≡ true
    pub same : is_same r found ≡ true

  pub IsHeld-≡ :
      (r : EcoRecord) (s s' : S) → row s' d r.uuid ≡ row s d r.uuid → IsHeld r s → IsHeld r s'
  IsHeld-≡ r s s' e h = record { found = h.found; there = e ∙ h.there; own = h.own; same = h.same }

  IsHeld-stored :
      (r f : EcoRecord) (s : S)
      → marks_of r ≡ some tag
      → row s d r.uuid ≡ some f
      → IsStored r f
      → IsHeld r s
  IsHeld-stored r f s marked there stored = record {
    found = f;
    there = there;
    own = stored-is_own tag r f stored marked;
    same = stored-is_same r f stored;
  }

  -- An update of a row with the mark alone.
  pub update-IsHeld :
      (r e : EcoRecord) (s : S)
      → marks_of r ≡ some tag
      → row s d r.uuid ≡ some e
      → is_own tag e ≡ true
      → IsHeld r (eco_update_record server d r.uuid r s).1
  unfolding eco_update_record put_own is_own
  update-IsHeld r e s marked there own =
      let (f, here, stored) = sure.put r s e there in
      let held = IsHeld-stored r f (server.put_record d r.uuid r s).1 marked here stored in
      rw (marked, eco_update_record)
        (rw (sure.get r.uuid s e there, put_own)
          (rw own (
            subst (IsHeld r)
              (sym (answered_lem server row laws tag (server.put_record d r.uuid r s))) held)))

  after_post-IsHeld :
      (r : EcoRecord) (a : Answer × S)
      → marks_of r ≡ some tag
      → IsHeld r a.1
      → IsHeld r (after_post server d r a).1
  unfolding after_post
  after_post-IsHeld r (done, s) marked held = held
  after_post-IsHeld r (conflict, s) marked held =
      update-IsHeld r held.found s marked held.there held.own
  after_post-IsHeld r (failed, s) marked held = held

  pub create-IsHeld :
      (r : EcoRecord) (s : S)
      → marks_of r ≡ some tag
      → IsFree row s r.uuid ⊎ IsHeld r s
      → IsHeld r (eco_create_record server d r s).1
  unfolding eco_create_record
  create-IsHeld r s marked (inl free) =
      let (answer, kept) = sure.post r s free in
      let (f, here, stored) = kept in
      after_post-IsHeld r (server.post_record d r s) marked (IsHeld-stored r f _ marked here stored)
  create-IsHeld r s marked (inr held) =
      after_post-IsHeld r (server.post_record d r s) marked (record {
        found = held.found;
        there = laws.post_keeps d r s d r.uuid held.found held.there;
        own = held.own;
        same = held.same;
      })

  put_own-apart :
      (mark : ℕ) (r : EcoRecord) (s : S) (d' u : ℕ)
      → (u == r.uuid) ≡ false
      → row (put_own server d r.uuid mark r s).1 d' u ≡ row s d' u
  unfolding put_own
  put_own-apart mark r s d' u apart = elim (Option-cases (server.get_record d r.uuid s)) [
    | inl missing ↦ rw (missing, put_own) refl
    | inr (e, found) ↦ elim (Bool-cases (is_only mark (realm_marks (tags_of e.tags)))) [
      | inr other ↦ rw (found, put_own) (rw other refl)
      | inl own ↦
          rw (found, put_own)
            (rw own (
              ap (λ (t : S). row t d' u)
                (answered_lem server row laws tag (server.put_record d r.uuid r s))
              ∙ laws.put_keeps d r.uuid r s d' u (ground (arith, apart))))
    ]
  ]

  -- The requests for one uuid leave the rows of the others alone.
  pub update-apart :
      (r : EcoRecord) (s : S) (d' u : ℕ)
      → (u == r.uuid) ≡ false
      → row (eco_update_record server d r.uuid r s).1 d' u ≡ row s d' u
  unfolding eco_update_record
  update-apart r s d' u apart = elim (Option-cases (marks_of r)) [
    | inl bare ↦ rw (bare, eco_update_record) refl
    | inr (mark, given) ↦ rw (given, eco_update_record) (put_own-apart mark r s d' u apart)
  ]

  after_post-apart :
      (r : EcoRecord) (a : Answer × S) (d' u : ℕ)
      → (u == r.uuid) ≡ false
      → row (after_post server d r a).1 d' u ≡ row a.1 d' u
  unfolding after_post
  after_post-apart r (done, s) d' u apart = refl
  after_post-apart r (conflict, s) d' u apart = update-apart r s d' u apart
  after_post-apart r (failed, s) d' u apart = refl

  post-apart :
      (r : EcoRecord) (s : S) (d' u : ℕ)
      → (u == r.uuid) ≡ false
      → row (server.post_record d r s).1 d' u ≡ row s d' u
  post-apart r s d' u apart = elim (Option-cases (row (server.post_record d r s).1 d' u)) [
    | inr (e, here) ↦ elim (laws.post_row d r s d' u e here) [
      | inl old ↦ here ∙ sym old
      | inr stored ↦ absurd (
          ground
            (arith, apart, stored.uuid, sure.row_uuid d' u (server.post_record d r s).1 e here))
    ]
    | inl nothing ↦ elim (Option-cases (row s d' u)) [
      | inl before ↦ nothing ∙ sym before
      | inr (e, before) ↦ absurd (ground (arith, nothing, laws.post_keeps d r s d' u e before))
    ]
  ]

  pub create-apart :
      (r : EcoRecord) (s : S) (d' u : ℕ)
      → (u == r.uuid) ≡ false
      → row (eco_create_record server d r s).1 d' u ≡ row s d' u
  unfolding eco_create_record
  create-apart r s d' u apart =
      after_post-apart r (server.post_record d r s) d' u apart ∙ post-apart r s d' u apart

  pub delete-apart :
      (v : ℕ) (s : S) (u : ℕ)
      → (u == v) ≡ false
      → row (eco_delete_record server d v s).1 d u ≡ row s d u
  unfolding eco_delete_record
  delete-apart v s u apart =
      ap (λ (t : S). row t d u) (answered_lem server row laws tag (server.delete_record d v s))
      ∙ laws.delete_keeps d v s d u (ground (arith, apart))

  pub delete-none : (u : ℕ) (s : S) → row (eco_delete_record server d u s).1 d u ≡ none
  unfolding eco_delete_record
  delete-none u s =
      ap (λ (t : S). row t d u) (answered_lem server row laws tag (server.delete_record d u s))
      ∙ sure.delete u s
