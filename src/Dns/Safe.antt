-- ===== src/Dns/Safe.antt =====
-- The rows of a server that the calls of exordos_core/dns_sync/service.py leave alone.
use exordos_core.Base.{
  ℕ, ◌≡◌, ◌⊎◌, inl, inr, refl, sym, ap, ◌∙◌, subst, ◌==◌, Bool, true, false, ◌&&◌, Option, none,
  some, arith, Bool-cases, Option-cases,
}
use exordos_core.Dns.{
  Record, EcoRecord, tags_of, realm_marks, is_only, single_mark, is_own, build_record_data,
}
use exordos_core.Dns.Server.{Server, Answer, done, conflict, failed, IsStored, IsServer}
use exordos_core.Dns.Calls.{
  answered, put_own, eco_update_record, after_post, eco_create_record, eco_delete_record,
}
use exordos_core.Dns.Marks.{single_mark-is_only, build-single_mark}

module _ {S : Type 0} (row : S → (domain uuid : ℕ) → Option EcoRecord) (tag : ℕ) where
  -- No row that stands there is another's.
  abbrev pub IsClear : S → (domain uuid : ℕ) → Type 0
  IsClear s d u = (e : EcoRecord) → row s d u ≡ some e → is_own tag e ≡ true

  -- The rows without the mark alone stay; with `marking`, none appears where none was.
  pub record IsStep (marking : Bool) (s s' : S) : Type 0 where
    pub keeps :
        (d u : ℕ) (e : EcoRecord) → row s d u ≡ some e → is_own tag e ≡ false → row s' d u ≡ some e
    pub clear : marking ≡ true → (d u : ℕ) → IsClear s d u → IsClear s' d u

  pub IsStep-refl : (marking : Bool) (s : S) → IsStep marking s s
  IsStep-refl marking s = record { keeps = λ d u e there other. there; clear = λ on d u c. c }

  pub IsStep-trans :
      (marking : Bool) (s s' s'' : S)
      → IsStep marking s s'
      → IsStep marking s' s''
      → IsStep marking s s''
  IsStep-trans marking s s' s'' f g = record {
    keeps = λ d u e there other. g.keeps d u e (f.keeps d u e there other) other;
    clear = λ on d u c. g.clear on d u (f.clear on d u c);
  }

abbrev pub marks_of : EcoRecord → Option ℕ
marks_of r = single_mark (realm_marks (tags_of r.tags))

abbrev pub is_given : Option ℕ → Bool
is_given none = false
is_given (some tag) = true

-- A dictionary with the mark alone, or with `marking` off one without a mark.
abbrev pub IsMarked : (tag : ℕ) (marking : Bool) → EcoRecord → Type 0
IsMarked tag marking r = (marks_of r ≡ some tag) ⊎ ((marks_of r ≡ none) × (marking ≡ false))

pub stored-is_own :
    (tag : ℕ) (r e : EcoRecord) → IsStored r e → marks_of r ≡ some tag → is_own tag e ≡ true
unfolding is_own
stored-is_own tag r e stored marked =
    rw stored.tags (single_mark-is_only tag (realm_marks (tags_of r.tags)) marked)

module _ {S : Type 0} (server : Server S) (row : S → (domain uuid : ℕ) → Option EcoRecord)
    (laws : IsServer server row) (tag : ℕ) where
  pub answered_lem : (a : Answer × S) → (answered server a).1 ≡ a.1
  answered_lem (done, s) = refl
  answered_lem (conflict, s) = refl
  answered_lem (failed, s) = refl

  -- A request that writes at most one row, which is nobody else's before and behind it.
  write-IsStep :
      (marking : Bool) (d u : ℕ) (s s' : S)
      → ((d' u' : ℕ) → (d' == d && u' == u) ≡ false → row s' d' u' ≡ row s d' u')
      → IsClear row tag s d u
      → IsClear row tag s' d u
      → IsStep row tag marking s s'
  write-IsStep marking d u s s' apart before after = record {
    keeps = λ d' u' e there other. elim (Bool-cases (d' == d && u' == u)) [
      | inr away ↦ apart d' u' away ∙ there
      | inl same ↦
          let d_is : d' ≡ d = ground (arith, same) in
          let u_is : u' ≡ u = ground (arith, same) in
          absurd (ground (arith, other, before e (rw d_is at (rw u_is at there))))
    ];
    clear = λ on d' u' c e there. elim (Bool-cases (d' == d && u' == u)) [
      | inr away ↦ c e (sym (apart d' u' away) ∙ there)
      | inl same ↦
          let d_is : d' ≡ d = ground (arith, same) in
          let u_is : u' ≡ u = ground (arith, same) in after e (rw d_is at (rw u_is at there))
    ];
  }

  put-IsStep :
      (marking : Bool) (d u : ℕ) (r : EcoRecord) (s : S)
      → IsClear row tag s d u
      → marks_of r ≡ some tag
      → IsStep row tag marking s (server.put_record d u r s).1
  put-IsStep marking d u r s before marked =
      write-IsStep marking d u s (server.put_record d u r s).1 (laws.put_keeps d u r s) before
        (λ e there. elim (laws.put_row d u r s e there) [
          | inl old ↦ before e old
          | inr stored ↦ stored-is_own tag r e stored marked
        ])

  pub delete-IsStep :
      (marking : Bool) (d u : ℕ) (s : S)
      → IsClear row tag s d u
      → IsStep row tag marking s (eco_delete_record server d u s).1
  unfolding eco_delete_record
  delete-IsStep marking d u s before =
      subst (IsStep row tag marking s) (sym (answered_lem (server.delete_record d u s))) (
        write-IsStep marking d u s (server.delete_record d u s).1 (laws.delete_keeps d u s) before
          (λ e there. before e (laws.delete_row d u s e there)))

  row-IsClear :
      (s : S) (d u : ℕ) (e : EcoRecord)
      → row s d u ≡ some e
      → is_own tag e ≡ true
      → IsClear row tag s d u
  row-IsClear s d u e there own f here = ground (arith, there, own, here)

  put_own-IsStep :
      (marking : Bool) (d u : ℕ) (r : EcoRecord) (s : S)
      → marks_of r ≡ some tag
      → IsStep row tag marking s (put_own server d u tag r s).1
  unfolding put_own is_own
  put_own-IsStep marking d u r s marked = elim (Option-cases (server.get_record d u s)) [
    | inl missing ↦ rw (missing, put_own) (IsStep-refl row tag marking s)
    | inr (e, found) ↦ elim (Bool-cases (is_only tag (realm_marks (tags_of e.tags)))) [
      | inr other ↦ rw (found, put_own) (rw other (IsStep-refl row tag marking s))
      | inl own ↦
          rw (found, put_own)
            (rw own (
              subst (IsStep row tag marking s) (sym (answered_lem (server.put_record d u r s))) (
                put-IsStep marking d u r s (row-IsClear s d u e (laws.get_row d u s e found) own)
                  marked)))
    ]
  ]

  pub update-IsStep :
      (marking : Bool) (d u : ℕ) (r : EcoRecord) (s : S)
      → IsMarked tag marking r
      → IsStep row tag marking s (eco_update_record server d u r s).1
  unfolding eco_update_record
  update-IsStep marking d u r s (inl marked) =
      rw (marked, eco_update_record) (put_own-IsStep marking d u r s marked)
  update-IsStep marking d u r s (inr (bare, off)) =
      rw (bare, eco_update_record) (IsStep-refl row tag marking s)

  post-IsStep :
      (marking : Bool) (d : ℕ) (r : EcoRecord) (s : S)
      → IsMarked tag marking r
      → IsStep row tag marking s (server.post_record d r s).1
  post-IsStep marking d r s marked = record {
    keeps = λ d' u e there other. laws.post_keeps d r s d' u e there;
    clear = λ on d' u c e there. elim (laws.post_row d r s d' u e there) [
      | inl old ↦ c e old
      | inr stored ↦ elim marked [
        | inl own ↦ stored-is_own tag r e stored own
        | inr (bare, off) ↦ absurd (ground (arith, on, off))
      ]
    ];
  }

  after_post-IsStep :
      (marking : Bool) (d : ℕ) (r : EcoRecord) (a : Answer × S)
      → IsMarked tag marking r
      → IsStep row tag marking a.1 (after_post server d r a).1
  unfolding after_post
  after_post-IsStep marking d r (done, s) marked = IsStep-refl row tag marking s
  after_post-IsStep marking d r (conflict, s) marked = update-IsStep marking d r.uuid r s marked
  after_post-IsStep marking d r (failed, s) marked = IsStep-refl row tag marking s

  pub create-IsStep :
      (marking : Bool) (d : ℕ) (r : EcoRecord) (s : S)
      → IsMarked tag marking r
      → IsStep row tag marking s (eco_create_record server d r s).1
  unfolding eco_create_record
  create-IsStep marking d r s marked =
      IsStep-trans row tag marking s (server.post_record d r s).1 _
        (post-IsStep marking d r s marked)
        (after_post-IsStep marking d r (server.post_record d r s) marked)

-- The mark that is written: the realm's, or none.
abbrev pub IsMark : (tag : ℕ) → Option ℕ → Type 0
IsMark tag o = (o ≡ some tag) ⊎ (o ≡ none)

pub build-IsMarked :
    (tag : ℕ) (r : Record) (o : Option ℕ)
    → IsMark tag o
    → IsMarked tag (is_given o) (build_record_data r o)
build-IsMarked tag r o (inl marked) = inl (build-single_mark r o ∙ marked)
build-IsMarked tag r o (inr bare) = inr (build-single_mark r o ∙ bare, ap is_given bare)
