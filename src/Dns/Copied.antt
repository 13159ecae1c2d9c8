-- ===== src/Dns/Copied.antt =====
-- What the comparison of `_full_sync_domain` of exordos_core/dns_sync/service.py tells of two dictionaries.
use exordos_core.Base.{
  ℕ, ◌+◌, ◌≡◌, refl, sym, ap, ◌∙◌, true, not, some, List, [], ◌∷◌, ◌++◌, filter, if◌then◌else◌,
  arith, inl, inr, Bool-cases, Option-cases,
}
use exordos_core.Dns.{
  Tag, realm, plain, Record, EcoRecord, is_realm, tags_of, tag_eq, remove_tag, same_tags, is_same,
  build_record_data,
}

-- How often a tag is in a list.
unfoldable pub count : Tag → List Tag → ℕ
count t [] = 0
count t (x ∷ tags) = (if tag_eq x t then 1 else 0) + count t tags

-- The row has the fields of the record, and as often as there each of its own tags and, once, the mark.
pub record IsCopy (tag : ℕ) (r : Record) (e : EcoRecord) : Type 0 where
  pub type : e.type ≡ r.type
  pub ttl : e.ttl ≡ r.ttl
  pub disabled : e.disabled ≡ r.disabled
  pub record_value : e.record_value ≡ r.record_value
  pub tags :
      (t : Tag)
      → count t (tags_of e.tags)
        ≡ count t (filter (λ (x : Tag). not (is_realm x)) r.tags ++ (realm tag ∷ []))

tag_eq-≡ : (x y : Tag) → tag_eq x y ≡ true → x ≡ y
unfolding tag_eq
tag_eq-≡ (realm r) (realm s) h = ap realm (ground (arith, h))
tag_eq-≡ (realm r) (plain t) h = absurd (cc h)
tag_eq-≡ (plain t) (realm r) h = absurd (cc h)
tag_eq-≡ (plain t) (plain u) h = ap plain (ground (arith, h))

count-remove_tag :
    (t x : Tag) (ys others : List Tag)
    → remove_tag x ys ≡ some others
    → count t ys ≡ (if tag_eq x t then 1 else 0) + count t others
unfolding remove_tag count
count-remove_tag t x [] others h = absurd (cc h)
count-remove_tag t x (y ∷ ys) others h = elim (Bool-cases (tag_eq y x)) [
  | inl same ↦ let is : ys ≡ others = ground (arith, same, h) in rw (tag_eq-≡ y x same) (rw is refl)
  | inr other ↦ elim (Option-cases (remove_tag x ys)) [
    | inl missing ↦ absurd (ground (arith, other, missing, h))
    | inr (rest, found) ↦
        let is : y ∷ rest ≡ others = ground (arith, other, found, h) in
        let less = count-remove_tag t x ys rest found in rw (sym is) (omega (arith, less))
  ]
]

same_tags-count : (t : Tag) (xs ys : List Tag) → same_tags xs ys ≡ true → count t ys ≡ count t xs
unfolding same_tags count
same_tags-count t [] [] h = refl
same_tags-count t [] (y ∷ ys) h = absurd (cc h)
same_tags-count t (x ∷ xs) ys h = elim (Option-cases (remove_tag x ys)) [
  | inl missing ↦ absurd (ground (arith, missing, h))
  | inr (others, found) ↦
      count-remove_tag t x ys others found
      ∙ ap (λ (n : ℕ). (if tag_eq x t then 1 else 0) + n)
          (same_tags-count t xs others (ground (arith, found, h)))
]

pub is_same-IsCopy :
    (tag : ℕ) (r : Record) (e : EcoRecord)
    → is_same (build_record_data r (some tag)) e ≡ true
    → IsCopy tag r e
unfolding is_same build_record_data
is_same-IsCopy tag r e h = record {
  type = ground (arith, h);
  ttl = ground (arith, h);
  disabled = ground (arith, h);
  record_value = ground (arith, h);
  tags = λ t. same_tags-count t _ (tags_of e.tags) (ground (arith, h));
}
