-- ===== src/Dns/Marks.antt =====
-- The marks of the dictionaries of exordos_core/dns_sync/service.py.
use exordos_core.Base.{
  ℕ, ◌≡◌, refl, ap, ◌∙◌, true, not, Option, none, some, List, [], ◌∷◌, ◌++◌, filter, arith,
}
use exordos_core.Dns.{
  Tag, realm, plain, Record, is_realm, tags_of, realm_marks, all_equal, is_only, single_mark,
  build_record_data,
}

pub single_mark-is_only :
    (t : ℕ) (marks : List ℕ) → single_mark marks ≡ some t → is_only t marks ≡ true
unfolding single_mark is_only all_equal
single_mark-is_only t [] h = absurd (cc h)
single_mark-is_only t (r ∷ marks) h = ground (arith, h)

marks-filter :
    (t : ℕ) (tags : List Tag)
    → realm_marks (filter (λ (x : Tag). not (is_realm x)) tags ++ (realm t ∷ [])) ≡ t ∷ []
unfolding realm_marks filter
marks-filter t [] = refl
marks-filter t (realm r ∷ tags) = marks-filter t tags
marks-filter t (plain p ∷ tags) = marks-filter t tags

-- What is sent has the mark alone, or no mark where there is none to write.
pub build-single_mark :
    (r : Record) (o : Option ℕ)
    → single_mark (realm_marks (tags_of (build_record_data r o).tags)) ≡ o
unfolding build_record_data single_mark realm_marks all_equal
build-single_mark r none = refl
build-single_mark r (some t) = ap single_mark (marks-filter t r.tags) ∙ ground arith
