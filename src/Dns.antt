-- ===== src/Dns.antt =====
-- exordos_core/dns_sync/service.py: `DNSSyncService`, which mirrors the records of local domains into the
-- zones of an ecosystem server. Names, texts and uuids are numbers.
pub mod Server
pub mod Calls
pub mod Domains
pub mod Service
pub mod Marks
pub mod Safe
pub mod Sync
pub mod Kept
pub mod Rounds
pub mod Reliable
pub mod Created
pub mod Settled
pub mod Deleted
pub mod Copied
pub mod Maps
pub mod Mirrored
pub mod Zone
mod Sample
mod Tests
use exordos_core.Base.{
  ℕ, ◌==◌, Bool, true, false, not, ◌&&◌, ◌||◌, Option, none, some, List, [], ◌∷◌, ◌++◌, length,
  filter, is_empty, if◌then◌else◌,
}

-- A tag that starts with `realm:`, by the uuid behind it, or another one.
pub data Tag : Type 0 where
  realm : ℕ → Tag
  plain : ℕ → Tag

abbrev pub soa : ℕ
soa = 0

-- The local rows of exordos_core/user_api/dns/dm/models.py.
pub record Domain : Type 0 where
  pub uuid : ℕ
  pub name : ℕ
  pub sync_to_ecosystem : Bool

pub record Record : Type 0 where
  pub uuid : ℕ
  pub domain : ℕ
  pub type : ℕ
  pub ttl : ℕ
  pub disabled : Bool
  pub record_value : ℕ
  pub tags : List Tag
  pub created_at : ℕ
  pub updated_at : ℕ

pub record Database : Type 0 where
  pub domains : List Domain
  pub records : List Record

-- The dictionary of a record that is sent to the server or comes from it; `tags` may be missing.
pub record EcoRecord : Type 0 where
  pub uuid : ℕ
  pub type : ℕ
  pub ttl : ℕ
  pub disabled : Bool
  pub record_value : ℕ
  pub tags : Option (List Tag)

abbrev pub is_realm : Tag → Bool
is_realm (realm r) = true
is_realm (plain t) = false

abbrev pub tags_of : Option (List Tag) → List Tag
tags_of none = []
tags_of (some tags) = tags

-- `_realm_marks`, as the realms of the marks; a set is a list of which order and repetition do not count.
unfoldable pub realm_marks : List Tag → List ℕ
realm_marks [] = []
realm_marks (realm r ∷ tags) = r ∷ realm_marks tags
realm_marks (plain t ∷ tags) = realm_marks tags

unfoldable pub all_equal : ℕ → List ℕ → Bool
all_equal r [] = true
all_equal r (s ∷ marks) = s == r && all_equal r marks

-- `marks == {r}`
unfoldable pub is_only : ℕ → List ℕ → Bool
is_only r marks = not (is_empty marks) && all_equal r marks

-- The mark of a set with one element.
unfoldable pub single_mark : List ℕ → Option ℕ
single_mark [] = none
single_mark (r ∷ marks) = if all_equal r marks then some r else none

unfoldable pub is_own : (tag : ℕ) → EcoRecord → Bool
is_own tag r = is_only tag (realm_marks (tags_of r.tags))

-- `_build_record_data`
unfoldable pub build_record_data : Record → (tag : Option ℕ) → EcoRecord
build_record_data r tag = record {
  uuid = r.uuid;
  type = r.type;
  ttl = r.ttl;
  disabled = r.disabled;
  record_value = r.record_value;
  tags = elim tag [
    | none ↦ none
    | some t ↦ some (filter (λ (x : Tag). not (is_realm x)) r.tags ++ (realm t ∷ []))
  ];
}

unfoldable pub tag_eq : Tag → Tag → Bool
tag_eq (realm r) (realm s) = r == s
tag_eq (realm r) (plain t) = false
tag_eq (plain t) (realm r) = false
tag_eq (plain t) (plain u) = t == u

unfoldable pub remove_tag : Tag → List Tag → Option (List Tag)
remove_tag t [] = none
remove_tag t (x ∷ tags) =
    let rest = remove_tag t tags in
    if tag_eq x t then some tags else elim rest [ none ↦ none | some others ↦ some (x ∷ others) ]

-- `sorted(xs) == sorted(ys)`: each tag of the one is taken out of the other, and none is left.
unfoldable pub same_tags : List Tag → List Tag → Bool
same_tags [] ys = is_empty ys
same_tags (x ∷ xs) ys = elim (remove_tag x ys) [ none ↦ false | some others ↦ same_tags xs others ]

abbrev same_bool : Bool → Bool → Bool
same_bool true b = b
same_bool false b = not b

-- The comparison of `_full_sync_domain`.
unfoldable pub is_same : EcoRecord → EcoRecord → Bool
is_same r e =
    r.type == e.type
    && r.ttl == e.ttl
    && same_bool r.disabled e.disabled
    && r.record_value == e.record_value
    && same_tags (tags_of r.tags) (tags_of e.tags)
