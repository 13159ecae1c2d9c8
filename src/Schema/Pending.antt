-- ===== src/Schema/Pending.antt =====
-- The loop of `copy_schema_closure`: the references that are left, and the stack of names.
use exordos_core.Base.{
  ℕ, ◌+◌, ◌≤◌, ◌≡◌, refl, ap, ◌==◌, length, Bool, true, false, not, ◌||◌, some, List, [], ◌∷◌, IsIn,
  All, arith, if◌then◌else◌, inl, inr, Bool-cases, subst,
}
use exordos_core.Base.Dict.{lookup, insert, lookup-insert}
use exordos_core.Schema.{Fields, Schemas, refs, is_some, has, extend, total_refs, elem}

-- The references of the schemas that the target lacks.
unfoldable pub remaining : Schemas → Schemas → ℕ
remaining [] target = 0
remaining ((name, schema) ∷ source) target =
    (if has name target then 0 else length (refs schema)) + remaining source target

pub has-insert :
    (k j : ℕ) (v : Fields) (d : Schemas) → has j (insert k v d) ≡ (if k == j then true else has j d)
unfolding is_some
has-insert k j v d = ground (arith, lookup-insert k j v d)

pub remaining-total_refs : (source target : Schemas) → remaining source target ≤ total_refs source
unfolding remaining total_refs
remaining-total_refs [] target = omega arith
remaining-total_refs ((name, schema) ∷ source) target =
    ground (arith, remaining-total_refs source target)

remaining-insert :
    (k : ℕ) (v : Fields) (source target : Schemas)
    → remaining source (insert k v target) ≤ remaining source target
unfolding remaining
remaining-insert k v [] target = omega arith
remaining-insert k v ((name, schema) ∷ source) target =
    ground (arith, has-insert k name v target, remaining-insert k v source target)

-- A schema that is copied takes its references off.
pub remaining-copied :
    (k : ℕ) (v : Fields) (source target : Schemas)
    → lookup k source ≡ some v
    → has k target ≡ false
    → remaining source (insert k v target) + length (refs v) ≤ remaining source target
unfolding remaining lookup
remaining-copied k v [] target at new = absurd (ground (arith, at))
remaining-copied k v ((name, schema) ∷ source) target at new = elim (Bool-cases (name == k)) [
  | inl same ↦
      let it : schema ≡ v = ground (arith, at, same) in
      let key : name ≡ k = ground (arith, same) in
      let lacks : has name target ≡ false = rw key new in
      ground (
        arith,
        ap (λ x. length (refs x)) it,
        key,
        lacks,
        has-insert k name v target,
        remaining-insert k v source target,
      )
  | inr other ↦ ground (
    arith,
    other,
    has-insert k name v target,
    remaining-copied k v source target (ground (arith, at, other)) new,
  )
]

pub length-extend :
    (names pending : List ℕ) → length (extend names pending) ≡ length names + length pending
unfolding extend
length-extend [] pending = omega arith
length-extend (n ∷ names) pending = ground (arith, length-extend names (n ∷ pending))

pub elem-extend :
    (r : ℕ) (names pending : List ℕ)
    → elem r (extend names pending) ≡ (elem r names || elem r pending)
unfolding extend elem
elem-extend r [] pending = refl
elem-extend r (n ∷ names) pending = ground (arith, elem-extend r names (n ∷ pending))

-- `to` is reached from `from` by references of schemas of the source.
pub data Reaches (source : Schemas) (from : ℕ) : ℕ → Type 0 where
  here : Reaches source from from
  there :
      (k r : ℕ) (schema : Fields)
      → Reaches source from k
      → lookup k source ≡ some schema
      → IsIn r (refs schema)
      → Reaches source from r

-- The target has the schema of this name if the source has one.
abbrev pub settled : Schemas → Schemas → ℕ → Bool
settled source target name = not (has name source) || has name target

pub All-extend :
    (P : ℕ → Type 0) (names pending : List ℕ)
    → All P names
    → All P pending
    → All P (extend names pending)
unfolding extend
All-extend P [] pending h k = k
All-extend P (n ∷ names) pending h k = All-extend P names (n ∷ pending) h.1 (h.0, k)

pub IsIn-elem : (r : ℕ) (names : List ℕ) → IsIn r names → elem r names ≡ true
unfolding elem
IsIn-elem r [] i = absurd i
IsIn-elem r (n ∷ names) (inl e) = ground (arith, e)
IsIn-elem r (n ∷ names) (inr i) = ground (arith, IsIn-elem r names i)

-- A name that the target lacks is not one that it has.
pub apart :
    (target : Schemas) (current k : ℕ) (s : Fields)
    → has current target ≡ false
    → lookup k target ≡ some s
    → (current == k) ≡ false
unfolding is_some
apart target current k s new at = elim (Bool-cases (current == k)) [
  | inl same ↦
      let e : current ≡ k = ground (arith, same) in
      let lacks : has k target ≡ false = subst (λ x. has x target ≡ false) e new in
      absurd (ground (arith, lacks, at))
  | inr other ↦ other
]
