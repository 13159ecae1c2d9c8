-- ===== src/Schema/Resolve.antt =====
-- `resolve_schema` of exordos_core/elements/dm/utils.py, and chains of alias schemas.
use exordos_core.Base.{
  ℕ, zero, suc, ◌+◌, ◌≤◌, ◌<◌, ◌≡◌, refl, ap, subst, ◌==◌, length, true, false, Option, none, some,
  List, [], ◌∷◌, All, All-map, arith, if◌then◌else◌, inl, inr, Bool-cases, Option-cases,
}
use exordos_core.Base.Dict.{lookup}
use exordos_core.Schema.{Fields, Schemas, alias_of, elem, resolve_from, resolve_schema}

-- `d` aliases lead from `name` to a schema that is no alias.
unfoldable pub ResolvesIn : Schemas → ℕ → ℕ → Fields → Type 0
ResolvesIn schemas zero name s = (lookup name schemas ≡ some s) × (alias_of s ≡ none)
ResolvesIn schemas (suc d) name s =
    (a : Fields) × (target : ℕ) × (lookup name schemas ≡ some a)
    × (alias_of a ≡ some target)
    × ResolvesIn schemas d target s

-- What a result of `resolve_schema` says of the chain of aliases.
unfoldable pub IsResult : Schemas → ℕ → Option Fields → Type 0
IsResult schemas name none = (d : ℕ) (s : Fields) → ¬ ResolvesIn schemas d name s
IsResult schemas name (some s) = (d : ℕ) × ResolvesIn schemas d name s

-- A chain has one length.
ResolvesIn-length :
    (schemas : Schemas) (d e name : ℕ) (s t : Fields)
    → ResolvesIn schemas d name s
    → ResolvesIn schemas e name t
    → d ≡ e
unfolding ResolvesIn
ResolvesIn-length schemas zero zero name s t h k = refl
ResolvesIn-length schemas zero (suc e) name s t (at, plain) (a, target, at', alias, rest) =
    let same : s ≡ a = ground (arith, at, at') in
    absurd (ground (arith, ap alias_of same, plain, alias))
ResolvesIn-length schemas (suc d) zero name s t (a, target, at, alias, rest) (at', plain) =
    let same : t ≡ a = ground (arith, at, at') in
    absurd (ground (arith, ap alias_of same, plain, alias))
ResolvesIn-length schemas (suc d) (suc e) name s t (a, target, at, alias, rest)
      (b, target', at', alias', rest') =
    let same : a ≡ b = ground (arith, at, at') in
    let one : target ≡ target' = ground (arith, ap alias_of same, alias, alias') in
    ap (λ n. suc n)
      (ResolvesIn-length schemas d e target' s t (subst (λ x. ResolvesIn schemas d x s) one rest)
        rest')

-- The schemas whose names were not seen.
unfoldable unseen : Schemas → List ℕ → ℕ
unseen [] seen = 0
unseen ((name, s) ∷ schemas) seen = (if elem name seen then 0 else 1) + unseen schemas seen

unseen-length : (schemas : Schemas) (seen : List ℕ) → unseen schemas seen ≤ length schemas
unfolding unseen
unseen-length [] seen = omega arith
unseen-length ((name, s) ∷ schemas) seen = ground (arith, unseen-length schemas seen)

unseen-more :
    (schemas : Schemas) (name : ℕ) (seen : List ℕ)
    → unseen schemas (name ∷ seen) ≤ unseen schemas seen
unfolding unseen elem
unseen-more [] name seen = omega arith
unseen-more ((k, s) ∷ schemas) name seen = ground (arith, unseen-more schemas name seen)

unseen-less :
    (schemas : Schemas) (name : ℕ) (seen : List ℕ) (s : Fields)
    → lookup name schemas ≡ some s
    → elem name seen ≡ false
    → unseen schemas (name ∷ seen) + 1 ≤ unseen schemas seen
unfolding unseen elem lookup
unseen-less [] name seen s at new = absurd (ground (arith, at))
unseen-less ((k, t) ∷ schemas) name seen s at new = elim (Bool-cases (k == name)) [
  | inl same ↦
      let e : k ≡ name = ground (arith, same) in
      let lacks : elem k seen ≡ false = rw e new in
      ground (arith, e, lacks, unseen-more schemas name seen)
  | inr other ↦ ground (
    arith,
    other,
    at,
    unseen-more schemas name seen,
    unseen-less schemas name seen s (ground (arith, other, at)) new,
  )
]

-- Every name that was seen stands before `name` in any chain.
abbrev IsBefore : Schemas → ℕ → ℕ → Type 0
IsBefore schemas name n =
    (d : ℕ) (s : Fields)
    → ResolvesIn schemas d name s
    → (e : ℕ) × (d < e) × ResolvesIn schemas e n s

elem-All : (P : ℕ → Type 0) (name : ℕ) (seen : List ℕ) → elem name seen ≡ true → All P seen → P name
unfolding elem
elem-All P name [] h all = absurd (ground (arith, h))
elem-All P name (n ∷ seen) h all = elim (Bool-cases (n == name)) [
  | inl same ↦ let e : n ≡ name = ground (arith, same) in subst P e all.0
  | inr other ↦ elem-All P name seen (ground (arith, other, h)) all.1
]

cycle-IsResult :
    (schemas : Schemas) (name : ℕ) → IsBefore schemas name name → IsResult schemas name none
unfolding IsResult
cycle-IsResult schemas name before d s h =
    let (e, longer, k) = before d s h in
    absurd (omega (arith, longer, ResolvesIn-length schemas d e name s s h k))

missing-IsResult :
    (schemas : Schemas) (name : ℕ) → lookup name schemas ≡ none → IsResult schemas name none
unfolding IsResult ResolvesIn
missing-IsResult schemas name missing zero s (at, plain) = absurd (ground (arith, at, missing))
missing-IsResult schemas name missing (suc d) s (a, target, at, alias, rest) =
    absurd (ground (arith, at, missing))

module _ (schemas : Schemas) (name target : ℕ) (a : Fields) (at : lookup name schemas ≡ some a)
    (alias : alias_of a ≡ some target) where
  ResolvesIn-back :
      (d : ℕ) (s : Fields) → ResolvesIn schemas d target s → ResolvesIn schemas (suc d) name s
  unfolding ResolvesIn
  ResolvesIn-back d s h = (a, target, at, alias, h)

  ResolvesIn-forth :
      (d : ℕ) (s : Fields) → ResolvesIn schemas d name s → (e : ℕ) × ResolvesIn schemas e target s
  unfolding ResolvesIn
  ResolvesIn-forth zero s (at', plain) =
      let same : s ≡ a = ground (arith, at, at') in
      absurd (ground (arith, ap alias_of same, plain, alias))
  ResolvesIn-forth (suc d) s (b, next, at', alias', rest) =
      let same : b ≡ a = ground (arith, at, at') in
      let one : next ≡ target = ground (arith, ap alias_of same, alias, alias') in
      (d, subst (λ x. ResolvesIn schemas d x s) one rest)

  alias-IsResult : (r : Option Fields) → IsResult schemas target r → IsResult schemas name r
  unfolding IsResult
  alias-IsResult none h = λ d s k. let (e, rest) = ResolvesIn-forth d s k in h e s rest
  alias-IsResult (some s) (d, h) = (suc d, ResolvesIn-back d s h)

  alias-IsBefore :
      (seen : List ℕ)
      → All (IsBefore schemas name) seen
      → All (IsBefore schemas target) (name ∷ seen)
  alias-IsBefore seen before = (
    λ d s h. (suc d, omega arith, ResolvesIn-back d s h),
    All-map
        (λ n earlier d s h.
          let (e, longer, k) = earlier (suc d) s (ResolvesIn-back d s h) in
          (e, omega (arith, longer), k))
        seen before,
  )

resolve_from_lem :
    (fuel : ℕ) (schemas : Schemas) (name : ℕ) (seen : List ℕ)
    → unseen schemas seen + 1 ≤ fuel
    → All (IsBefore schemas name) seen
    → (r : Option Fields) × (resolve_from fuel schemas name seen ≡ some r) × IsResult schemas name r
unfolding resolve_from IsResult ResolvesIn
resolve_from_lem zero schemas name seen enough before = absurd (omega (arith, enough))
resolve_from_lem (suc fuel) schemas name seen enough before = elim (Bool-cases (elem name seen)) [
  | inl again ↦
      rw (again, resolve_from)
        (
          none,
          refl,
          cycle-IsResult schemas name (elem-All (IsBefore schemas name) name seen again before),
        )
  | inr new ↦ elim (Option-cases (lookup name schemas)) [
    | inl missing ↦
        rw (new, missing, resolve_from) (none, refl, missing-IsResult schemas name missing)
    | inr (s, at) ↦ elim (Option-cases (alias_of s)) [
      | inl plain ↦ rw (new, at, plain, resolve_from) (some s, refl, (0, (at, plain)))
      | inr (target, alias) ↦
          let (r, done, result) =
            resolve_from_lem fuel schemas target (name ∷ seen)
              (omega (arith, enough, unseen-less schemas name seen s at new))
              (alias-IsBefore schemas name target s at alias seen before) in
          rw (new, at, alias, resolve_from)
            (r, done, alias-IsResult schemas name target s at alias r result)
    ]
  ]
]

-- The loop ends; it returns the schema to which the chain of aliases leads, and `None` only if the
-- chain leads to none.
pub resolve_schema_lem :
    (schemas : Schemas) (name : ℕ)
    → (r : Option Fields) × (resolve_schema schemas name ≡ some r) × IsResult schemas name r
unfolding resolve_schema
resolve_schema_lem schemas name =
    resolve_from_lem (suc (length schemas)) schemas name []
      (omega (arith, unseen-length schemas [])) tt
