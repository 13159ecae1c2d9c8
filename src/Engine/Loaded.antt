-- ===== src/Engine/Loaded.antt =====
-- What `load_from_database` leaves in the engine.
use exordos_core.Base.{
  ℕ, ◌≡◌, refl, sym, ap, ◌∙◌, subst, ◌==◌, ◌&&◌, Option, none, some, List, [], ◌∷◌, All, All-map,
  arith, if◌then◌else◌, inl, inr, Bool-cases, Option-cases,
}
use exordos_core.Base.Dict.{Dict, lookup, insert, lookup-insert}
use exordos_core.Base.Result.{Result, ok, err, ◌>>=◌}
use exordos_core.Engine.{Element, Resource, Engine, EngineError, Export, add_element, add_resource}
use exordos_core.Engine.Database.{
  ResourceRow, ImportRow, Tables, empty, add_elements, get_elements, elements_from, subscript,
  load_rows, load_resources, import_resource, load_import, import_rows, load_imports, load_export,
  load_exports, load_from_database,
}
use exordos_core.Engine.Coherent.{
  IsCoherent, add_element-IsCoherent, add_resource-IsCoherent, add_export-namespaces,
}
use exordos_core.Engine.Found.{found, in_namespace, found-add_resource}

-- A chain that succeeds has a first step that does.
>>=-ok :
    {A B : Type 0} (m : Result EngineError A) (f : A → Result EngineError B) (b : B)
    → (m >>= f) ≡ ok b
    → (a : A) × (m ≡ ok a) × (f a ≡ ok b)
>>=-ok (ok a) f b h = (a, refl, h)
>>=-ok (err e) f b h = absurd (ground (arith, h))

-- What holds of an engine and is kept by every resource that is added.
record IsStep (s t : Engine) : Type 0 where
  coherent : IsCoherent s → IsCoherent t
  finds : (e l : ℕ) (r : Resource) → found e l s ≡ some r → found e l t ≡ some r

IsStep-trans : (s t u : Engine) → IsStep s t → IsStep t u → IsStep s u
IsStep-trans s t u a b = record {
  coherent = λ c. b.coherent (a.coherent c);
  finds = λ e l r h. b.finds e l r (a.finds e l r h);
}

not_lost :
    (r : Resource) (s t : Engine)
    → found r.element.link r.link s ≡ none
    → ((e l : ℕ)
        → found e l t ≡ (if r.element.link == e && r.link == l then some r else found e l s))
    → (e l : ℕ) (q : Resource) → found e l s ≡ some q
    → found e l t ≡ some q
not_lost r s t free all e l q at = elim (Bool-cases (r.element.link == e && r.link == l)) [
  | inl same ↦
      let one : r.element.link ≡ e = ground (arith, same) in
      let two : r.link ≡ l = ground (arith, same) in
      let gone : found e l s ≡ none =
        subst (λ x. found x l s ≡ none) one
          (subst (λ y. found r.element.link y s ≡ none) two free) in
      absurd (ground (arith, gone, at))
  | inr other ↦ ground (arith, all e l, other, at)
]

add_resource-IsStep : (r : Resource) (s t : Engine) → add_resource r s ≡ ok t → IsStep s t
add_resource-IsStep r s t h =
    let (free, all) = found-add_resource r s t h in
    record {
      coherent = add_resource-IsCoherent r s t h;
      finds = λ e l q at. not_lost r s t free all e l q at;
    }

-- A loop that has nothing left returns its engine.
IsStep-ok : (s t : Engine) → ◌≡◌ {A = Result EngineError Engine} (ok s) (ok t) → IsStep s t
IsStep-ok s t h =
    let same : s ≡ t = ground (arith, h) in
    subst (IsStep s) same (record { coherent = λ c. c; finds = λ e l r h. h })

import_resource-IsStep :
    (elements : Dict Element) (resources : Dict Resource) (row : ImportRow) (s t : Engine)
    → import_resource elements resources row s ≡ ok t
    → IsStep s t
unfolding import_resource
import_resource-IsStep elements resources row s t h =
    let (e, in_elements, h1) = >>=-ok (subscript row.element elements) _ t h in
    let (r, in_resources, h2) = >>=-ok (subscript row.from_resource resources) _ t h1 in
    add_resource-IsStep (record { uuid = r.uuid; element = e; link = row.link }) s t h2

load_import-IsStep :
    (elements : Dict Element) (resources : Dict Resource) (row : ImportRow) (s t : Engine)
    → load_import elements resources row s ≡ ok t
    → IsStep s t
unfolding load_import
load_import-IsStep elements resources row s t h = elim (Bool-cases row.is_resource) [
  | inr off ↦ absurd (ground (arith, off, h))
  | inl on ↦ import_resource-IsStep elements resources row s t (ground (arith, on, h))
]

import_rows-IsStep :
    (elements : Dict Element) (resources : Dict Resource) (rows : List ImportRow) (s t : Engine)
    → import_rows elements resources rows s ≡ ok t
    → IsStep s t
unfolding import_rows
import_rows-IsStep elements resources [] s t h = IsStep-ok s t h
import_rows-IsStep elements resources (row ∷ rows) s t h =
    let (u, done, rest) =
      >>=-ok (load_import elements resources row s) (import_rows elements resources rows) t h in
    IsStep-trans s u t (load_import-IsStep elements resources row s u done)
      (import_rows-IsStep elements resources rows u t rest)

load_export-IsStep : (x : Export) (s t : Engine) → load_export x s ≡ ok t → IsStep s t
unfolding load_export
load_export-IsStep x s t h = elim (Bool-cases x.is_resource) [
  | inr off ↦ absurd (ground (arith, off, h))
  | inl on ↦
      let same = add_export-namespaces x s t (ground (arith, on, h)) in
      record {
        coherent = λ c k ns at. c k ns (ap (lookup k) (sym same) ∙ at);
        finds = λ e l r at. ap (λ x. in_namespace l (lookup e x)) same ∙ at;
      }
]

load_exports-IsStep :
    (exports : List Export) (s t : Engine) → load_exports exports s ≡ ok t → IsStep s t
unfolding load_exports
load_exports-IsStep [] s t h = IsStep-ok s t h
load_exports-IsStep (x ∷ exports) s t h =
    let (u, done, rest) = >>=-ok (load_export x s) (load_exports exports) t h in
    IsStep-trans s u t (load_export-IsStep x s u done) (load_exports-IsStep exports u t rest)

-- The resource of a row, in the namespace of an element with the uuid that the row names.
abbrev pub IsRowFound : Engine → ResourceRow → Type 0
IsRowFound s row =
    (e : Element) × (e.uuid ≡ row.element)
    × (found e.link row.link s ≡ some (record { uuid = row.uuid; element = e; link = row.link }))

-- The elements of a dictionary stand under their uuids.
abbrev IsKeyed : Dict Element → Type 0
IsKeyed d = (k : ℕ) (e : Element) → lookup k d ≡ some e → e.uuid ≡ k

elements_from-IsKeyed :
    (elements : List Element) (d : Dict Element) → IsKeyed d → IsKeyed (elements_from elements d)
unfolding elements_from
elements_from-IsKeyed [] d h = h
elements_from-IsKeyed (e ∷ elements) d h =
    elements_from-IsKeyed elements (insert e.uuid e d) (λ k q at. elim (Bool-cases (e.uuid == k)) [
      | inl same ↦
          let it : e ≡ q = ground (arith, at, same, lookup-insert e.uuid k e d) in
          ground (arith, ap (λ x. x.uuid) it, same)
      | inr other ↦ h k q (ground (arith, at, other, lookup-insert e.uuid k e d))
    ])

subscript-IsKeyed :
    (d : Dict Element) (k : ℕ) (e : Element) → IsKeyed d → subscript k d ≡ ok e → e.uuid ≡ k
unfolding subscript
subscript-IsKeyed d k e keyed h = elim (Option-cases (lookup k d)) [
  | inl missing ↦ absurd (ground (arith, missing, h))
  | inr (q, there) ↦
      let it : q ≡ e = ground (arith, there, h) in ap (λ x. x.uuid) (sym it) ∙ keyed k q there
]

load_rows-IsStep :
    (elements : Dict Element) (rows : List ResourceRow) (s t : Engine)
    → IsKeyed elements
    → load_rows elements rows s ≡ ok t
    → IsStep s t × All (IsRowFound t) rows
unfolding load_rows
load_rows-IsStep elements [] s t keyed h = (IsStep-ok s t h, tt)
load_rows-IsStep elements (row ∷ rows) s t keyed h =
    let (e, there, h1) = >>=-ok _ _ t h in
    let r : Resource = record { uuid = row.uuid; element = e; link = row.link } in
    let (u, done, rest) = >>=-ok (add_resource r s) (load_rows elements rows) t h1 in
    let (step, others) = load_rows-IsStep elements rows u t keyed rest in
    let at = (found-add_resource r s u done).1 e.link row.link in
    (
      IsStep-trans s u t (add_resource-IsStep r s u done) step,
      (
        (
          e,
          subscript-IsKeyed elements row.element e keyed there,
          step.finds e.link row.link r (ground (arith, at)),
        ),
        others,
      ),
    )

add_elements-IsCoherent :
    (elements : List Element) (s t : Engine)
    → add_elements elements s ≡ ok t
    → IsCoherent s
    → IsCoherent t
unfolding add_elements
add_elements-IsCoherent [] s t h c = let same : s ≡ t = ground (arith, h) in subst IsCoherent same c
add_elements-IsCoherent (e ∷ elements) s t h c =
    let (u, done, rest) = >>=-ok (add_element e s) (add_elements elements) t h in
    add_elements-IsCoherent elements u t rest (add_element-IsCoherent e s u done c)

empty-IsCoherent : IsCoherent empty
unfolding lookup
empty-IsCoherent k ns at = absurd (ground (arith, at))

no_element : (k : ℕ) (e : Element) → ◌≡◌ {A = Option Element} (lookup k []) (some e) → e.uuid ≡ k
unfolding lookup
no_element k e at = absurd (ground (arith, at))

-- If loading succeeds, every namespace stands under the link of its element, every resource stands
-- under its own link in the namespace of its element, and each row of the resources is found there.
pub load_from_database-IsCoherent :
    (db : Tables) (s : Engine)
    → load_from_database db ≡ ok s
    → IsCoherent s × All (IsRowFound s) db.resources
unfolding load_from_database load_resources load_imports
load_from_database-IsCoherent db s h =
    let (s1, with_elements, h1) = >>=-ok (add_elements db.elements empty) _ s h in
    let (s2, with_resources, h2) = >>=-ok (load_resources db.resources s1) _ s h1 in
    let (s3, with_imports, h3) = >>=-ok (load_imports db.imports s2) _ s h2 in
    let (step, rows) =
      load_rows-IsStep _ db.resources s1 s2
        (elements_from-IsKeyed (get_elements s1.namespaces) [] (λ k e at. no_element k e at))
        with_resources in
    let later =
      IsStep-trans s2 s3 s (import_rows-IsStep _ _ db.imports s2 s3 with_imports)
        (load_exports-IsStep db.exports s3 s h3) in
    (
      later.coherent (
          step.coherent
            (add_elements-IsCoherent db.elements empty s1 with_elements empty-IsCoherent)),
      All-map (λ row (e, same, at). (e, same, later.finds e.link row.link _ at)) db.resources rows,
    )
