-- ===== src/Engine/Coherent.antt =====
-- Where the namespaces and the resources of the element engine stand.
use exordos_core.Base.{
  ℕ, ◌≡◌, refl, sym, ap, subst, ◌==◌, some, [], arith, inl, inr, Bool-cases, Option-cases,
}
use exordos_core.Base.Dict.{Dict, lookup, insert, delete, lookup-insert, lookup-delete}
use exordos_core.Base.Result.{Result, ok, err, Result-cases}
use exordos_core.Engine.{
  Element, Resource, Namespace, Engine, EngineError, Export, namespace_add, namespace_delete,
  add_element, remove_element, write_namespace, add_resource, delete_resource, get_resource_by_link,
  add_resource_by_export,
}

pub record IsHome (link : ℕ) (ns : Namespace) : Type 0 where
  pub element : ns.element.link ≡ link
  pub resources :
      (l : ℕ) (r : Resource)
      → lookup l ns.resources ≡ some r
      → (r.link ≡ l) × (r.element.link ≡ link)

abbrev pub IsCoherent : Engine → Type 0
IsCoherent s = (k : ℕ) (ns : Namespace) → lookup k s.namespaces ≡ some ns → IsHome k ns

-- A namespace that is written where it belongs keeps all at home.
insert-IsHome :
    (k : ℕ) (ns : Namespace) (d : Dict Namespace)
    → IsHome k ns
    → ((j : ℕ) (n : Namespace) → lookup j d ≡ some n → IsHome j n)
    → (j : ℕ) (n : Namespace) → lookup j (insert k ns d) ≡ some n
    → IsHome j n
insert-IsHome k ns d home all j n at = elim (Bool-cases (k == j)) [
  | inl same ↦
      let e : k ≡ j = ground (arith, same) in
      let it : ns ≡ n = ground (arith, at, same, lookup-insert k j ns d) in
      subst (λ x. IsHome x n) e (subst (λ x. IsHome k x) it home)
  | inr other ↦ all j n (ground (arith, at, other, lookup-insert k j ns d))
]

namespace_add-IsHome :
    (r : Resource) (ns ns' : Namespace)
    → namespace_add r ns ≡ ok ns'
    → IsHome r.element.link ns
    → IsHome r.element.link ns'
unfolding namespace_add
namespace_add-IsHome r ns ns' h home = elim (Option-cases (lookup r.link ns.resources)) [
  | inr (q, there) ↦ absurd (ground (arith, there, h))
  | inl free ↦
      let next : record ns { resources = insert r.link r ns.resources } ≡ ns' =
        ground (arith, free, h) in
      subst (IsHome r.element.link) next (record {
        element = home.element;
        resources = λ l q at. elim (Bool-cases (r.link == l)) [
          | inl same ↦
              let it : r ≡ q = ground (arith, at, same, lookup-insert r.link l r ns.resources) in
              (ground (arith, ap (λ x. x.link) it, same), sym (ap (λ x. x.element.link) it))
          | inr other ↦
              home.resources l q (ground (arith, at, other, lookup-insert r.link l r ns.resources))
        ];
      })
]

namespace_delete-IsHome :
    (r : Resource) (ns ns' : Namespace)
    → namespace_delete r ns ≡ ok ns'
    → IsHome r.element.link ns
    → IsHome r.element.link ns'
unfolding namespace_delete
namespace_delete-IsHome r ns ns' h home = elim (Option-cases (lookup r.link ns.resources)) [
  | inl missing ↦ absurd (ground (arith, missing, h))
  | inr (q, there) ↦
      let next : record ns { resources = delete r.link ns.resources } ≡ ns' =
        ground (arith, there, h) in
      subst (IsHome r.element.link) next (record {
        element = home.element;
        resources =
            λ l q at. home.resources l q (ground (arith, at, lookup-delete r.link l ns.resources));
      })
]

write_namespace-IsCoherent :
    (link : ℕ) (s s' : Engine) (r : Result EngineError Namespace)
    → write_namespace link s r ≡ ok s'
    → ((ns : Namespace) → r ≡ ok ns → IsHome link ns)
    → IsCoherent s
    → IsCoherent s'
unfolding write_namespace
write_namespace-IsCoherent link s s' (err e) h home c = absurd (ground (arith, h))
write_namespace-IsCoherent link s s' (ok ns) h home c =
    let next : record s { namespaces = insert link ns s.namespaces } ≡ s' = ground (arith, h) in
    subst IsCoherent next (insert-IsHome link ns s.namespaces (home ns refl) c)

fresh-IsHome : (e : Element) → IsHome e.link (record { element = e; resources = [] })
unfolding lookup
fresh-IsHome e = record { element = refl; resources = λ l r at. absurd (ground (arith, at)) }

pub add_element-IsCoherent :
    (e : Element) (s s' : Engine) → add_element e s ≡ ok s' → IsCoherent s → IsCoherent s'
unfolding add_element
add_element-IsCoherent e s s' h c = elim (Option-cases (lookup e.link s.namespaces)) [
  | inr (ns, there) ↦ absurd (ground (arith, there, h))
  | inl free ↦
      let next : record s {
        namespaces = insert e.link (record { element = e; resources = [] }) s.namespaces;
      }
          ≡ s' =
        ground (arith, free, h) in
      subst IsCoherent next (
        insert-IsHome e.link (record { element = e; resources = [] }) s.namespaces (fresh-IsHome e)
          c)
]

pub remove_element-IsCoherent :
    (e : Element) (s s' : Engine) → remove_element e s ≡ ok s' → IsCoherent s → IsCoherent s'
unfolding remove_element
remove_element-IsCoherent e s s' h c = elim (Option-cases (lookup e.link s.namespaces)) [
  | inl missing ↦ absurd (ground (arith, missing, h))
  | inr (ns, there) ↦
      let next : record s { namespaces = delete e.link s.namespaces } ≡ s' =
        ground (arith, there, h) in
      subst IsCoherent next
        (λ k n at. c k n (ground (arith, at, lookup-delete e.link k s.namespaces)))
]

pub add_resource-IsCoherent :
    (r : Resource) (s s' : Engine) → add_resource r s ≡ ok s' → IsCoherent s → IsCoherent s'
unfolding add_resource
add_resource-IsCoherent r s s' h c = elim (Option-cases (lookup r.element.link s.namespaces)) [
  | inl missing ↦ absurd (ground (arith, missing, h))
  | inr (ns, there) ↦
      write_namespace-IsCoherent r.element.link s s' (namespace_add r ns) (ground (arith, there, h))
        (λ ns' done. namespace_add-IsHome r ns ns' done (c r.element.link ns there)) c
]

pub delete_resource-IsCoherent :
    (r : Resource) (s s' : Engine) → delete_resource r s ≡ ok s' → IsCoherent s → IsCoherent s'
unfolding delete_resource
delete_resource-IsCoherent r s s' h c = elim (Option-cases (lookup r.element.link s.namespaces)) [
  | inl missing ↦ absurd (ground (arith, missing, h))
  | inr (ns, there) ↦
      write_namespace-IsCoherent r.element.link s s' (namespace_delete r ns)
        (ground (arith, there, h))
        (λ ns' done. namespace_delete-IsHome r ns ns' done (c r.element.link ns there)) c
]

-- Exports leave the namespaces as they are.
pub add_export-namespaces :
    (x : Export) (s s' : Engine) → add_resource_by_export x s ≡ ok s' → s'.namespaces ≡ s.namespaces
unfolding add_resource_by_export
add_export-namespaces x s s' h = elim (Result-cases (get_resource_by_link x.element x.link s)) [
  | inr (e, failed) ↦ absurd (ground (arith, failed, h))
  | inl (r, got) ↦ elim (Option-cases (lookup x.full_link s.resource_exports)) [
    | inr (q, there) ↦ absurd (ground (arith, got, there, h))
    | inl free ↦ ground (arith, got, free, h)
  ]
]
