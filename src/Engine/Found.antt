-- ===== src/Engine/Found.antt =====
-- Which resource a link finds, after resources were added and deleted.
use exordos_core.Base.{
  ℕ, ◌≡◌, sym, ap, ◌∙◌, subst, ◌==◌, true, ◌&&◌, Option, none, some, arith, if◌then◌else◌, inl, inr,
  Bool-cases, Option-cases,
}
use exordos_core.Base.Dict.{
  Dict, lookup, insert, delete, lookup-insert, lookup-insert_self, lookup-delete,
}
use exordos_core.Base.Result.{ok}
use exordos_core.Engine.{
  Link, Element, Resource, Namespace, Engine, namespace_add, namespace_delete, namespace_get,
  write_namespace, add_resource, delete_resource, get_resource_by_link,
}

abbrev pub in_namespace : ℕ → Option Namespace → Option Resource
in_namespace l none = none
in_namespace l (some ns) = lookup l ns.resources

-- The resource that stands under a link in the namespace of an element.
abbrev pub found : ℕ → ℕ → Engine → Option Resource
found e l s = in_namespace l (lookup e s.namespaces)

-- The engine with another namespace under a link.
abbrev written : ℕ → Namespace → Engine → Engine
written k ns s = record s { namespaces = insert k ns s.namespaces }

found-written :
    (k e l : ℕ) (ns : Namespace) (s : Engine)
    → found e l (written k ns s) ≡ (if k == e then lookup l ns.resources else found e l s)
found-written k e l ns s = ground (arith, lookup-insert k e ns s.namespaces)

-- Where a namespace was, its resources are what its links find.
found-at :
    (k e l : ℕ) (ns : Namespace) (s : Engine)
    → lookup k s.namespaces ≡ some ns
    → (k == e) ≡ true
    → found e l s ≡ lookup l ns.resources
found-at k e l ns s there same =
    let one : k ≡ e = ground (arith, same) in
    let here : lookup e s.namespaces ≡ some ns =
      subst (λ x. lookup x s.namespaces ≡ some ns) one there in
    ap (in_namespace l) here

-- The namespace with and without a resource.
abbrev with_resource : Resource → Namespace → Namespace
with_resource r ns = record ns { resources = insert r.link r ns.resources }

abbrev without_resource : Resource → Namespace → Namespace
without_resource r ns = record ns { resources = delete r.link ns.resources }

added_lem :
    (r : Resource) (ns : Namespace) (s : Engine)
    → lookup r.element.link s.namespaces ≡ some ns
    → (e l : ℕ)
    → found e l (written r.element.link (with_resource r ns) s)
      ≡ (if r.element.link == e && r.link == l then some r else found e l s)
added_lem r ns s there e l = elim (Bool-cases (r.element.link == e)) [
  | inl same ↦ ground (
    arith,
    same,
    found-written r.element.link e l (with_resource r ns) s,
    lookup-insert r.link l r ns.resources,
    found-at r.element.link e l ns s there same,
  )
  | inr other ↦ ground (arith, other, found-written r.element.link e l (with_resource r ns) s)
]

-- An added resource is found under its element and its link, and every other link finds what it did;
-- nothing was found there before.
pub found-add_resource :
    (r : Resource) (s s' : Engine)
    → add_resource r s ≡ ok s'
    → (found r.element.link r.link s ≡ none)
      × ((e l : ℕ)
          → found e l s' ≡ (if r.element.link == e && r.link == l then some r else found e l s))
unfolding add_resource namespace_add write_namespace
found-add_resource r s s' h = elim (Option-cases (lookup r.element.link s.namespaces)) [
  | inl missing ↦ absurd (ground (arith, missing, h))
  | inr (ns, there) ↦ elim (Option-cases (lookup r.link ns.resources)) [
    | inr (q, taken) ↦ absurd (ground (arith, there, taken, h))
    | inl free ↦
        let next : written r.element.link (with_resource r ns) s ≡ s' =
          ground (arith, there, free, h) in
        (ground (arith, there, free), λ e l. sym (ap (found e l) next) ∙ added_lem r ns s there e l)
  ]
]

resources_restored :
    (k l : ℕ) (r : Resource) (d : Dict Resource)
    → lookup k d ≡ none
    → lookup l (delete k (insert k r d)) ≡ lookup l d
resources_restored k l r d free = elim (Bool-cases (k == l)) [
  | inl same ↦
      let one : k ≡ l = ground (arith, same) in
      let none_there : lookup l d ≡ none = subst (λ x. lookup x d ≡ none) one free in
      ground (arith, same, none_there, lookup-delete k l (insert k r d))
  | inr other ↦ ground (arith, other, lookup-delete k l (insert k r d), lookup-insert k l r d)
]

restored :
    (r : Resource) (ns : Namespace) (s : Engine)
    → lookup r.element.link s.namespaces ≡ some ns
    → lookup r.link ns.resources ≡ none
    → (e : Element) (link : Link)
    → get_resource_by_link e link (
        written r.element.link
          (without_resource r (with_resource r ns))
          (written r.element.link (with_resource r ns) s))
      ≡ get_resource_by_link e link s
unfolding get_resource_by_link namespace_get
restored r ns s there free e link =
    let twice =
      lookup-insert r.element.link e.link (without_resource r (with_resource r ns))
        (insert r.element.link (with_resource r ns) s.namespaces) in
    let once = lookup-insert r.element.link e.link (with_resource r ns) s.namespaces in
    elim (Bool-cases (r.element.link == e.link)) [
      | inl same ↦
          let one : r.element.link ≡ e.link = ground (arith, same) in
          let here : lookup e.link s.namespaces ≡ some ns =
            subst (λ x. lookup x s.namespaces ≡ some ns) one there in
          ground
            (arith, same, twice, here, resources_restored r.link link.location r ns.resources free)
      | inr other ↦ ground (arith, other, twice, once)
    ]

-- Deleting a resource that was just added succeeds, and every link finds what it did before.
pub delete_resource-add_resource :
    (r : Resource) (s s' : Engine)
    → add_resource r s ≡ ok s'
    → (t : Engine) × (delete_resource r s' ≡ ok t)
      × ((e : Element) (link : Link)
          → get_resource_by_link e link t ≡ get_resource_by_link e link s)
unfolding add_resource delete_resource namespace_add namespace_delete write_namespace
delete_resource-add_resource r s s' h = elim (Option-cases (lookup r.element.link s.namespaces)) [
  | inl missing ↦ absurd (ground (arith, missing, h))
  | inr (ns, there) ↦ elim (Option-cases (lookup r.link ns.resources)) [
    | inr (q, taken) ↦ absurd (ground (arith, there, taken, h))
    | inl free ↦
        let next : written r.element.link (with_resource r ns) s ≡ s' =
          ground (arith, there, free, h) in
        let back = lookup-insert_self r.element.link (with_resource r ns) s.namespaces in
        let in_it = lookup-insert_self r.link r ns.resources in
        subst
          (λ x.
            (t : Engine) × (delete_resource r x ≡ ok t)
            × ((e : Element) (link : Link)
                → get_resource_by_link e link t ≡ get_resource_by_link e link s))
          next
          (
            written r.element.link (without_resource r (with_resource r ns))
                (written r.element.link (with_resource r ns) s),
            ground (arith, back, in_it),
            λ e link. restored r ns s there free e link,
          )
  ]
]
