-- ===== src/Engine/Calls.antt =====
-- Sequences of calls of the engine's methods; a call that raises leaves the engine as it is.
use exordos_core.Base.{◌≡◌, sym, ap, ◌∙◌, List, [], ◌∷◌, arith, inl, inr, Option-cases}
use exordos_core.Base.Dict.{lookup}
use exordos_core.Base.Result.{Result, ok, err, Result-cases}
use exordos_core.Engine.{
  Element, Resource, Engine, EngineError, Export, add_element, remove_element, add_resource,
  delete_resource, add_resource_by_export, delete_resource_by_export,
}
use exordos_core.Engine.Coherent.{
  IsCoherent, add_element-IsCoherent, remove_element-IsCoherent, add_resource-IsCoherent,
  delete_resource-IsCoherent, add_export-namespaces,
}

pub data Call : Type 0 where
  to_add_element : Element → Call
  to_remove_element : Element → Call
  to_add_resource : Resource → Call
  to_delete_resource : Resource → Call
  to_add_export : Export → Call
  to_delete_export : Export → Call

unfoldable pub call : Call → Engine → Result EngineError Engine
call (to_add_element e) = add_element e
call (to_remove_element e) = remove_element e
call (to_add_resource r) = add_resource r
call (to_delete_resource r) = delete_resource r
call (to_add_export x) = add_resource_by_export x
call (to_delete_export x) = delete_resource_by_export x

unfoldable pub call_all : List Call → Engine → Engine
call_all [] s = s
call_all (c ∷ calls) s = elim (call c s) [ ok t ↦ call_all calls t | err e ↦ call_all calls s ]

same_namespaces : (s t : Engine) → t.namespaces ≡ s.namespaces → IsCoherent s → IsCoherent t
same_namespaces s t same c k ns at = c k ns (ap (lookup k) (sym same) ∙ at)

delete_export-namespaces :
    (x : Export) (s t : Engine) → delete_resource_by_export x s ≡ ok t → t.namespaces ≡ s.namespaces
unfolding delete_resource_by_export
delete_export-namespaces x s t h = elim (Option-cases (lookup x.full_link s.resource_exports)) [
  | inl missing ↦ absurd (ground (arith, missing, h))
  | inr (r, there) ↦ ground (arith, there, h)
]

call-IsCoherent : (c : Call) (s t : Engine) → call c s ≡ ok t → IsCoherent s → IsCoherent t
unfolding call
call-IsCoherent (to_add_element e) s t h k = add_element-IsCoherent e s t h k
call-IsCoherent (to_remove_element e) s t h k = remove_element-IsCoherent e s t h k
call-IsCoherent (to_add_resource r) s t h k = add_resource-IsCoherent r s t h k
call-IsCoherent (to_delete_resource r) s t h k = delete_resource-IsCoherent r s t h k
call-IsCoherent (to_add_export x) s t h k = same_namespaces s t (add_export-namespaces x s t h) k
call-IsCoherent (to_delete_export x) s t h k =
    same_namespaces s t (delete_export-namespaces x s t h) k

-- From an engine in which every namespace and every resource stands where it belongs, every sequence
-- of calls, raising ones included, leads to such an engine.
pub call_all-IsCoherent :
    (calls : List Call) (s : Engine) → IsCoherent s → IsCoherent (call_all calls s)
unfolding call_all
call_all-IsCoherent [] s k = k
call_all-IsCoherent (c ∷ calls) s k = elim (Result-cases (call c s)) [
  | inl (t, done) ↦ rw (done, call_all) (call_all-IsCoherent calls t (call-IsCoherent c s t done k))
  | inr (e, failed) ↦ rw (failed, call_all) (call_all-IsCoherent calls s k)
]
