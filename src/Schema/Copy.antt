-- ===== src/Schema/Copy.antt =====
-- `copy_schema_closure` of exordos_core/elements/dm/utils.py: what is copied.
use exordos_core.Base.{
  ℕ, zero, suc, ◌+◌, ◌≤◌, ◌≡◌, refl, ◌==◌, length, true, false, ◌||◌, none, some, List, [], ◌∷◌,
  All, All-map, All-self, arith, ◌⊎◌, inl, inr, Bool-cases, Option-cases, subst,
}
use exordos_core.Base.Dict.{lookup, insert, lookup-insert}
use exordos_core.Schema.{
  Fields, Schemas, refs, is_some, has, extend, copy_pending, total_refs, copy_schema_closure, elem,
}
use exordos_core.Schema.Pending.{
  remaining, has-insert, remaining-total_refs, remaining-copied, length-extend, elem-extend,
  Reaches, settled, All-extend, IsIn-elem, apart,
}

-- What holds between the rounds of the loop.
record IsCopying (source start : Schemas) (name : ℕ) (target : Schemas) (pending : List ℕ)
    : Type 0 where
  keeps : (k : ℕ) (s : Fields) → lookup k start ≡ some s → lookup k target ≡ some s
  copies :
      (k : ℕ) (s : Fields)
      → lookup k target ≡ some s
      → (lookup k start ≡ some s) ⊎ ((lookup k source ≡ some s) × Reaches source name k)
  closed :
      (k : ℕ) (s : Fields)
      → lookup k start ≡ none
      → lookup k target ≡ some s
      → All (λ r. (settled source target r || elem r pending) ≡ true) (refs s)
  named : (settled source target name || elem name pending) ≡ true
  reached : All (Reaches source name) pending

module _ (source start : Schemas) (name : ℕ) where
  skip-IsCopying :
      (target : Schemas) (current : ℕ) (pending : List ℕ)
      → settled source target current ≡ true
      → IsCopying source start name target (current ∷ pending)
      → IsCopying source start name target pending
  unfolding elem
  skip-IsCopying target current pending done inv = record {
    keeps = inv.keeps;
    copies = inv.copies;
    closed = λ k s out at. All-map (λ r. off r) (refs s) (inv.closed k s out at);
    named = off name inv.named;
    reached = inv.reached.1;
  }
    where
      off :
          (r : ℕ)
          → (settled source target r || elem r (current ∷ pending)) ≡ true
          → (settled source target r || elem r pending) ≡ true
      off r h = elim (Bool-cases (current == r)) [
        | inl same ↦
            let e : current ≡ r = ground (arith, same) in
            let d : settled source target r ≡ true =
              subst (λ x. settled source target x ≡ true) e done in
            rw d refl
        | inr other ↦ ground (arith, other, h)
      ]

  copy-IsCopying :
      (target : Schemas) (current : ℕ) (pending : List ℕ) (schema : Fields)
      → lookup current source ≡ some schema
      → has current target ≡ false
      → IsCopying source start name target (current ∷ pending)
      → IsCopying source start name (insert current schema target) (extend (refs schema) pending)
  unfolding elem is_some
  copy-IsCopying target current pending schema at new inv = record {
    keeps = λ k s h. ground (
      arith,
      inv.keeps k s h,
      apart target current k s new (inv.keeps k s h),
      lookup-insert current k schema target,
    );
    copies = λ k s h. elim (Bool-cases (current == k)) [
      | inl same ↦
          let e : current ≡ k = ground (arith, same) in
          let it : schema ≡ s = ground (arith, h, same, lookup-insert current k schema target) in
          inr (
            subst (λ x. lookup k source ≡ some x) it
                (subst (λ x. lookup x source ≡ some schema) e at),
            subst (Reaches source name) e inv.reached.0,
          )
      | inr other ↦ inv.copies k s (ground (arith, h, other, lookup-insert current k schema target))
    ];
    closed = λ k s out h. elim (Bool-cases (current == k)) [
      | inl same ↦
          let it : schema ≡ s = ground (arith, h, same, lookup-insert current k schema target) in
          subst
            (λ x.
              All
                (λ r.
                  (settled source (insert current schema target) r
                    || elem r (extend (refs schema) pending))
                  ≡ true)
                (refs x))
            it
            (All-map
              (λ r i.
                ground (arith, elem-extend r (refs schema) pending, IsIn-elem r (refs schema) i))
              (refs schema) (All-self (refs schema)))
      | inr other ↦
          All-map (λ r. on r) (refs s)
            (inv.closed k s out (ground (arith, h, other, lookup-insert current k schema target)))
    ];
    named = on name inv.named;
    reached =
        All-extend (Reaches source name) (refs schema) pending
          (All-map (λ r i. Reaches.there current r schema inv.reached.0 at i) (refs schema)
            (All-self (refs schema)))
          inv.reached.1;
  }
    where
      on :
          (r : ℕ)
          → (settled source target r || elem r (current ∷ pending)) ≡ true
          → (settled source (insert current schema target) r
              || elem r (extend (refs schema) pending))
            ≡ true
      on r h =
          ground (arith, h, has-insert current r schema target, elem-extend r (refs schema) pending)

  copy_pending-IsCopying :
      (fuel : ℕ) (target : Schemas) (pending : List ℕ)
      → length pending + remaining source target ≤ fuel
      → IsCopying source start name target pending
      → (t : Schemas) × (copy_pending fuel source target pending ≡ some t)
        × IsCopying source start name t []
  unfolding copy_pending is_some
  copy_pending-IsCopying fuel target [] enough inv = (target, refl, inv)
  copy_pending-IsCopying zero target (current ∷ pending) enough inv = absurd (omega (arith, enough))
  copy_pending-IsCopying (suc fuel) target (current ∷ pending) enough inv =
      elim (Option-cases (lookup current source)) [
        | inl missing ↦
            rw (missing, copy_pending)
              (copy_pending-IsCopying fuel target pending (omega (arith, enough))
                (skip-IsCopying target current pending (ground (arith, missing)) inv))
        | inr (schema, at) ↦ elim (Bool-cases (has current target)) [
          | inl old ↦
              rw (at, old, copy_pending)
                (copy_pending-IsCopying fuel target pending (omega (arith, enough))
                  (skip-IsCopying target current pending (ground (arith, old)) inv))
          | inr new ↦
              rw (at, new, copy_pending)
                (copy_pending-IsCopying fuel (insert current schema target)
                  (extend (refs schema) pending)
                  (omega (
                    arith,
                    enough,
                    length-extend (refs schema) pending,
                    remaining-copied current schema source target at new,
                  ))
                  (copy-IsCopying target current pending schema at new inv))
        ]
      ]

-- The target after `name` was copied: what it had is unchanged, every other schema is one of the
-- source that `name` reaches, all references of the copied schemas lead to schemas that are there
-- too or that the source lacks, and so does `name`.
pub record IsClosure (source start : Schemas) (name : ℕ) (target : Schemas) : Type 0 where
  pub keeps : (k : ℕ) (s : Fields) → lookup k start ≡ some s → lookup k target ≡ some s
  pub copies :
      (k : ℕ) (s : Fields)
      → lookup k target ≡ some s
      → (lookup k start ≡ some s) ⊎ ((lookup k source ≡ some s) × Reaches source name k)
  pub closed :
      (k : ℕ) (s : Fields)
      → lookup k start ≡ none
      → lookup k target ≡ some s
      → All (λ r. settled source target r ≡ true) (refs s)
  pub named : settled source target name ≡ true

-- The loop ends, and copies the schema of this name with exactly what it references.
pub copy_schema_closure-IsClosure :
    (source target : Schemas) (name : ℕ)
    → (t : Schemas) × (copy_schema_closure source target name ≡ some t)
      × IsClosure source target name t
unfolding copy_schema_closure elem
copy_schema_closure-IsClosure source target name =
    let (t, done, inv) =
      copy_pending-IsCopying source target name (suc (total_refs source)) target (name ∷ [])
        (omega (arith, remaining-total_refs source target))
        (record {
          keeps = λ k s h. h;
          copies = λ k s h. inl h;
          closed = λ k s out h. absurd (ground (arith, out, h));
          named = ground arith;
          reached = (Reaches.here, tt);
        }) in
    (
      t,
      done,
      record {
        keeps = inv.keeps;
        copies = inv.copies;
        closed = λ k s out h. All-map (λ r e. ground (arith, e)) (refs s) (inv.closed k s out h);
        named = ground (arith, inv.named);
      },
    )
