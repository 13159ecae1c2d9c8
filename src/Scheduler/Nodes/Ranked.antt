-- ===== src/Scheduler/Nodes/Ranked.antt =====
-- The weighting and sorting of pools, in exordos_core/compute/scheduler/service.py.
use exordos_core.Base.{List, [], ◌∷◌, All, inl, inr, Bool-cases}
use exordos_core.Scheduler.Filters.{Pool}
use exordos_core.Scheduler.Nodes.{
  Weights, zeros, accumulate, zip_weights, insert_ranked, sort_ranked, drop_weights, ranked,
}

module _ (F : Weights) (P : Pool → Type 0) where
  All-zip :
      (ws : List F.W) (pools : List Pool) → All P pools → All (λ x. P x.1) (zip_weights F ws pools)
  unfolding zip_weights
  All-zip [] pools h = tt
  All-zip (w ∷ ws) [] h = tt
  All-zip (w ∷ ws) (p ∷ pools) h = (h.0, All-zip ws pools h.1)

  All-insert_ranked :
      (x : F.W × Pool) (xs : List (F.W × Pool))
      → P x.1
      → All (λ y. P y.1) xs
      → All (λ y. P y.1) (insert_ranked F x xs)
  unfolding insert_ranked
  All-insert_ranked x [] h k = (h, k)
  All-insert_ranked x (y ∷ ys) h k = elim (Bool-cases (F.le y.0 x.0)) [
    | inl t ↦ rw t (h, k)
    | inr f ↦ rw f (k.0, All-insert_ranked x ys h k.1)
  ]

  All-sort_ranked :
      (xs : List (F.W × Pool)) → All (λ y. P y.1) xs → All (λ y. P y.1) (sort_ranked F xs)
  unfolding sort_ranked
  All-sort_ranked [] h = tt
  All-sort_ranked (x ∷ xs) h = All-insert_ranked x (sort_ranked F xs) h.0 (All-sort_ranked xs h.1)

  All-drop : (xs : List (F.W × Pool)) → All (λ y. P y.1) xs → All P (drop_weights F xs)
  unfolding drop_weights
  All-drop [] h = tt
  All-drop (x ∷ xs) h = (h.0, All-drop xs h.1)

  pub All-ranked :
      (weighters : List (List Pool → List F.W)) (pools : List Pool)
      → All P pools
      → All P (ranked F weighters pools)
  unfolding ranked
  All-ranked weighters pools h =
      All-drop _
        (All-sort_ranked _ (All-zip (accumulate F weighters pools (zeros F pools)) pools h))
