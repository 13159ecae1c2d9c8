-- ===== src/Base/Lists.antt =====
-- Lists: length by native numbers, filtering by a Boolean test, and predicates by recursion.
use Prim.Native.Nat.{ℕ, suc, ◌+◌}
use mathlib.Core.Path.{◌≡◌, refl, ap, sym, ◌∙◌}
use mathlib.Core.Logic.{◌⊎◌, inl, inr}
use mathlib.Core.Bool.{Bool, ◌||◌, true, false}
use mathlib.Core.List.{List, [], ◌∷◌, ◌++◌}
use native.Mathlib.Omega.{arith}
use exordos_core.Base.Tests.{if◌then◌else◌, Bool-cases}

module _ {ℓ} {A : Type ℓ} where
  abbrev pub length : List A → ℕ
  length [] = 0
  length (x ∷ xs) = suc (length xs)

  -- `tuple(x for x in xs if p(x))`
  unfoldable pub filter : (A → Bool) → List A → List A
  filter p [] = []
  filter p (x ∷ xs) = let rest = filter p xs in if p x then x ∷ rest else rest

  -- `any(p(x) for x in xs)`
  unfoldable pub any : (A → Bool) → List A → Bool
  any p [] = false
  any p (x ∷ xs) = p x || any p xs

  -- `not xs`
  abbrev pub is_empty : List A → Bool
  is_empty [] = true
  is_empty (x ∷ xs) = false

  abbrev pub All {κ} : (A → Type κ) → List A → Type κ
  All P [] = Unit
  All P (x ∷ xs) = P x × All P xs

  pub length-append : (xs ys : List A) → length (xs ++ ys) ≡ length xs + length ys
  length-append [] ys = omega arith
  length-append (x ∷ xs) ys = omega (arith, length-append xs ys)

-- `x` is an element.
abbrev pub IsIn : {A : Type 0} → A → List A → Type 0
IsIn x [] = ⊥
IsIn x (y ∷ ys) = (x ≡ y) ⊎ IsIn x ys

module _ {ℓ κ} {A : Type ℓ} (P : A → Type κ) where
  pub All-append : (xs ys : List A) → All P xs → All P ys → All P (xs ++ ys)
  All-append [] ys h k = k
  All-append (x ∷ xs) ys h k = (h.0, All-append xs ys h.1 k)

  pub All-filter : (p : A → Bool) (xs : List A) → All P xs → All P (filter p xs)
  unfolding filter
  All-filter p [] h = h
  All-filter p (x ∷ xs) h = elim (Bool-cases (p x)) [
    | inl keep ↦ rw keep (h.0, All-filter p xs h.1)
    | inr drop ↦ rw drop (All-filter p xs h.1)
  ]

pub All-map {ℓ κ μ} :
    {A : Type ℓ} {P : A → Type κ} {Q : A → Type μ}
    → ((x : A) → P x → Q x)
    → (xs : List A) → All P xs
    → All Q xs
All-map f [] h = tt
All-map f (x ∷ xs) h = (f x h.0, All-map f xs h.1)

pub All-IsIn {κ} : {A : Type 0} (P : A → Type κ) (x : A) (xs : List A) → All P xs → IsIn x xs → P x
All-IsIn P x [] h i = absurd i
All-IsIn P x (y ∷ ys) h (inl e) = rw e h.0
All-IsIn P x (y ∷ ys) h (inr i) = All-IsIn P x ys h.1 i

pub All-self : {A : Type 0} (xs : List A) → All (λ x. IsIn x xs) xs
All-self [] = tt
All-self (x ∷ xs) = (inl refl, All-map (λ y. inr) xs (All-self xs))

module _ {ℓ} {A : Type ℓ} (p : A → Bool) where
  pub filter-All : (xs : List A) → All (λ x. p x ≡ true) (filter p xs)
  unfolding filter
  filter-All [] = tt
  filter-All (x ∷ xs) = elim (Bool-cases (p x)) [
    | inl keep ↦ rw keep (keep, filter-All xs)
    | inr drop ↦ rw drop (filter-All xs)
  ]

-- Two tests that agree on the elements keep the same ones.
pub filter_ext {ℓ} :
    {A : Type ℓ} (p q : A → Bool) (xs : List A)
    → All (λ x. p x ≡ q x) xs
    → filter p xs ≡ filter q xs
unfolding filter
filter_ext p q [] h = refl
filter_ext p q (x ∷ xs) h = ground (arith, h.0, filter_ext p q xs h.1)

pub any-IsIn :
    {A : Type 0} (p : A → Bool) (x : A) (xs : List A) → IsIn x xs → p x ≡ true → any p xs ≡ true
unfolding any
any-IsIn p x [] i t = absurd i
any-IsIn p x (y ∷ ys) (inl e) t = ground (arith, e, t)
any-IsIn p x (y ∷ ys) (inr i) t = ground (arith, any-IsIn p x ys i t)

pub any-none {ℓ} :
    {A : Type ℓ} (p : A → Bool) (xs : List A) → All (λ x. p x ≡ false) xs → any p xs ≡ false
unfolding any
any-none p [] h = refl
any-none p (x ∷ xs) h = ground (arith, h.0, any-none p xs h.1)

pub filter-IsIn :
    {A : Type 0} (p : A → Bool) (x : A) (xs : List A)
    → IsIn x xs
    → p x ≡ true
    → IsIn x (filter p xs)
unfolding filter
filter-IsIn p x [] i t = absurd i
filter-IsIn p x (y ∷ ys) (inl e) t = rw (ap p (sym e) ∙ t) (inl e)
filter-IsIn p x (y ∷ ys) (inr i) t = elim (Bool-cases (p y)) [
  | inl keep ↦ rw keep (inr (filter-IsIn p x ys i t))
  | inr drop ↦ rw drop (filter-IsIn p x ys i t)
]

IsIn-filter_cons :
    {A : Type 0} (p : A → Bool) (x y : A) (xs zs : List A)
    → p y ≡ true
    → (IsIn x zs → IsIn x xs × (p x ≡ true))
    → IsIn x (y ∷ zs)
    → IsIn x (y ∷ xs) × (p x ≡ true)
IsIn-filter_cons p x y xs zs keep back (inl e) = (inl e, rw e keep)
IsIn-filter_cons p x y xs zs keep back (inr j) = let (there, test) = back j in (inr there, test)

pub IsIn-filter :
    {A : Type 0} (p : A → Bool) (x : A) (xs : List A)
    → IsIn x (filter p xs)
    → IsIn x xs × (p x ≡ true)
unfolding filter
IsIn-filter p x [] i = absurd i
IsIn-filter p x (y ∷ ys) i = elim (Bool-cases (p y)) [
  | inl keep ↦ IsIn-filter_cons p x y ys (filter p ys) keep (IsIn-filter p x ys) (rw keep at i)
  | inr drop ↦ let (there, test) = IsIn-filter p x ys (rw drop at i) in (inr there, test)
]

-- If a test holds somewhere in a list, then at one of its elements.
pub any-witness :
    {A : Type 0} (p : A → Bool) (xs : List A) → any p xs ≡ true → (x : A) × IsIn x xs × (p x ≡ true)
unfolding any
any-witness p [] h = absurd (cc h)
any-witness p (x ∷ xs) h = elim (Bool-cases (p x)) [
  | inl fits ↦ (x, inl refl, fits)
  | inr other ↦
      let (y, there, fits) = any-witness p xs (ground (arith, other, h)) in (y, inr there, fits)
]

-- Without an element that fails the test, a filter keeps all.
pub keep_every {ℓ} :
    {A : Type ℓ} (p : A → Bool) (xs : List A) → All (λ x. p x ≡ true) xs → filter p xs ≡ xs
unfolding filter
keep_every p [] h = refl
keep_every p (x ∷ xs) h = ground (arith, h.0, keep_every p xs h.1)
