-- ===== src/Iam/Account/Janitor.antt =====
-- exordos_core/janitor/service.py: which codes the janitor clears.
use exordos_core.Base.{
  ℕ, ◌+◌, ◌-◌, ◌≤◌, ◌≡◌, refl, ap₂, subst, ◌==◌, length, Bool, true, false, Option, none, some,
  List, [], ◌∷◌, map, filter, any, any-IsIn, IsIn, All, All-map, All-filter, filter-All, All-self,
  filter-IsIn, arith, if◌then◌else◌, inl, inr, Bool-cases,
}
use exordos_core.Iam.Account.{
  User, clear_confirmation_code, code_fits, check_confirmation_code, is_bad, earlier, insert_by_age,
  sort_by_age, take, clear_all, clean_bad_confirmation_codes,
}

-- The uuid is the key of the table.
abbrev pub IsKeyed : List User → Type 0
IsKeyed users = (u v : User) → IsIn u users → IsIn v users → (u.uuid == v.uuid) ≡ true → u ≡ v

module _ (P : User → Type 0) where
  All-insert_by_age :
      (u : User) (users : List User) → P u → All P users → All P (insert_by_age u users)
  unfolding insert_by_age
  All-insert_by_age u [] h k = (h, k)
  All-insert_by_age u (v ∷ users) h k = elim (Bool-cases (earlier u v)) [
    | inl t ↦ rw t (h, k)
    | inr f ↦ rw f (k.0, All-insert_by_age u users h k.1)
  ]

  All-sort_by_age : (users : List User) → All P users → All P (sort_by_age users)
  unfolding sort_by_age
  All-sort_by_age [] h = h
  All-sort_by_age (u ∷ users) h =
      All-insert_by_age u (sort_by_age users) h.0 (All-sort_by_age users h.1)

  All-take : (n : ℕ) (users : List User) → All P users → All P (take n users)
  unfolding take
  All-take n [] h = h
  All-take n (u ∷ users) h = elim (Bool-cases (n == 0)) [
    | inl t ↦ rw t tt
    | inr f ↦ rw f (h.0, All-take (n - 1) users h.1)
  ]

  any-All :
      (p : User → Bool) (users : List User)
      → any p users ≡ true
      → All P users
      → (u : User) × (p u ≡ true) × P u
  unfolding any
  any-All p [] h k = absurd (ground (arith, h))
  any-All p (u ∷ users) h k = elim (Bool-cases (p u)) [
    | inl t ↦ (u, t, k.0)
    | inr f ↦ any-All p users (ground (arith, f, h)) k.1
  ]

-- A code that the janitor takes for expired is not accepted any more.
is_bad-check :
    (now later : ℕ) (code : Option ℕ) (user : User)
    → now ≤ later
    → is_bad now user ≡ true
    → check_confirmation_code later code user ≡ false
unfolding is_bad check_confirmation_code code_fits
is_bad-check now later none user le bad = refl
is_bad-check now later (some code) user le bad = ground arith

clear-check :
    (later : ℕ) (code : Option ℕ) (user : User)
    → check_confirmation_code later code (clear_confirmation_code user) ≡ false
unfolding check_confirmation_code clear_confirmation_code
clear-check later none user = refl
clear-check later (some code) user = refl

clear-is_bad : (now : ℕ) (user : User) → is_bad now (clear_confirmation_code user) ≡ false
unfolding is_bad clear_confirmation_code
clear-is_bad now user = refl

abbrev is_among : List User → User → Bool
is_among bad u = any (λ b. b.uuid == u.uuid) bad

clear_all-check :
    (later : ℕ) (code : Option ℕ) (bad users : List User)
    → All (λ u. is_among bad u ≡ true → check_confirmation_code later code u ≡ false) users
    → map (check_confirmation_code later code) (clear_all bad users)
      ≡ map (check_confirmation_code later code) users
unfolding clear_all
clear_all-check later code bad [] h = refl
clear_all-check later code bad (u ∷ users) h =
    ap₂ (λ b bs. b ∷ bs) one (clear_all-check later code bad users h.1)
  where
    one :
        check_confirmation_code later code (if is_among bad u then clear_confirmation_code u else u)
        ≡ check_confirmation_code later code u
    one = elim (Bool-cases (is_among bad u)) [
      | inl t ↦ ground (arith, t, h.0 t, clear-check later code u)
      | inr f ↦ ground (arith, f)
    ]

All-both :
    (P Q : User → Type 0) (users : List User)
    → All P users
    → All Q users
    → All (λ u. P u × Q u) users
All-both P Q [] h k = tt
All-both P Q (u ∷ users) h k = ((h.0, k.0), All-both P Q users h.1 k.1)

bad_there :
    (now : ℕ) (users : List User)
    → All (λ b. (is_bad now b ≡ true) × IsIn b users) (filter (is_bad now) users)
bad_there now users =
    All-both (λ b. is_bad now b ≡ true) (λ b. IsIn b users) (filter (is_bad now) users)
      (filter-All (is_bad now) users)
      (All-filter (λ b. IsIn b users) (is_bad now) users (All-self users))

-- Sorting and a limit that is not reached lose no user.
insert_by_age-IsIn :
    (x u : User) (users : List User) → IsIn x (u ∷ users) → IsIn x (insert_by_age u users)
unfolding insert_by_age
insert_by_age-IsIn x u [] i = i
insert_by_age-IsIn x u (v ∷ users) i = elim (Bool-cases (earlier u v)) [
  | inl t ↦ rw t i
  | inr f ↦ rw f (elim i [
    | inl e ↦ inr (insert_by_age-IsIn x u users (inl e))
    | inr j ↦ elim j [ inl e ↦ inl e | inr k ↦ inr (insert_by_age-IsIn x u users (inr k)) ]
  ])
]

sort_by_age-IsIn : (x : User) (users : List User) → IsIn x users → IsIn x (sort_by_age users)
unfolding sort_by_age
sort_by_age-IsIn x [] i = i
sort_by_age-IsIn x (u ∷ users) (inl e) = insert_by_age-IsIn x u (sort_by_age users) (inl e)
sort_by_age-IsIn x (u ∷ users) (inr i) =
    insert_by_age-IsIn x u (sort_by_age users) (inr (sort_by_age-IsIn x users i))

length-insert_by_age :
    (u : User) (users : List User) → length (insert_by_age u users) ≡ length users + 1
unfolding insert_by_age
length-insert_by_age u [] = omega arith
length-insert_by_age u (v ∷ users) = ground (arith, length-insert_by_age u users)

length-sort_by_age : (users : List User) → length (sort_by_age users) ≡ length users
unfolding sort_by_age
length-sort_by_age [] = omega arith
length-sort_by_age (u ∷ users) =
    omega (arith, length-insert_by_age u (sort_by_age users), length-sort_by_age users)

take_all : (n : ℕ) (users : List User) → length users ≤ n → take n users ≡ users
unfolding take
take_all n [] h = refl
take_all n (u ∷ users) h = ground (arith, take_all (n - 1) users (omega (arith, h)))

clear_all-none_bad :
    (now : ℕ) (bad users : List User)
    → All (λ u. is_bad now u ≡ true → is_among bad u ≡ true) users
    → filter (is_bad now) (clear_all bad users) ≡ []
unfolding clear_all filter
clear_all-none_bad now bad [] h = refl
clear_all-none_bad now bad (u ∷ users) h = elim (Bool-cases (is_among bad u)) [
  | inl t ↦ ground (arith, t, clear-is_bad now u, clear_all-none_bad now bad users h.1)
  | inr f ↦ elim (Bool-cases (is_bad now u)) [
    | inl expired ↦ absurd (ground (arith, f, h.0 expired))
    | inr fine ↦ ground (arith, f, fine, clear_all-none_bad now bad users h.1)
  ]
]

module _ (limit now : ℕ) (users : List User) (keyed : IsKeyed users) where
  clean-check :
      (later : ℕ) (code : Option ℕ)
      → now ≤ later
      → map (check_confirmation_code later code) (clean_bad_confirmation_codes limit now users)
        ≡ map (check_confirmation_code later code) users
  unfolding clean_bad_confirmation_codes
  clean-check later code le = clear_all-check later code bad users (
      All-map
        (λ u there among.
          let (b, same, (bad_one, b_there)) =
            any-All Bad (λ b. b.uuid == u.uuid) bad among all_bad in
          subst (λ x. check_confirmation_code later code x ≡ false) (keyed b u b_there there same)
            (is_bad-check now later code b le bad_one))
        users (All-self users))
    where
      bad : List User
      bad = take limit (sort_by_age (filter (is_bad now) users))

      Bad : User → Type 0
      Bad b = (is_bad now b ≡ true) × IsIn b users

      all_bad : All Bad bad
      all_bad = All-take Bad limit _ (All-sort_by_age Bad _ (bad_there now users))

  clean-none_bad :
      length (filter (is_bad now) users) ≤ limit
      → filter (is_bad now) (clean_bad_confirmation_codes limit now users) ≡ []
  unfolding clean_bad_confirmation_codes
  clean-none_bad few =
      let sorted = sort_by_age (filter (is_bad now) users) in
      rw
        (take_all limit sorted (omega (arith, few, length-sort_by_age (filter (is_bad now) users))))
        (clear_all-none_bad now sorted users (
          All-map
            (λ u there expired.
              any-IsIn (λ b. b.uuid == u.uuid) u sorted
                (sort_by_age-IsIn u (filter (is_bad now) users)
                  (filter-IsIn (is_bad now) u users there expired))
                (ground arith))
            users (All-self users)))

  -- Cleaning changes no answer: at its time and later, the same codes are accepted for every user. And
  -- if its limit is not exceeded, no user with an expired code is left.
  pub clean_bad_confirmation_codes_lem :
      ((later : ℕ) (code : Option ℕ)
        → now ≤ later
        → map (check_confirmation_code later code) (clean_bad_confirmation_codes limit now users)
          ≡ map (check_confirmation_code later code) users)
      × (length (filter (is_bad now) users) ≤ limit
          → filter (is_bad now) (clean_bad_confirmation_codes limit now users) ≡ [])
  clean_bad_confirmation_codes_lem = (clean-check, clean-none_bad)
