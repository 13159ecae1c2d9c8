-- ===== src/Iam/Account/Codes.antt =====
-- Confirmation codes: when one is accepted, and what the janitor clears.
use exordos_core.Base.{
  ℕ, ◌+◌, ◌≤◌, ◌≡◌, refl, ap, true, false, Option, none, some, List, [], ◌∷◌, IsIn, arith, inl, inr,
  ◌⊎◌, Option-cases,
}
use exordos_core.Base.Result.{ok, err}
use exordos_core.Iam.Account.{
  User, Library, user_confirmation_code_ttl, NewcomerBinding, create_confirmation_code,
  clear_confirmation_code, code_fits, check_confirmation_code, confirm_email, confirm_email_by_code,
  reset_secret, reset_secret_by_code,
}

-- A call about the code of a user, with the time of the call.
pub data CodeCall : Type 0 where
  creates : (fresh now : ℕ) → CodeCall
  confirms : (now : ℕ) (code : Option ℕ) → CodeCall
  resets : (salt now new_secret : ℕ) (code : Option ℕ) → CodeCall
  clears : CodeCall

pub record IsFresh (calls : List CodeCall) (now : ℕ) : Type 0 where
  pub made_at : ℕ
  pub fresh : ℕ
  pub asked : IsIn (creates fresh made_at) calls
  pub in_time : now ≤ made_at + user_confirmation_code_ttl

-- No code is accepted at any time.
abbrev pub IsSpent : User → Type 0
IsSpent user = (now : ℕ) (code : Option ℕ) → check_confirmation_code now code user ≡ false

no_code_IsSpent : (user : User) → user.confirmation_code ≡ none → IsSpent user
unfolding check_confirmation_code
no_code_IsSpent user h now none = refl
no_code_IsSpent user h now (some code) = ground (arith, h)

check-dated :
    (now : ℕ) (code : Option ℕ) (user : User)
    → check_confirmation_code now code user ≡ true
    → (t : ℕ) × (user.confirmation_code_made_at ≡ some t) × (now ≤ t + user_confirmation_code_ttl)
unfolding check_confirmation_code code_fits
check-dated now none user h = absurd (ground (arith, h))
check-dated now (some code) user h = elim (Option-cases user.confirmation_code_made_at) [
  | inl missing ↦ absurd (ground (arith, missing, h))
  | inr (t, made) ↦ (t, made, ground (arith, made, h))
]

confirm_email_by_code-IsSpent :
    (now : ℕ) (code : Option ℕ) (user u : User) (bindings bs : List NewcomerBinding)
    → confirm_email_by_code now code user bindings ≡ ok (u, bs)
    → IsSpent u
unfolding confirm_email_by_code confirm_email clear_confirmation_code
confirm_email_by_code-IsSpent now code user u bindings bs h = no_code_IsSpent u (ground (arith, h))

module _ (lib : Library) where
  reset_secret_by_code-IsSpent :
      (salt now new_secret : ℕ) (code : Option ℕ) (user u : User)
      → reset_secret_by_code lib salt now new_secret code user ≡ ok u
      → IsSpent u
  unfolding reset_secret_by_code reset_secret clear_confirmation_code
  reset_secret_by_code-IsSpent salt now new_secret code user u h =
      no_code_IsSpent u (ground (arith, h))

  unfoldable pub code_call : CodeCall → User → User
  code_call (creates fresh now) user = create_confirmation_code fresh now user
  code_call (confirms now code) user = elim (confirm_email_by_code now code user []) [
    | ok (u, bindings) ↦ u
    | err e ↦ user
  ]
  code_call (resets salt now new_secret code) user =
      elim (reset_secret_by_code lib salt now new_secret code user) [ ok u ↦ u | err e ↦ user ]
  code_call clears user = clear_confirmation_code user

  unfoldable pub code_calls : List CodeCall → User → User
  code_calls [] user = user
  code_calls (c ∷ calls) user = code_calls calls (code_call c user)

  -- A call leaves the time of the code, sets it to its own, or clears it.
  code_call-dated :
      (c : CodeCall) (user : User) (t : ℕ)
      → (code_call c user).confirmation_code_made_at ≡ some t
      → (user.confirmation_code_made_at ≡ some t) ⊎ ((fresh : ℕ) × (creates fresh t ≡ c))
  unfolding code_call create_confirmation_code clear_confirmation_code confirm_email_by_code
      confirm_email reset_secret_by_code reset_secret
  code_call-dated (creates fresh now) user t h =
      let e : t ≡ now = ground (arith, h) in inr (fresh, ap (creates fresh) e)
  code_call-dated (confirms now code) user t h = inl (ground (arith, h))
  code_call-dated (resets salt now new_secret code) user t h = inl (ground (arith, h))
  code_call-dated clears user t h = absurd (ground (arith, h))

  code_calls-dated :
      (calls : List CodeCall) (user : User) (t : ℕ)
      → (code_calls calls user).confirmation_code_made_at ≡ some t
      → (user.confirmation_code_made_at ≡ some t) ⊎ ((fresh : ℕ) × IsIn (creates fresh t) calls)
  unfolding code_calls
  code_calls-dated [] user t h = inl h
  code_calls-dated (c ∷ calls) user t h = elim (code_calls-dated calls (code_call c user) t h) [
    | inr (fresh, later) ↦ inr (fresh, inr later)
    | inl now ↦ elim (code_call-dated c user t now) [
      | inl before ↦ inl before
      | inr (fresh, this) ↦ inr (fresh, inl this)
    ]
  ]

  calls-IsFresh :
      (calls : List CodeCall) (user : User) (now : ℕ) (code : Option ℕ)
      → user.confirmation_code_made_at ≡ none
      → check_confirmation_code now code (code_calls calls user) ≡ true
      → IsFresh calls now
  calls-IsFresh calls user now code none_yet h =
      let (t, made, in_time) = check-dated now code (code_calls calls user) h in
      elim (code_calls-dated calls user t made) [
        | inl before ↦ absurd (ground (arith, none_yet, before))
        | inr (fresh, asked) ↦ record {
          made_at = t;
          fresh = fresh;
          asked = asked;
          in_time = in_time;
        }
      ]

  -- When a code is accepted for a user, and that it is accepted once.
  pub record IsGuarded (calls : List CodeCall) (user : User) : Type 0 where
    pub fresh :
        (now : ℕ) (code : Option ℕ)
        → check_confirmation_code now code user ≡ true
        → IsFresh calls now
    pub confirmed :
        (now : ℕ) (code : Option ℕ) (u : User) (bindings bs : List NewcomerBinding)
        → confirm_email_by_code now code user bindings ≡ ok (u, bs)
        → IsSpent u
    pub reset :
        (salt now new_secret : ℕ) (code : Option ℕ) (u : User)
        → reset_secret_by_code lib salt now new_secret code user ≡ ok u
        → IsSpent u

  -- Whatever calls are made for a user that had no code, a code is accepted only within the lifetime
  -- of a code that one of these calls asked for, and behind a confirmation or a reset that succeeds no
  -- code is accepted any more.
  pub code_calls-IsGuarded :
      (calls : List CodeCall) (user : User)
      → user.confirmation_code_made_at ≡ none
      → IsGuarded calls (code_calls calls user)
  code_calls-IsGuarded calls user none_yet = record {
    fresh = λ now code h. calls-IsFresh calls user now code none_yet h;
    confirmed = λ now code u bindings bs h.
        confirm_email_by_code-IsSpent now code (code_calls calls user) u bindings bs h;
    reset = λ salt now new_secret code u h.
        reset_secret_by_code-IsSpent salt now new_secret code (code_calls calls user) u h;
  }
