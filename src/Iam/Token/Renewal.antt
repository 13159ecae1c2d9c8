-- ===== src/Iam/Token/Renewal.antt =====
-- exordos_core/iam/service.py: rounds of the renewal.
use exordos_core.Base.{ℕ, ◌+◌, ◌≤◌, ◌<◌, ◌≡◌, Bool, true, false, List, [], ◌∷◌, arith}
use exordos_core.Iam.Token.{Token, check_expiration, half, needs_renewal, renew, renew_one}

half-le : (delta : ℕ) → half delta ≤ delta
unfolding half
half-le delta = omega arith

-- A round at each of the times finds the token unexpired, and leaves it unexpired for half of its
-- lifetime, and for no more than all of it.
unfoldable pub IsAlive : (fails : ℕ → Bool) → List ℕ → Token → Type 0
IsAlive fails [] t = Unit
IsAlive fails (now ∷ times) t =
    (check_expiration now t ≡ true)
    × (now + half t.expiration_delta ≤ (renew_one fails now t).expiration_at)
    × ((renew_one fails now t).expiration_at ≤ now + t.expiration_delta)
    × IsAlive fails times (renew_one fails now t)

-- The times follow each other within half of a lifetime.
unfoldable pub IsSteady : (gap start : ℕ) → List ℕ → Type 0
IsSteady gap start [] = Unit
IsSteady gap start (now ∷ times) = (start ≤ now) × (now < start + gap) × IsSteady gap now times

-- What a round keeps of a token.
abbrev pub IsRenewable : (fails : ℕ → Bool) → Token → Type 0
IsRenewable fails t = (t.managed ≡ true) × (t.auto_renew ≡ true) × (fails t.uuid ≡ false)

round_keeps :
    (fails : ℕ → Bool) (now : ℕ) (t : Token)
    → IsRenewable fails t
    → IsRenewable fails (renew_one fails now t)
      × ((renew_one fails now t).expiration_delta ≡ t.expiration_delta)
unfolding renew_one renew
round_keeps fails now t (managed, auto, works) =
    ((ground (arith, managed), ground (arith, auto), ground (arith, works)), ground arith)

round-bounds :
    (fails : ℕ → Bool) (now : ℕ) (t : Token)
    → IsRenewable fails t
    → t.expiration_at ≤ now + t.expiration_delta
    → (now + half t.expiration_delta ≤ (renew_one fails now t).expiration_at)
      × ((renew_one fails now t).expiration_at ≤ now + t.expiration_delta)
unfolding renew_one renew needs_renewal
round-bounds fails now t (managed, auto, works) high = (
  ground (arith, managed, auto, works, high, half-le t.expiration_delta),
  ground (arith, managed, auto, works, high),
)

-- A managed token that renews itself, whose update does not fail, and which has between half and all of its
-- lifetime left at the start, never expires while the rounds follow each other within half of its lifetime.
pub renew_one-IsAlive :
    (fails : ℕ → Bool) (times : List ℕ) (start : ℕ) (t : Token)
    → IsRenewable fails t
    → start + half t.expiration_delta ≤ t.expiration_at
    → t.expiration_at ≤ start + t.expiration_delta
    → IsSteady (half t.expiration_delta) start times
    → IsAlive fails times t
unfolding IsAlive IsSteady check_expiration
renew_one-IsAlive fails [] start t renewable low high steady = tt
renew_one-IsAlive fails (now ∷ times) start t renewable low high (after, before, steady) =
    let (kept, delta) = round_keeps fails now t renewable in
    let (low', high') = round-bounds fails now t renewable (omega (arith, after, high)) in
    (
      ground (arith, low, before),
      low',
      high',
      renew_one-IsAlive fails times now (renew_one fails now t) kept (rw delta low')
          (rw delta high') (rw delta steady),
    )
