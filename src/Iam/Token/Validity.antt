-- ===== src/Iam/Token/Validity.antt =====
-- How long an access token is accepted.
use exordos_core.Base.{
  ℕ, ◌+◌, ◌*◌, ◌/◌, ltb, ◌≤◌, ◌≡◌, refl, ◌==◌, Bool, true, false, not, ◌&&◌, Option, List, [], ◌∷◌,
  any, arith, if◌then◌else◌,
}
use exordos_core.Base.Result.{ok, err}
use exordos_core.Iam.Directory.{Tables, Piece}
use exordos_core.Iam.Token.{
  Token, TokenInfo, renew_one, needs_renewal, half, invalid_auth_token, check_expiration,
  validate_expiration, validate_generation, refresh, renew, regenerate, update,
  get_access_token_info, validate,
}

-- What changes a token after it was signed.
pub data Change : Type 0 where
  refreshes : (now : ℕ) (scope : List Piece) → Change
  renews : (now : ℕ) → Change
  updates : (now : ℕ) (scope : Option (List Piece)) (delta : Option ℕ) → Change
  regenerates : (now : ℕ) → Change

module _ (db : Tables) where
  unfoldable pub change : Change → Token → Token
  change (refreshes now scope) t = refresh db now scope t
  change (renews now) t = renew now t
  change (updates now scope delta) t = update db now scope delta t
  change (regenerates now) t = regenerate now t

  unfoldable pub change_all : List Change → Token → Token
  change_all [] t = t
  change_all (c ∷ changes) t = change_all changes (change c t)

-- Rounds of the renewal of one record, at these times.
unfoldable pub renewal_all : (fails : ℕ → Bool) → List ℕ → Token → Token
renewal_all fails [] t = t
renewal_all fails (now ∷ times) t = renewal_all fails times (renew_one fails now t)

seconds_below : (t : ℕ) → t / 1000000 * 1000000 ≤ t
seconds_below t = omega arith

abbrev pub is_regeneration : Change → Bool
is_regeneration (refreshes now scope) = false
is_regeneration (renews now) = false
is_regeneration (updates now scope delta) = false
is_regeneration (regenerates now) = true

module _ (db : Tables) where
  abbrev one_if : Bool → ℕ
  one_if true = 1
  one_if false = 0

  generation-change :
      (c : Change) (t : Token)
      → (change db c t).generation ≡ t.generation + one_if (is_regeneration c)
  unfolding change refresh renew regenerate update
  generation-change (refreshes now scope) t = omega arith
  generation-change (renews now) t = omega arith
  generation-change (updates now scope delta) t = ground arith
  generation-change (regenerates now) t = refl

  generation-change_all :
      (changes : List Change) (t : Token)
      → (t.generation ≤ (change_all db changes t).generation)
        × (((change_all db changes t).generation == t.generation)
            ≡ not (any is_regeneration changes))
  unfolding change_all any
  generation-change_all [] t = ground arith
  generation-change_all (c ∷ changes) t =
      ground (arith, generation-change c t, generation-change_all changes (change db c t))

  -- What the driver says of an access token behind any changes of the record.
  validate-changed :
      (changes : List Change) (t : Token) (now : ℕ)
      → validate now (get_access_token_info t) (change_all db changes t) ≡ (
          if check_expiration now (change_all db changes t) && not (any is_regeneration changes)
          then ok (change_all db changes t)
          else err invalid_auth_token)
  unfolding validate validate_expiration validate_generation get_access_token_info
  validate-changed changes t now = ground (arith, generation-change_all changes t)

-- `decodes` tells whether the library of tokens lets a token with this signed expiration pass, before it
-- asks the driver.
module _ (decodes : (now exp : ℕ) → Bool) where
  -- Whether a request with the access token is let in, for the record as it is then.
  unfoldable pub accepts : (now : ℕ) → TokenInfo → Token → Bool
  accepts now info t = elim (validate now info t) [ ok _ ↦ decodes now info.exp | err _ ↦ false ]

  -- A token passes the library until the second of its signed expiration.
  abbrev pub IsExact : Type 0
  IsExact = (now exp : ℕ) → decodes now exp ≡ ltb now (exp * 1000000)

  module _ (exact : IsExact) where
    -- If a token passes the library exactly before its signed expiration, then an access token that was
    -- signed before any changes of its record is let in exactly while it is before the second of its
    -- own expiration, the record as it is now has not expired, and none of the changes regenerated it.
    pub validate-change_all :
        (db : Tables) (changes : List Change) (t : Token) (now : ℕ)
        → accepts now (get_access_token_info t) (change_all db changes t)
          ≡ ltb now (t.expiration_at / 1000000 * 1000000)
            && check_expiration now (change_all db changes t)
            && not (any is_regeneration changes)
    unfolding accepts get_access_token_info
    validate-change_all db changes t now =
        ground (arith, validate-changed db changes t now, exact now (t.expiration_at / 1000000))

    renewal_all-kept :
        (fails : ℕ → Bool) (times : List ℕ) (t : Token)
        → (t.expiration_at ≤ (renewal_all fails times t).expiration_at)
          × ((renewal_all fails times t).generation ≡ t.generation)
    unfolding renewal_all renew_one renew needs_renewal half
    renewal_all-kept fails [] t = (omega arith, refl)
    renewal_all-kept fails (now ∷ times) t =
        let later = renewal_all-kept fails times (renew_one fails now t) in
        (ground (arith, later), ground (arith, later))

    -- If a token passes the library exactly before its signed expiration, then an access token is let in
    -- behind any rounds of the renewal, failed updates included, exactly until the second of the
    -- expiration that was signed into it.
    pub accepts-renewal_all :
        (fails : ℕ → Bool) (times : List ℕ) (t : Token) (now : ℕ)
        → accepts now (get_access_token_info t) (renewal_all fails times t)
          ≡ ltb now (t.expiration_at / 1000000 * 1000000)
    unfolding accepts get_access_token_info validate validate_expiration validate_generation
        check_expiration
    accepts-renewal_all fails times t now = ground (
      arith,
      renewal_all-kept fails times t,
      exact now (t.expiration_at / 1000000),
      seconds_below t.expiration_at,
    )
