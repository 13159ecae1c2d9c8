-- ===== src/Iam/Token/Refresh.antt =====
-- Login sessions that are refreshed.
use exordos_core.Base.{ℕ, ◌+◌, ◌≤◌, ◌≡◌, refl, ◌∙◌, List, [], ◌∷◌, arith, inl, inr}
use exordos_core.Base.Result.{ok, err, Result-cases}
use exordos_core.Iam.Directory.{Tables, Piece}
use exordos_core.Iam.Token.{
  Token, check_refresh_expiration, validate_refresh_expiration, refresh, refresh_valid,
}

module _ (db : Tables) where
  -- Requests with the refresh token of a session, each at its time and with its scope; one that raises
  -- changes nothing.
  unfoldable pub refresh_all : List (ℕ × List Piece) → Token → Token
  refresh_all [] t = t
  refresh_all ((now, scope) ∷ requests) t = elim (refresh_valid db now scope t) [
    | ok u ↦ refresh_all requests u
    | err e ↦ refresh_all requests t
  ]

  -- What no refresh changes, and what it keeps below.
  record IsBounded (last : ℕ) (t u : Token) : Type 0 where
    refresh_end : u.refresh_expiration_at ≡ t.refresh_expiration_at
    delta : u.expiration_delta ≡ t.expiration_delta
    bound : u.expiration_at ≤ last

  refresh-IsBounded :
      (last now : ℕ) (scope : List Piece) (t u : Token)
      → t.refresh_expiration_at + t.expiration_delta ≤ last
      → refresh_valid db now scope t ≡ ok u
      → IsBounded last t u
  unfolding refresh_valid validate_refresh_expiration check_refresh_expiration refresh
  refresh-IsBounded last now scope t u room h = record {
    refresh_end = ground (arith, h);
    delta = ground (arith, h);
    bound = ground (arith, h, room);
  }

  -- However often a session is refreshed, its access token expires no later than it did at the start,
  -- or one lifetime after the end of the refresh token, and that end does not move.
  pub refresh_all-bound :
      (requests : List (ℕ × List Piece)) (t : Token) (last : ℕ)
      → t.refresh_expiration_at + t.expiration_delta ≤ last
      → t.expiration_at ≤ last
      → ((refresh_all requests t).expiration_at ≤ last)
        × ((refresh_all requests t).refresh_expiration_at ≡ t.refresh_expiration_at)
  unfolding refresh_all
  refresh_all-bound [] t last room below = (below, refl)
  refresh_all-bound ((now, scope) ∷ requests) t last room below =
      elim (Result-cases (refresh_valid db now scope t)) [
        | inl (u, done) ↦
            let b = refresh-IsBounded last now scope t u room done in
            let (bound, end) =
              refresh_all-bound requests u last (omega (arith, b.refresh_end, b.delta, room))
                b.bound in
            rw (done, refresh_all) (bound, end ∙ b.refresh_end)
        | inr (e, refused) ↦
            rw (refused, refresh_all) (refresh_all-bound requests t last room below)
      ]
