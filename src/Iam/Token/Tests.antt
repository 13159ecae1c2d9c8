-- ===== src/Iam/Token/Tests.antt =====
-- Runs of the tokens of exordos_core/user_api/iam/dm/models.py.
use exordos_core.Base.{
  ℕ, ◌*◌, ltb, ◌≤◌, ◌≡◌, refl, Bool, true, false, ◌&&◌, not, any, List, [], ◌∷◌, none, arith,
}
use exordos_core.Base.Result.{ok, err}
use exordos_core.Iam.Directory.{Tables}
use exordos_core.Iam.Token.{
  Token, invalid_auth_token, get_introspection_info, my, check_expiration, validate,
  validate_expiration, validate_generation, get_access_token_info, half, renew_one, renew,
  needs_renewal,
}
use exordos_core.Iam.Token.Validity.{
  Change, renews, regenerates, change_all, is_regeneration, accepts, renewal_all,
  validate-change_all, accepts-renewal_all,
}
use exordos_core.Iam.Token.Renewal.{IsAlive, IsSteady, renew_one-IsAlive}
use exordos_core.Iam.Token.Refresh.{refresh_all, refresh_all-bound}

abbrev no_rows : Tables
no_rows = record { projects = []; members = []; role_bindings = []; permission_bindings = [] }

abbrev session : Token
session = record {
  uuid = 7;
  user = 1;
  iam_client = 2;
  project = none;
  scope = [];
  expiration_delta = 100000000;
  expiration_at = 150500000;
  refresh_expiration_at = 1000000000;
  refresh_token_uuid = 8;
  managed = true;
  auto_renew = true;
  generation = 3;
}

abbrev never : ℕ → Bool
never uuid = false

half_odd : half 3 ≡ 2
unfolding half
half_odd = refl

passes :
    get_introspection_info 149000000 (get_access_token_info session) (session ∷ []) ≡ ok session
unfolding get_introspection_info my validate validate_expiration validate_generation
    check_expiration get_access_token_info
passes = refl

too_late :
    get_introspection_info 150500000 (get_access_token_info session) (session ∷ [])
    ≡ err invalid_auth_token
unfolding get_introspection_info my validate validate_expiration validate_generation
    check_expiration get_access_token_info
too_late = refl

-- The library of tokens, as it is documented.
abbrev decodes : (now exp : ℕ) → Bool
decodes now exp = ltb now (exp * 1000000)

-- Renewed at 120 seconds, the record lives until 220, and the old access token until 150.
old_token :
    accepts decodes 160000000
      (get_access_token_info session)
      (renewal_all never (120000000 ∷ []) session)
    ≡ false
unfolding accepts renewal_all renew_one renew needs_renewal half validate validate_expiration
    validate_generation check_expiration get_access_token_info
old_token = refl

abbrev changes : List Change
changes = renews 100000000 ∷ regenerates 110000000 ∷ []

validate-change_all_example :
    accepts decodes 120000000 (get_access_token_info session) (change_all no_rows changes session)
    ≡ ltb 120000000 150000000
      && check_expiration 120000000 (change_all no_rows changes session)
      && not (any is_regeneration changes)
validate-change_all_example =
    validate-change_all decodes (λ now exp. refl) no_rows changes session 120000000

accepts-renewal_all_example :
    accepts decodes 140000000
      (get_access_token_info session)
      (renewal_all never (120000000 ∷ 130000000 ∷ []) session)
    ≡ true
accepts-renewal_all_example =
    accepts-renewal_all decodes (λ now exp. refl) never (120000000 ∷ 130000000 ∷ []) session
      140000000

renew_one-IsAlive_example : IsAlive never (120000000 ∷ 149000000 ∷ 170000000 ∷ []) session
unfolding half IsSteady
renew_one-IsAlive_example =
    renew_one-IsAlive never (120000000 ∷ 149000000 ∷ 170000000 ∷ []) 100000000 session
      (refl, refl, refl) (omega arith) (omega arith)
      (omega arith, omega arith, (omega arith, omega arith, (omega arith, omega arith, tt)))

refresh_all-bound_example :
    ((refresh_all no_rows ((500000000, []) ∷ (1200000000, []) ∷ []) session).expiration_at
      ≤ 1100000000)
    × ((refresh_all no_rows ((500000000, []) ∷ (1200000000, []) ∷ []) session).refresh_expiration_at
        ≡ 1000000000)
refresh_all-bound_example =
    refresh_all-bound no_rows ((500000000, []) ∷ (1200000000, []) ∷ []) session 1100000000
      (omega arith) (omega arith)
