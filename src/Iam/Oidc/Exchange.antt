-- ===== src/Iam/Oidc/Exchange.antt =====
-- What `get_token_by_authorization_code` has checked behind an exchange that succeeds.
use exordos_core.Base.{
  ℕ, ◌<◌, ◌≡◌, refl, ◌==◌, true, Option, none, some, List, [], ◌∷◌, is_empty, IsIn, IsIn-filter,
  arith, inl, inr, ◌⊎◌, Bool-cases,
}
use exordos_core.Base.Result.{ok}
use exordos_core.Base.Texts.{Text, text_eq-≡}
use exordos_core.Iam.Token.{Token}
use exordos_core.Iam.Oidc.{
  Library, AuthInfo, Verifier, missing, text, other_value, s256, or_empty, is_verifier,
  challenge_of, is_some, check_challenged, check_grant, delete_info, exchange_from,
  get_token_by_authorization_code,
}

is_some-cases : (t : Option Token) → is_some t ≡ true → (u : Token) × (t ≡ some u)
is_some-cases none h = absurd (cc h)
is_some-cases (some u) h = (u, refl)

module _ (lib : Library) where
  -- A row with a challenge, and the verifier that it is exchanged for.
  pub record IsProof (client now : ℕ) (redirect_uri verifier : Text) (info : AuthInfo)
      : Type 0 where
    pub client_is : info.idp.iam_client ≡ client
    pub address : info.redirect_uri ≡ redirect_uri
    pub in_time : now < info.expiration_time_at
    pub confirmed : (t : Token) × (info.token ≡ some t)
    pub form : is_verifier verifier ≡ true
    pub method : or_empty info.code_challenge_method ≡ s256
    pub challenge : challenge_of lib verifier ≡ or_empty info.code_challenge

  -- A verifier that proves it, or neither a challenge nor a verifier.
  abbrev pub IsGranted : (client now : ℕ) (redirect_uri : Text) → Verifier → AuthInfo → Type 0
  IsGranted client now redirect_uri v info =
      ((verifier : Text) × (v ≡ text verifier) × IsProof client now redirect_uri verifier info)
      ⊎ ((v ≡ missing) × (or_empty info.code_challenge ≡ []))

  empty-≡ : (t : Text) → is_empty t ≡ true → t ≡ []
  empty-≡ [] h = refl
  empty-≡ (c ∷ t) h = absurd (cc h)

  check_challenged-IsProof :
      (client now : ℕ) (redirect_uri verifier : Text) (info : AuthInfo)
      → check_challenged lib client now redirect_uri (or_empty info.code_challenge) verifier info
        ≡ true
      → IsProof client now redirect_uri verifier info
  unfolding check_challenged
  check_challenged-IsProof client now redirect_uri verifier info h = record {
    client_is = ground (arith, h);
    address = text_eq-≡ _ _ (ground (arith, h));
    in_time = ground (arith, h);
    confirmed = is_some-cases info.token (ground (arith, h));
    form = ground (arith, h);
    method = text_eq-≡ _ _ (ground (arith, h));
    challenge = text_eq-≡ _ _ (ground (arith, h));
  }

  check_grant-IsGranted :
      (client now : ℕ) (redirect_uri : Text) (v : Verifier) (info : AuthInfo)
      → check_grant lib client now redirect_uri v info ≡ true
      → IsGranted client now redirect_uri v info
  unfolding check_grant
  check_grant-IsGranted client now redirect_uri missing info h = inr (refl, empty-≡ _ h)
  check_grant-IsGranted client now redirect_uri (text verifier) info h = inl (
    verifier,
    refl,
    check_challenged-IsProof client now redirect_uri verifier info (ground (arith, h)),
  )
  check_grant-IsGranted client now redirect_uri other_value info h = absurd (cc h)

  exchange_from-IsGranted :
      (client now : ℕ) (redirect_uri : Text) (v : Verifier) (rows selected rest : List AuthInfo)
      (token : Option Token)
      → exchange_from lib client now redirect_uri v rows selected ≡ ok (token, rest)
      → (info : AuthInfo) × IsIn info selected
        × (info.token ≡ token)
        × (delete_info info.uuid rows ≡ rest)
        × IsGranted client now redirect_uri v info
  unfolding exchange_from
  exchange_from-IsGranted client now redirect_uri v rows [] rest token h = absurd (cc h)
  exchange_from-IsGranted client now redirect_uri v rows (info ∷ selected) rest token h =
      elim (Bool-cases (check_grant lib client now redirect_uri v info)) [
        | inl granted ↦ (
          info,
          inl refl,
          ground (arith, granted, h),
          ground (arith, granted, h),
          check_grant-IsGranted client now redirect_uri v info granted,
        )
        | inr refused ↦ absurd (ground (arith, refused, h))
      ]

  -- A code is exchanged only for the token of a row with this code, and the row is deleted. If a verifier
  -- was given, then the row has a challenge that it proves, and belongs to the client and the address,
  -- before it expires and once it is confirmed; and otherwise the row has no challenge.
  pub exchange-IsGranted :
      (client now code : ℕ) (redirect_uri : Text) (v : Verifier) (rows rest : List AuthInfo)
      (token : Option Token)
      → get_token_by_authorization_code lib client now code redirect_uri v rows ≡ ok (token, rest)
      → (info : AuthInfo) × IsIn info rows
        × (info.code ≡ code)
        × (info.token ≡ token)
        × (delete_info info.uuid rows ≡ rest)
        × IsGranted client now redirect_uri v info
  unfolding get_token_by_authorization_code
  exchange-IsGranted client now code redirect_uri v rows rest token h =
      let (info, there, token_is, deleted, granted) =
        exchange_from-IsGranted client now redirect_uri v rows _ rest token h in
      let (inside, same) = IsIn-filter (λ (i : AuthInfo). i.code == code) info rows there in
      (info, inside, ground (arith, same), token_is, deleted, granted)
