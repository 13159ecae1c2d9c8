-- ===== src/Iam/Oidc/Flow.antt =====
-- The calls of a client that asks for a code and exchanges it: `authorize`, `confirm` and
-- `get_token_by_authorization_code`.
use exordos_core.Base.{
  keep_every, ℕ, ◌+◌, ◌<◌, ◌≡◌, refl, ap, ◌==◌, Bool, true, false, not, none, some, List, [], ◌∷◌,
  length, filter, is_empty, All, All-map, arith,
}
use exordos_core.Base.Result.{ok, err}
use exordos_core.Base.Texts.{Text, text_eq_refl}
use exordos_core.Iam.Base64.{IsByte, encode_digest-is_url_safe}
use exordos_core.Iam.Directory.{Tables, Piece}
use exordos_core.Iam.Token.{Token}
use exordos_core.Iam.Oidc.{
  Library, Idp, AuthInfo, Request, login, credentials_are_invalid, Verifier, text, code_type, s256,
  code_lifetime, or_empty, is_challenge, is_verifier, check_pkce, confirm_token, confirm,
  check_callback, new_info, redirect_error, authorize, challenge_of, check_challenged, check_grant,
  delete_info, exchange_from, get_token_by_authorization_code,
}

-- Without a row that passes the test, the filter keeps none.
keep_nothing :
    (p : AuthInfo → Bool) (rows : List AuthInfo) → All (λ i. p i ≡ false) rows → filter p rows ≡ []
unfolding filter
keep_nothing p [] h = refl
keep_nothing p (i ∷ rows) h = ground (arith, h.0, keep_nothing p rows h.1)

-- No row has this uuid or this code.
abbrev pub IsFresh : (uuid code : ℕ) → List AuthInfo → Type 0
IsFresh uuid code rows =
    All (λ (i : AuthInfo). (i.uuid == uuid) ≡ false) rows
    × All (λ (i : AuthInfo). (i.code == code) ≡ false) rows

module _ (lib : Library) where
  -- A digest of the hash function has 32 bytes.
  abbrev pub IsDigest : List ℕ → Type 0
  IsDigest digest = (length digest ≡ 32) × All IsByte digest

  -- A request for a code that the provider accepts, with the challenge of this verifier.
  pub record IsCodeRequest (idp : Idp) (verifier : Text) (pieces : List Piece) (r : Request)
      : Type 0 where
    pub client_id : r.client_id ≡ some idp.client_id
    pub client_id_given : is_empty idp.client_id ≡ false
    pub redirect_uri_given : is_empty (or_empty r.redirect_uri) ≡ false
    pub callback : check_callback lib idp.callback (or_empty r.redirect_uri) ≡ true
    pub response_type : r.response_type ≡ some code_type
    pub scope : r.scope ≡ some pieces
    pub nonce : is_empty r.nonce ≡ false
    pub form : is_verifier verifier ≡ true
    pub challenge : r.code_challenge ≡ some (challenge_of lib verifier)
    pub method : r.code_challenge_method ≡ some s256

  challenge_of-is_challenge :
      (verifier : Text)
      → IsDigest (lib.sha256 verifier)
      → is_challenge (challenge_of lib verifier) ≡ true
  unfolding is_challenge challenge_of
  challenge_of-is_challenge verifier (size, bytes) =
      ground (arith, encode_digest-is_url_safe 10 (lib.sha256 verifier) (omega (arith, size)) bytes)

  redirect_error-none :
      (idp : Idp) (verifier : Text) (pieces : List Piece) (r : Request)
      → IsDigest (lib.sha256 verifier)
      → IsCodeRequest idp verifier pieces r
      → redirect_error lib idp r ≡ none
  unfolding redirect_error check_pkce
  redirect_error-none idp verifier pieces r digest q = rw q.response_type (
      rw q.scope (
        rw q.challenge (
          rw q.method (
            ground (
              arith,
              q.nonce,
              challenge_of-is_challenge verifier digest,
              text_eq_refl s256,
              text_eq_refl code_type,
            )))))

  authorize-login :
      (now uuid code : ℕ) (idp : Idp) (verifier : Text) (pieces : List Piece) (r : Request)
      (rows : List AuthInfo)
      → IsDigest (lib.sha256 verifier)
      → IsCodeRequest idp verifier pieces r
      → authorize lib now uuid code idp r rows
        ≡ ok (login uuid idp.iam_client idp.uuid, new_info lib now uuid code idp r ∷ rows)
  unfolding authorize
  authorize-login now uuid code idp verifier pieces r rows digest q = ground (
    arith,
    ap or_empty q.client_id,
    q.client_id_given,
    text_eq_refl idp.client_id,
    q.redirect_uri_given,
    q.callback,
    redirect_error-none idp verifier pieces r digest q,
  )

  confirm-ok :
      (db : Tables) (now uuid refresh_uuid : ℕ) (current : Token) (info : AuthInfo)
      → is_empty info.nonce ≡ false
      → confirm db now uuid refresh_uuid current info
        ≡ ok (record info { token = some (confirm_token db now uuid refresh_uuid current info) })
  unfolding confirm
  confirm-ok db now uuid refresh_uuid current info given = ground (arith, given)

  challenge-filled : (c : Text) → is_challenge c ≡ true → is_empty c ≡ false
  unfolding is_challenge
  challenge-filled [] h = absurd (cc h)
  challenge-filled (x ∷ c) h = refl

  -- The row of the request, once it is confirmed with a token.
  check_grant-confirmed :
      (now later uuid code : ℕ) (idp : Idp) (verifier : Text) (pieces : List Piece) (r : Request)
      (token : Token)
      → IsDigest (lib.sha256 verifier)
      → IsCodeRequest idp verifier pieces r
      → later < now + code_lifetime
      → check_grant lib idp.iam_client later
          (or_empty r.redirect_uri)
          (text verifier)
          (record (new_info lib now uuid code idp r) { token = some token })
        ≡ true
  unfolding check_grant check_challenged new_info
  check_grant-confirmed now later uuid code idp verifier pieces r token digest q early = ground (
    arith,
    early,
    q.form,
    ap or_empty q.challenge,
    ap or_empty q.method,
    text_eq_refl s256,
    text_eq_refl (or_empty r.redirect_uri),
    text_eq_refl (challenge_of lib verifier),
    challenge-filled (challenge_of lib verifier) (challenge_of-is_challenge verifier digest),
  )

  exchange_first :
      (client now : ℕ) (redirect_uri : Text) (v : Verifier) (info : AuthInfo) (rows : List AuthInfo)
      → IsFresh info.uuid info.code rows
      → check_grant lib client now redirect_uri v info ≡ true
      → get_token_by_authorization_code lib client now info.code redirect_uri v (info ∷ rows)
        ≡ ok (info.token, rows)
  unfolding get_token_by_authorization_code filter exchange_from
  exchange_first client now redirect_uri v info rows (uuids, codes) granted =
      let kept : delete_info info.uuid rows ≡ rows =
        keep_every (λ (i : AuthInfo). not (i.uuid == info.uuid)) rows
          (All-map (λ i e. ap not e) rows uuids) in
      ground (arith, kept, granted)

  exchange_gone :
      (client now code : ℕ) (redirect_uri : Text) (v : Verifier) (rows : List AuthInfo)
      → All (λ (i : AuthInfo). (i.code == code) ≡ false) rows
      → get_token_by_authorization_code lib client now code redirect_uri v rows
        ≡ err credentials_are_invalid
  unfolding get_token_by_authorization_code exchange_from
  exchange_gone client now code redirect_uri v rows codes =
      rw (keep_nothing (λ (i : AuthInfo). i.code == code) rows codes) refl

  -- With a hash of 32 bytes and a fresh uuid and code, a client that makes a request that the provider
  -- accepts, with the challenge of a verifier, gets a row; once that is confirmed, the code and the verifier
  -- are exchanged within ten minutes for the token of the row. The row is gone behind it, and nobody
  -- exchanges the code again.
  pub code_flow :
      (db : Tables) (now confirmed_at later again uuid code token_uuid refresh_uuid : ℕ) (idp : Idp)
      (verifier : Text) (pieces : List Piece) (r : Request) (current : Token) (rows : List AuthInfo)
      (client : ℕ) (address : Text) (v : Verifier)
      → IsDigest (lib.sha256 verifier)
      → IsCodeRequest idp verifier pieces r
      → IsFresh uuid code rows
      → later < now + code_lifetime
      → (info confirmed : AuthInfo) × (authorize lib now uuid code idp r rows
          ≡ ok (login uuid idp.iam_client idp.uuid, info ∷ rows))
        × (confirm db confirmed_at token_uuid refresh_uuid current info ≡ ok confirmed)
        × (get_token_by_authorization_code lib idp.iam_client later code
              (or_empty r.redirect_uri)
              (text verifier)
              (confirmed ∷ rows)
            ≡ ok (confirmed.token, rows))
        × (confirmed.token
            ≡ some (confirm_token db confirmed_at token_uuid refresh_uuid current info))
        × (get_token_by_authorization_code lib client again code address v rows
            ≡ err credentials_are_invalid)
  unfolding new_info
  code_flow db now confirmed_at later again uuid code token_uuid refresh_uuid idp verifier pieces r
        current rows client address v digest q fresh early =
      let info : AuthInfo = new_info lib now uuid code idp r in
      let token : Token = confirm_token db confirmed_at token_uuid refresh_uuid current info in
      (
        info,
        record info { token = some token },
        authorize-login now uuid code idp verifier pieces r rows digest q,
        confirm-ok db confirmed_at token_uuid refresh_uuid current info q.nonce,
        exchange_first idp.iam_client later (or_empty r.redirect_uri) (text verifier)
            (record info { token = some token }) rows fresh
            (check_grant-confirmed now later uuid code idp verifier pieces r token digest q early),
        refl,
        exchange_gone client again code address v rows fresh.1,
      )
