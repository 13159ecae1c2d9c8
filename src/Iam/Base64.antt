-- ===== src/Iam/Base64.antt =====
-- `base64.urlsafe_b64encode(...).rstrip(b"=")`, as exordos_core/user_api/iam/dm/models.py calls it on
-- the digest of a code verifier.
use exordos_core.Base.{
  ℕ, ◌+◌, ◌-◌, ◌*◌, ◌/◌, ◌%◌, ◌<◌, ◌≡◌, ◌==◌, ltb, true, ◌&&◌, List, [], ◌∷◌, length, is_empty, All,
  arith, if◌then◌else◌,
}
use exordos_core.Base.Texts.{Text, all_chars, is_url_safe}

unfoldable pub b64_char : (sextet : ℕ) → ℕ
b64_char sextet =
    if ltb sextet 26
    then sextet + 65
    else if ltb sextet 52
    then sextet + 71
    else if ltb sextet 62
    then sextet - 4
    else if sextet == 62
    then 45
    else 95

-- The padding is the character 61.
unfoldable pub urlsafe_b64encode : List ℕ → Text
urlsafe_b64encode [] = []
urlsafe_b64encode (a ∷ []) = b64_char (a / 4) ∷ b64_char (a % 4 * 16) ∷ 61 ∷ 61 ∷ []
urlsafe_b64encode (a ∷ b ∷ []) =
    b64_char (a / 4) ∷ b64_char (a % 4 * 16 + b / 16) ∷ b64_char (b % 16 * 4) ∷ 61 ∷ []
urlsafe_b64encode (a ∷ b ∷ c ∷ bytes) =
    b64_char (a / 4)
    ∷ b64_char (a % 4 * 16 + b / 16)
    ∷ b64_char (b % 16 * 4 + c / 64)
    ∷ b64_char (c % 64)
    ∷ urlsafe_b64encode bytes

unfoldable pub rstrip : (pad : ℕ) → Text → Text
rstrip pad [] = []
rstrip pad (c ∷ s) = let rest = rstrip pad s in if is_empty rest && c == pad then [] else c ∷ rest

unfoldable pub encode_digest : List ℕ → Text
encode_digest digest = rstrip 61 (urlsafe_b64encode digest)

b64_char-is_url_safe : (sextet : ℕ) → sextet < 64 → is_url_safe (b64_char sextet) ≡ true
unfolding b64_char is_url_safe
b64_char-is_url_safe sextet small = ground (arith, small)

-- A character that is no padding stays.
rstrip_keeps : (c : ℕ) (s : Text) → is_url_safe c ≡ true → rstrip 61 (c ∷ s) ≡ c ∷ rstrip 61 s
unfolding rstrip is_url_safe
rstrip_keeps c s safe = ground (arith, safe)

abbrev pub IsByte : ℕ → Type 0
IsByte b = b < 256

-- The bytes come in `triples` groups of three and two more.
pub encode_digest-is_url_safe :
    (triples : ℕ) (digest : List ℕ)
    → length digest ≡ triples * 3 + 2
    → All IsByte digest
    → (length (encode_digest digest) ≡ triples * 4 + 3)
      × (all_chars is_url_safe (encode_digest digest) ≡ true)
unfolding encode_digest urlsafe_b64encode all_chars rstrip
encode_digest-is_url_safe triples [] size bytes = absurd (omega (arith, size))
encode_digest-is_url_safe triples (a ∷ []) size bytes = absurd (omega (arith, size))
encode_digest-is_url_safe triples (a ∷ b ∷ []) size (ha, (hb, done)) =
    let one = b64_char-is_url_safe (a / 4) (omega (arith, ha)) in
    let two = b64_char-is_url_safe (a % 4 * 16 + b / 16) (omega (arith, hb)) in
    let three = b64_char-is_url_safe (b % 16 * 4) (omega arith) in
    rw (rstrip_keeps _ (b64_char (a % 4 * 16 + b / 16) ∷ b64_char (b % 16 * 4) ∷ 61 ∷ []) one) (
      rw (rstrip_keeps _ (b64_char (b % 16 * 4) ∷ 61 ∷ []) two) (
        rw (rstrip_keeps _ (61 ∷ []) three) (omega (arith, size), ground (arith, one, two, three))))
encode_digest-is_url_safe triples (a ∷ b ∷ c ∷ digest) size (ha, (hb, (hc, bytes))) =
    let one = b64_char-is_url_safe (a / 4) (omega (arith, ha)) in
    let two = b64_char-is_url_safe (a % 4 * 16 + b / 16) (omega (arith, hb)) in
    let three = b64_char-is_url_safe (b % 16 * 4 + c / 64) (omega (arith, hc)) in
    let four = b64_char-is_url_safe (c % 64) (omega arith) in
    let rest = urlsafe_b64encode digest in
    let (size', safe') =
      encode_digest-is_url_safe (triples - 1) digest (omega (arith, size)) bytes in
    rw
      (rstrip_keeps _
        (b64_char (a % 4 * 16 + b / 16) ∷ b64_char (b % 16 * 4 + c / 64) ∷ b64_char (c % 64) ∷ rest)
        one)
      (rw (rstrip_keeps _ (b64_char (b % 16 * 4 + c / 64) ∷ b64_char (c % 64) ∷ rest) two) (
        rw (rstrip_keeps _ (b64_char (c % 64) ∷ rest) three) (
          rw (rstrip_keeps _ rest four)
            (omega (arith, size, size'), ground (arith, one, two, three, four, safe')))))
