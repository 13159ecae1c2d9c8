-- ===== src/Base/Texts.antt =====
-- Python strings as lists of the numbers of their characters: equality, and tests of all characters.
use Prim.Native.Nat.{ℕ}
use mathlib.Core.Path.{◌≡◌, refl}
use mathlib.Core.Bool.{Bool, true, false, ◌&&◌, ◌||◌}
use mathlib.Core.List.{List, [], ◌∷◌}
use native.Mathlib.Omega.{arith}
use exordos_core.Base.Tests.{◌==◌, leb}

abbrev pub Text : Type 0
Text = List ℕ

unfoldable pub text_eq : Text → Text → Bool
text_eq [] [] = true
text_eq [] (d ∷ t) = false
text_eq (c ∷ s) [] = false
text_eq (c ∷ s) (d ∷ t) = c == d && text_eq s t

pub text_eq_refl : (s : Text) → text_eq s s ≡ true
unfolding text_eq
text_eq_refl [] = refl
text_eq_refl (c ∷ s) = ground (arith, text_eq_refl s)

pub text_eq-≡ : (s t : Text) → text_eq s t ≡ true → s ≡ t
unfolding text_eq
text_eq-≡ [] [] h = refl
text_eq-≡ [] (d ∷ t) h = absurd (cc h)
text_eq-≡ (c ∷ s) [] h = absurd (cc h)
text_eq-≡ (c ∷ s) (d ∷ t) h =
    let first : c ≡ d = ground (arith, h) in
    let others : text_eq s t ≡ true = ground (arith, h) in cc (first, text_eq-≡ s t others)

unfoldable pub all_chars : (ℕ → Bool) → Text → Bool
all_chars p [] = true
all_chars p (c ∷ s) = p c && all_chars p s

-- `[a-z]` for the characters `low` and `high`
abbrev pub between : (low high c : ℕ) → Bool
between low high c = leb low c && leb c high

-- `[A-Za-z0-9_-]`
unfoldable pub is_url_safe : ℕ → Bool
is_url_safe c = between 65 90 c || between 97 122 c || between 48 57 c || c == 95 || c == 45

-- `[A-Za-z0-9._~-]`
unfoldable pub is_unreserved : ℕ → Bool
is_unreserved c = is_url_safe c || c == 46 || c == 126
