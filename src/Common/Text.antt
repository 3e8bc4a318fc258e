-- ===== src/Common/Text.antt =====
-- Texts as the lists of their code units, with the operations of `String.prototype` that the
-- services use.
use Prim.Native.Char.{code}
use Prim.Native.String.{String}
use Prim.Native.Nat.{ℕ, ◌+◌, ◌-◌}
use mathlib.Core.Path.{◌≡◌, refl}
use mathlib.Core.Bool.{Bool, true, false, ◌&&◌, ◌||◌}
use mathlib.Core.Option.{Option, none, some}
use mathlib.Core.List.{List, [], ◌∷◌}
use native.Mathlib.Omega.{arith}
use novax_backend.Common.Tests.{◌==◌, leb, if◌then◌else◌}
use novax_backend.Common.Lists.{keep}

abbrev pub Text : Type 0
Text = List ℕ

-- The code units of a literal in ASCII.
abbrev pub codes : String → Text
codes String.[] = []
codes (String.◌∷◌ c s) = code c ∷ codes s

-- `===` on texts
unfoldable pub text_eq : Text → Text → Bool
text_eq [] [] = true
text_eq [] (_ ∷ _) = false
text_eq (_ ∷ _) [] = false
text_eq (c ∷ s) (d ∷ t) = c == d && text_eq s t

pub text_eq_refl : (s : Text) → text_eq s s ≡ true
unfolding text_eq
text_eq_refl [] = refl
text_eq_refl (c ∷ s) = ground (arith, text_eq_refl s)

pub eq_of_text_eq : (s t : Text) → text_eq s t ≡ true → s ≡ t
unfolding text_eq
eq_of_text_eq [] [] h = refl
eq_of_text_eq [] (_ ∷ _) h = cc
eq_of_text_eq (_ ∷ _) [] h = cc
eq_of_text_eq (c ∷ s) (d ∷ t) h = ground (arith, eq_of_text_eq s t)

-- A nullable column against a text.
abbrev pub is_text : Text → Option Text → Bool
is_text s none = false
is_text s (some t) = text_eq t s

-- `s.startsWith(prefix)`
unfoldable pub starts_with : (prefix s : Text) → Bool
starts_with [] s = true
starts_with (_ ∷ _) [] = false
starts_with (c ∷ p) (d ∷ s) = c == d && starts_with p s

unfoldable pub is_digit : ℕ → Bool
is_digit c = leb b'0' c && leb c b'9'

-- `s.replace(/[^0-9]/g, "")`
abbrev pub digits_of : Text → Text
digits_of = keep is_digit

-- White space and line ends of ECMAScript.
unfoldable pub is_space : ℕ → Bool
is_space c =
    (leb 9 c && leb c 13)
    || c == 32
    || c == 160
    || c == 0x1680
    || (leb 0x2000 c && leb c 0x200a)
    || c == 0x2028
    || c == 0x2029
    || c == 0x202f
    || c == 0x205f
    || c == 0x3000
    || c == 0xfeff

unfoldable pub trim_start : Text → Text
trim_start [] = []
trim_start (c ∷ s) = let rest = trim_start s in if is_space c then rest else c ∷ s

-- A character before the end that is taken away.
abbrev pub unless_last_space : ℕ → Text → Text
unless_last_space c [] = if is_space c then [] else c ∷ []
unless_last_space c (d ∷ s) = c ∷ d ∷ s

unfoldable pub trim_end : Text → Text
trim_end [] = []
trim_end (c ∷ s) = unless_last_space c (trim_end s)

-- `s.trim()`
unfoldable pub trim : Text → Text
unfolding trim_start trim_end
trim s = trim_end (trim_start s)

-- Letters of the Latin alphabet; what `toLowerCase` and `toUpperCase` do to others is left out.
unfoldable pub to_lower : Text → Text
to_lower [] = []
to_lower (c ∷ s) = (if leb b'A' c && leb c b'Z' then c + 32 else c) ∷ to_lower s

unfoldable pub to_upper : Text → Text
to_upper [] = []
to_upper (c ∷ s) = (if leb b'a' c && leb c b'z' then c - 32 else c) ∷ to_upper s
