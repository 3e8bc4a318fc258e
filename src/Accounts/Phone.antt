-- ===== src/Accounts/Phone.antt =====
-- `normalisePhone` of auth/auth.service.ts.
pub mod Spellings
use novax_backend.Common.{[], ◌∷◌, length, ◌==◌, if◌then◌else◌}
use novax_backend.Common.Text.{Text, digits_of, starts_with, trim}

-- `digits.slice(1)`
abbrev pub after_first : Text → Text
after_first [] = []
after_first (_ ∷ s) = s

-- `+92`
abbrev pub country : Text → Text
country s = b'+' ∷ b'9' ∷ b'2' ∷ s

unfoldable pub normalise_phone : Text → Text
normalise_phone input =
    let digits = digits_of input in
    if starts_with (b'9' ∷ b'2' ∷ []) digits
    then b'+' ∷ digits
    else if starts_with (b'0' ∷ []) digits
    then country (after_first digits)
    else if length digits == 10
    then country digits
    else trim input
