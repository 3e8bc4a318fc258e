-- ===== src/Accounts/Phone/Spellings.antt =====
-- The spellings of one mobile number, and numbers that are normal already.
use novax_backend.Common.{
  ℕ, ◌≡◌, refl, ap, ◌∙◌, ◌⊎◌, inl, inr, Bool, true, false, not, Bool-cases, [], ◌∷◌, arith, length,
  ◌==◌, if◌then◌else◌,
}
use novax_backend.Common.Text.{
  Text, is_digit, is_space, digits_of, starts_with, trim, trim_start, trim_end, unless_last_space,
}
use novax_backend.Accounts.Phone.{after_first, country, normalise_phone}

digits-digits : (s : Text) → digits_of (digits_of s) ≡ digits_of s
digits-digits [] = refl
digits-digits (c ∷ s) = elim (Bool-cases (is_digit c)) [
  | inl e ↦ rw (e, e) (ap (λ (t : Text). c ∷ t) (digits-digits s))
  | inr e ↦ rw e (digits-digits s)
]

space-digit : (c : ℕ) → is_space c ≡ true → is_digit c ≡ false
unfolding is_space is_digit
space-digit c h = ground arith

digits-trim_start : (s : Text) → digits_of (trim_start s) ≡ digits_of s
unfolding trim_start
digits-trim_start [] = refl
digits-trim_start (c ∷ s) = elim (Bool-cases (is_space c)) [
  | inl e ↦ rw (e, space-digit c e) (digits-trim_start s)
  | inr e ↦ rw e refl
]

digits-unless : (c : ℕ) (s : Text) → digits_of (unless_last_space c s) ≡ digits_of (c ∷ s)
digits-unless c [] = elim (Bool-cases (is_space c)) [
  | inl e ↦ rw (e, space-digit c e) refl
  | inr e ↦ rw e refl
]
digits-unless c (d ∷ s) = refl

digits-trim_end : (s : Text) → digits_of (trim_end s) ≡ digits_of s
unfolding trim_end
digits-trim_end [] = refl
digits-trim_end (c ∷ s) =
    digits-unless c (trim_end s)
    ∙ ap (λ (t : Text). if is_digit c then c ∷ t else t) (digits-trim_end s)

digits-trim : (s : Text) → digits_of (trim s) ≡ digits_of s
unfolding trim
digits-trim s = digits-trim_end (trim_start s) ∙ digits-trim_start s

-- A text whose first character, if any, is no space.
starts_dense : Text → Bool
starts_dense [] = true
starts_dense (c ∷ _) = not (is_space c)

trim_start-dense : (s : Text) → starts_dense (trim_start s) ≡ true
unfolding trim_start starts_dense
trim_start-dense [] = refl
trim_start-dense (c ∷ s) = elim (Bool-cases (is_space c)) [
  | inl e ↦ rw e (trim_start-dense s)
  | inr e ↦ rw (e, e) refl
]

dense-trim_start : (s : Text) → starts_dense s ≡ true → trim_start s ≡ s
unfolding trim_start starts_dense
dense-trim_start [] h = refl
dense-trim_start (c ∷ s) h = ground arith

unless-dense : (c : ℕ) (s : Text) → is_space c ≡ false → starts_dense (unless_last_space c s) ≡ true
unfolding starts_dense
unless-dense c [] e = rw (e, e) refl
unless-dense c (d ∷ s) e = rw e refl

trim_end-dense : (s : Text) → starts_dense s ≡ true → starts_dense (trim_end s) ≡ true
unfolding trim_end
trim_end-dense [] h = h
trim_end-dense (c ∷ s) h = unless-dense c (trim_end s) (unfold starts_dense in ground arith)

unless-unless :
    (c : ℕ) (s : Text) → trim_end s ≡ s → trim_end (unless_last_space c s) ≡ unless_last_space c s
unfolding trim_end
unless-unless c [] h = elim (Bool-cases (is_space c)) [ inl e ↦ rw e refl | inr e ↦ rw (e, e) refl ]
unless-unless c (d ∷ s) h = rw h refl

trim_end-trim_end : (s : Text) → trim_end (trim_end s) ≡ trim_end s
unfolding trim_end
trim_end-trim_end [] = refl
trim_end-trim_end (c ∷ s) = unless-unless c (trim_end s) (trim_end-trim_end s)

trim-trim : (s : Text) → trim (trim s) ≡ trim s
unfolding trim
trim-trim s =
    let dense = trim_end-dense (trim_start s) (trim_start-dense s) in
    rw (dense-trim_start (trim_end (trim_start s)) dense) (trim_end-trim_end (trim_start s))

abbrev pub nine_two : Text
nine_two = b'9' ∷ b'2' ∷ []

normal-trim :
    (s : Text)
    → starts_with nine_two (digits_of s) ≡ false
    → starts_with (b'0' ∷ []) (digits_of s) ≡ false
    → (length (digits_of s) == 10) ≡ false
    → normalise_phone s ≡ trim s
unfolding normalise_phone
normal-trim s a b c = rw (a, b, c) refl

-- Behind the country's code only the digits count.
normal-country : (s : Text) → digits_of s ≡ s → normalise_phone (country s) ≡ country s
unfolding normalise_phone is_digit starts_with
normal-country s e = rw e refl

-- The rest of a text of digits is one too.
digits-tail : (c : ℕ) (s : Text) → is_digit c ≡ true → digits_of (c ∷ s) ≡ c ∷ s → digits_of s ≡ s
digits-tail c s e h = ap after_first (rw e at h)

starts_with-nine_two :
    (s : Text) → starts_with nine_two s ≡ true → (t : Text) × (s ≡ b'9' ∷ b'2' ∷ t)
unfolding starts_with
starts_with-nine_two [] h = cc
starts_with-nine_two (c ∷ []) h = ground arith
starts_with-nine_two (c ∷ d ∷ t) h = (t, ground arith)

starts_with_zero : (s : Text) → starts_with (b'0' ∷ []) s ≡ true → (t : Text) × (s ≡ b'0' ∷ t)
unfolding starts_with
starts_with_zero [] h = cc
starts_with_zero (c ∷ t) h = (t, ground arith)

digits_code : (is_digit b'9' ≡ true) × (is_digit b'2' ≡ true) × (is_digit b'0' ≡ true)
unfolding is_digit
digits_code = (refl, refl, refl)

-- The four branches of `normalisePhone`.
abbrev IsNormalised : Text → Type 0
IsNormalised s =
    ((t : Text) × (digits_of t ≡ t) × (normalise_phone s ≡ country t))
    ⊎ ((normalise_phone (trim s) ≡ trim (trim s)) × (normalise_phone s ≡ trim s))

normalise_phone-cases : (s : Text) → IsNormalised s
normalise_phone-cases s =
    let d = digits_of s in
    let all_digits : digits_of (digits_of s) ≡ digits_of s = digits-digits s in
    elim (Bool-cases (starts_with nine_two (digits_of s))) [
      | inl a ↦
          let (t, e) = starts_with-nine_two (digits_of s) a in
          inl (
            t,
            digits-tail b'2' t digits_code.1
                (digits-tail b'9' (b'2' ∷ t) digits_code.0 (rw e at all_digits)),
            unfold normalise_phone in rw a (ap (λ (u : Text). b'+' ∷ u) e),
          )
      | inr a ↦ elim (Bool-cases (starts_with (b'0' ∷ []) (digits_of s))) [
        | inl b ↦
            let (t, e) = starts_with_zero (digits_of s) b in
            inl (
              t,
              digits-tail b'0' t digits_code.2 (rw e at all_digits),
              unfold normalise_phone in rw (a, b) (ap (λ (u : Text). country (after_first u)) e),
            )
        | inr b ↦ elim (Bool-cases (length (digits_of s) == 10)) [
          | inl c ↦ inl (digits_of s, all_digits, unfold normalise_phone in rw (a, b, c) refl)
          | inr c ↦ inr (
            normal-trim (trim s) (rw (digits-trim s) a) (rw (digits-trim s) b)
                (rw (digits-trim s) c),
            normal-trim s a b c,
          )
        ]
      ]
    ]

-- What any text becomes is not changed by a second normalisation.
pub normalise_phone_idem :
    (input : Text) → normalise_phone (normalise_phone input) ≡ normalise_phone input
normalise_phone_idem s = elim (normalise_phone-cases s) [
  | inl (t, digits, e) ↦ rw e (normal-country t digits)
  | inr (again, e) ↦ rw e (again ∙ trim-trim s)
]

-- Let the number be ten digits that begin with neither 0 nor 92. Every text with those digits
-- becomes the one spelling `+92` and the number, with or without the leading 0 or the country's
-- code, and whatever stands between the digits.
pub normalise_phone_spellings :
    (number input : Text)
    → length number ≡ 10
    → starts_with nine_two number ≡ false
    → starts_with (b'0' ∷ []) number ≡ false
    → (digits_of input ≡ number)
      ⊎ (digits_of input ≡ b'0' ∷ number)
      ⊎ (digits_of input ≡ b'9' ∷ b'2' ∷ number)
    → normalise_phone input ≡ country number
unfolding normalise_phone
normalise_phone_spellings n s ten a b (inl e) = rw (e, a, b, ten) refl
normalise_phone_spellings n s ten a b (inr (inl e)) = unfold starts_with in rw e refl
normalise_phone_spellings n s ten a b (inr (inr e)) = unfold starts_with in rw e refl
