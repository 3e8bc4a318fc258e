-- ===== src/Accounts/Codes.antt =====
-- `requestOtp` and `verifyOtp` of auth/auth.service.ts.
--
-- The code is an argument, as is the new account's identifier. Sending the text message and the
-- notice to a referrer come last in the source and change no table.
pub mod Once
use novax_backend.Common.{
  ℕ, ◌+◌, ◌*◌, Bool, true, false, not, ◌&&◌, ◌==◌, Option, none, some, List, [], ◌∷◌, ltb, or_else,
  if◌then◌else◌,
}
use novax_backend.Common.Action.{
  Action, Result, ok, err, unauthorized, pure, gets, or_raise, raise_if, modify, ◌>>=◌, ◌>>◌,
}
use novax_backend.Common.Table.{Table, find_first, create, update, update_many}
use novax_backend.Common.Text.{Text, text_eq}
use novax_backend.Schema.Enums.{Role, KycStatus}
use novax_backend.Schema.Rows.{User, OtpCode}
use novax_backend.Schema.Db.{Db}
use novax_backend.Loyalty.{apply_referral}
use novax_backend.Accounts.Sessions.{Bcrypt, Jwt, Draws, Tokens, issue_tokens}

-- `OTP_TTL_MINUTES`
abbrev pub otp_ttl_ms : ℕ
otp_ttl_ms = 5 * 60_000

pub record OtpRequest : Type 0 where
  pub phone : Text
  pub referral_code : Option Text
  pub role : Option Role

-- A row with the schema's defaults.
abbrev pub default_user : Text → User
default_user phone = record {
  phone = phone;
  name = none;
  last_name = none;
  email = none;
  password_hash = none;
  address = none;
  role = Role.rider;
  kyc_status = KycStatus.pending;
  is_active = true;
  is_test_account = false;
  rating = 500;
  loyalty_points = 0;
  referral_code = none;
  referred_by_id = none;
}

-- `isNewUser && referralCode`; an empty code is none
unfoldable pub refer : (user : ℕ) → Option Text → Action Db (Unit {0})
refer user none = pure tt
refer user (some []) = pure tt
refer user (some (c ∷ code)) = apply_referral user (c ∷ code)

-- The account of the number, made if there is none.
unfoldable pub ensure_user : OtpRequest → (new_user : ℕ) → Option (ℕ × User) → Action Db ℕ
unfolding refer
ensure_user dto new_user (some (user, _)) = pure user
ensure_user dto new_user none = do
  modify (λ db. record db {
    users =
        create new_user (record (default_user dto.phone) { role = or_else dto.role Role.rider })
          db.users;
  })
  refer new_user dto.referral_code
  pure new_user

-- `{ userId, consumed: false }`
abbrev pub is_unconsumed : (user row : ℕ) → OtpCode → Bool
is_unconsumed user _ c = c.user_id == user && not c.consumed

abbrev pub consumed_row : OtpCode → OtpCode
consumed_row c = record c { consumed = true }

module _ (bcrypt : Bcrypt) where
  abbrev pub new_code : (user : ℕ) → Text → Draws → OtpCode
  new_code user code draws = record {
    user_id = user;
    code_hash = bcrypt.hash draws.salt code;
    expires_at = draws.now + otp_ttl_ms;
    consumed = false;
  }

  -- A later row stands before an earlier one.
  abbrev pub recoded : (user : ℕ) → Text → Draws → Table OtpCode → Table OtpCode
  recoded user code draws rows =
      create draws.row (new_code user code draws)
        (update_many (is_unconsumed user) consumed_row rows)

  unfoldable pub request_otp :
      OtpRequest → (new_user : ℕ) (code : Text) → Draws → Action Db (Unit {0})
  unfolding ensure_user
  request_otp dto new_user code draws = do
    existing ← gets (λ db. find_first (λ _ u. text_eq u.phone dto.phone) db.users)
    user ← ensure_user dto new_user existing
    modify (λ db. record db { otp_codes = recoded user code draws db.otp_codes })

  module _ (jwt : Jwt) where
    unfoldable pub verify_otp : (phone code : Text) → Draws → Action Db Tokens
    unfolding issue_tokens
    verify_otp phone code draws = do
      found ← gets (λ db. find_first (λ _ u. text_eq u.phone phone) db.users)
      account ← or_raise found unauthorized
      newest ← gets (λ db. find_first (is_unconsumed account.0) db.otp_codes)
      latest ← or_raise newest unauthorized
      raise_if (ltb latest.1.expires_at draws.now) unauthorized
      raise_if (not (bcrypt.compare code latest.1.code_hash)) unauthorized
      modify (λ db. record db { otp_codes = update latest.0 consumed_row db.otp_codes })
      issue_tokens bcrypt jwt account.0 account.1.role draws
