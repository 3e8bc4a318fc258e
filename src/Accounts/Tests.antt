-- ===== src/Accounts/Tests.antt =====
-- Accounts and sessions at concrete inputs.
use novax_backend.Common.{
  ℕ, zero, suc, ◌≡◌, ◌≢◌, refl, ◌⊎◌, true, false, some, none, [], ◌∷◌, ◌++◌, arith, take,
}
use novax_backend.Common.Action.{ok, err, unauthorized}
use novax_backend.Common.Table.{find, find_first, find_many}
use novax_backend.Common.Text.{
  Text, codes, text_eq, text_eq_refl, is_digit, starts_with, trim, to_lower, is_space,
}
use novax_backend.Schema.Enums.{Role}
use novax_backend.Schema.Rows.{User}
use novax_backend.Schema.Db.{Db}
use novax_backend.Fixtures.{rider, driver, ride, state}
use novax_backend.Accounts.Phone.{normalise_phone}
use novax_backend.Accounts.Sessions.{
  Bcrypt, Jwt, Draws, is_live, recognises, tokens_for, new_refresh_token, issue_tokens, refresh,
}
use novax_backend.Accounts.Sessions.Rotation.{refresh_answers}
use novax_backend.Accounts.Sessions.Replay.{refresh_replays}
use novax_backend.Accounts.Codes.{OtpRequest, request_otp, verify_otp}
use novax_backend.Accounts.Codes.Once.{accepts, otp_single_use}
use novax_backend.Accounts.Signup.{Register, register, login}
use novax_backend.Accounts.Signup.Answers.{IsRegistered, register_answers}
use novax_backend.Accounts.Signup.Entry.{register_then_login}
use novax_backend.Accounts.Revocation.{validate, set_user_active, delete_own_account}
use novax_backend.Accounts.Revocation.Suspended.{suspended_is_out}
use novax_backend.Accounts.Revocation.Deleted.{
  IsAnonymous, IsProfileErased, SameBooks, deletion_keeps_books,
}

-- A hash that is the text itself behind the salt, as far as bcrypt reads it.
abbrev short_hash : Bcrypt
short_hash = record {
  hash = λ salt p. salt ∷ take 72 p;
  compare = λ p h. elim h [ [] ↦ false | _ ∷ q ↦ text_eq (take 72 p) q ];
}

abbrev repeat : ℕ → ℕ → Text
repeat zero c = []
repeat (suc n) c = c ∷ repeat n c

-- A token that is the user, for as long as bcrypt reads, and the time.
abbrev long_token : Jwt
long_token = record {
  sign_refresh = λ user now. repeat 72 user ++ now ∷ [];
  verify = λ token now. elim token [ [] ↦ none | user ∷ _ ↦ some user ];
}

abbrev first : Draws
first = record { row = 70; salt = 7; now = 1_000_000 }

abbrev second : Draws
second = record { row = 71; salt = 8; now = 1_100_000 }

abbrev third : Draws
third = record { row = 72; salt = 9; now = 1_200_000 }

abbrev db : Db
db = state ride

refresh_replays_example :
    let (_, db1) = issue_tokens short_hash long_token 1 Role.rider first db in
    let (answer, db2) = refresh short_hash long_token (long_token.sign_refresh 1 5) third db1 in
    (find_many (is_live 1) db1.refresh_tokens
      ≡ (70, new_refresh_token short_hash long_token 1 first) ∷ [])
    × (answer ≡ ok (tokens_for short_hash long_token 1 Role.rider third))
    × (find_many (is_live 1) db2.refresh_tokens
        ≡ (72, new_refresh_token short_hash long_token 1 third) ∷ [])
unfolding find
refresh_replays_example =
    refresh_replays short_hash long_token (λ salt p q. refl) (λ user i j. refl) 1 5 first third db
      rider refl refl (omega arith)

-- The session in force, presented again.
abbrev in_session : Db
in_session = (issue_tokens short_hash long_token 1 Role.rider first db).1

refresh_answers_example :
    let token = long_token.sign_refresh 1 5 in
    let (answer, db') = refresh short_hash long_token token third in_session in
    let found =
      find_first (recognises short_hash long_token token 1 third.now) in_session.refresh_tokens in
    (found ≡ none) × (answer ≡ err unauthorized) × (db' ≡ in_session)
    ⊎ (found ≢ none)
      × (answer ≡ ok (tokens_for short_hash long_token 1 Role.rider third))
      × (find_many (is_live 1) db'.refresh_tokens
          ≡ (72, new_refresh_token short_hash long_token 1 third) ∷ [])
      × (db'.users ≡ in_session.users)
unfolding find issue_tokens
refresh_answers_example =
    refresh_answers short_hash long_token (long_token.sign_refresh 1 5) third in_session 1 rider
      refl refl

abbrev otp_request : OtpRequest
otp_request = record { phone = rider.phone; referral_code = none; role = none }

otp_single_use_example :
    let db1 = (request_otp short_hash otp_request 9 (codes "123456") first db).1 in
    let (answer, db2) = verify_otp short_hash long_token rider.phone (codes "123456") second db1 in
    (accepts short_hash (codes "123456") (codes "123456") first second ≡ true)
      × (answer ≡ ok (tokens_for short_hash long_token 1 Role.rider second))
      × (verify_otp short_hash long_token rider.phone (codes "123456") third db2
          ≡ (err unauthorized, db2))
    ⊎ (accepts short_hash (codes "123456") (codes "123456") first second ≡ false)
      × (answer ≡ err unauthorized)
      × (db2 ≡ db1)
unfolding find_first text_eq
otp_single_use_example =
    otp_single_use short_hash long_token otp_request 9 (codes "123456") (codes "123456")
      (codes "123456") first second third db 1 rider refl

abbrev registration : Register
registration = record {
  phone = codes "0333 765 4321";
  email = codes " Bilal@Example.com";
  first_name = codes "Bilal";
  last_name = codes "Khan";
  address = none;
  password = codes "correct horse";
  role = Role.driver;
  license_front_url = none;
  license_back_url = none;
}

register_answers_example :
    IsRegistered short_hash long_token registration 9 first db
      (register short_hash long_token registration 9 first db)
register_answers_example = register_answers short_hash long_token registration 9 first db

register_then_login_example :
    (login short_hash long_token
      (codes "+92 333 7654321")
      registration.password
      second
      (register short_hash long_token registration 9 first db).1).0
    ≡ ok (tokens_for short_hash long_token 9 Role.driver second)
unfolding find_first text_eq normalise_phone trim is_space is_digit starts_with to_lower
register_then_login_example =
    register_then_login short_hash long_token (λ salt p. text_eq_refl (take 72 p)) (λ salt p. cc)
      registration (codes "+92 333 7654321") 9 first second db refl refl refl

suspended_is_out_example :
    let (answer, db') = set_user_active false 2_592_000_000 2 false 1_000_000 db in
    (answer ≡ ok tt)
    × (validate false 1_000_500 (record { sub = 2; role = Role.driver }) db'
        ≡ (err unauthorized, db'))
    × (db'.refresh_tokens ≡ db.refresh_tokens)
    × ((validate false 1_000_500 (record { sub = 1; role = Role.driver }) db').0
        ≡ (validate false 1_000_500 (record { sub = 1; role = Role.driver }) db).0)
unfolding find
suspended_is_out_example =
    suspended_is_out false false 2_592_000_000 2 1 1_000_000 1_000_500 Role.driver db driver refl
      (omega arith)

abbrev blocked : Db
blocked = record db {
  users = (2, record driver { is_active = false }) ∷ (1, rider) ∷ [];
  revoked = (2, 2_000_000_000) ∷ [];
}

deletion_keeps_books_example :
    let (answer, db') = delete_own_account false 2_592_000_000 2 1_000_000 db in
    (answer ≡ ok tt)
    × ((u : User) × (find 2 db'.users ≡ some u) × IsAnonymous 2 u)
    × IsProfileErased 2 db db'
    × (validate true 1_200_000 (record { sub = 2; role = Role.driver }) db'
        ≡ (err unauthorized, db'))
    × (refresh short_hash long_token (long_token.sign_refresh 2 5) second db'
        ≡ (err unauthorized, db'))
    × SameBooks db db'
unfolding find
deletion_keeps_books_example =
    deletion_keeps_books short_hash long_token false true 2_592_000_000 2 1_000_000 1_200_000
      Role.driver (long_token.sign_refresh 2 5) second db driver refl refl
