-- ===== src/Accounts/Codes/Once.antt =====
-- One code for one login: a request of auth/auth.service.ts and the attempts that follow it.
use novax_backend.Common.{
  ℕ, ◌+◌, ◌≡◌, refl, ◌⊎◌, inl, inr, Bool, true, false, not, ◌&&◌, Bool-cases, some, none, [], ◌∷◌,
  arith, ltb,
}
use novax_backend.Common.Action.{ok, err, unauthorized}
use novax_backend.Common.Table.{Table, find_first, update, update_many, create}
use novax_backend.Common.Text.{Text, text_eq}
use novax_backend.Schema.Rows.{User, OtpCode}
use novax_backend.Schema.Db.{Db}
use novax_backend.Accounts.Sessions.{Bcrypt, Jwt, Draws, tokens_for, issue_tokens}
use novax_backend.Accounts.Codes.{
  OtpRequest, otp_ttl_ms, is_unconsumed, consumed_row, new_code, recoded, request_otp, verify_otp,
}

none_left :
    (user : ℕ) (rows : Table OtpCode)
    → find_first (is_unconsumed user) (update_many (is_unconsumed user) consumed_row rows) ≡ none
unfolding find_first update_many
none_left user [] = refl
none_left user ((i, c) ∷ rows) = ground (arith, none_left user rows)

module _ (bcrypt : Bcrypt) (user : ℕ) (code : Text) (draws : Draws) (rows : Table OtpCode) where
  newest :
      find_first (is_unconsumed user) (recoded bcrypt user code draws rows)
      ≡ some (draws.row, new_code bcrypt user code draws)
  unfolding find_first create
  newest = ground arith

  all_consumed :
      find_first
        (is_unconsumed user)
        (update draws.row consumed_row (recoded bcrypt user code draws rows))
      ≡ none
  unfolding find_first create update
  all_consumed = ground (arith, none_left user rows)

-- The one code that is good after a request, and when.
abbrev pub accepts : Bcrypt → (code attempt : Text) (draws draws' : Draws) → Bool
accepts bcrypt code attempt draws draws' =
    not (ltb (draws.now + otp_ttl_ms) draws'.now)
    && bcrypt.compare attempt (bcrypt.hash draws.salt code)

module _ (bcrypt : Bcrypt) (jwt : Jwt) (dto : OtpRequest) (code : Text) (draws : Draws) (db : Db)
    (user : ℕ) (u : User)
    (account : find_first (λ _ (v : User). text_eq v.phone dto.phone) db.users
      ≡ some (user, u)) where
  abbrev requested : Db
  requested = record db { otp_codes = recoded bcrypt user code draws db.otp_codes }

  request_otp_lem :
      (new_user : ℕ) → request_otp bcrypt dto new_user code draws db ≡ (ok tt, requested)
  unfolding request_otp
  request_otp_lem new_user = rw account refl

  verify_newest :
      (attempt : Text) (draws' : Draws)
      → accepts bcrypt code attempt draws draws' ≡ true
      → verify_otp bcrypt jwt dto.phone attempt draws' requested
        ≡ issue_tokens bcrypt jwt user u.role draws'
            (record requested { otp_codes = update draws.row consumed_row requested.otp_codes })
  unfolding verify_otp
  verify_newest attempt draws' good =
      let n = newest bcrypt user code draws db.otp_codes in
      let in_time : ltb (draws.now + otp_ttl_ms) draws'.now ≡ false = ground arith in
      let same : bcrypt.compare attempt (bcrypt.hash draws.salt code) ≡ true = ground arith in
      rw (account, n, in_time, same) refl

  verify_refused :
      (attempt : Text) (draws' : Draws)
      → accepts bcrypt code attempt draws draws' ≡ false
      → verify_otp bcrypt jwt dto.phone attempt draws' requested ≡ (err unauthorized, requested)
  unfolding verify_otp
  verify_refused attempt draws' bad =
      let n = newest bcrypt user code draws db.otp_codes in ground (arith, account, n)

  verify_again :
      (attempt again : Text) (draws' draws'' : Draws)
      → let db' =
          (issue_tokens bcrypt jwt user u.role draws' (record requested {
            otp_codes = update draws.row consumed_row requested.otp_codes;
          })).1 in
        verify_otp bcrypt jwt dto.phone again draws'' db' ≡ (err unauthorized, db')
  unfolding verify_otp issue_tokens
  verify_again attempt again draws' draws'' =
      rw (account, all_consumed bcrypt user code draws db.otp_codes) refl

-- After a code is requested for the number of an account, whatever codes were requested before, an
-- attempt to log in goes through exactly when it compares equal to that code and is made within
-- five minutes; it then answers with the account's tokens in its role, and no further attempt with
-- any code goes through or changes anything. An attempt that does not go through changes nothing.
pub otp_single_use :
    (bcrypt : Bcrypt) (jwt : Jwt) (dto : OtpRequest) (new_user : ℕ) (code attempt again : Text)
    (draws draws' draws'' : Draws) (db : Db) (user : ℕ) (u : User)
    → find_first (λ _ (v : User). text_eq v.phone dto.phone) db.users ≡ some (user, u)
    → let db1 = (request_otp bcrypt dto new_user code draws db).1 in
      let (answer, db2) = verify_otp bcrypt jwt dto.phone attempt draws' db1 in
      (accepts bcrypt code attempt draws draws' ≡ true)
        × (answer ≡ ok (tokens_for bcrypt jwt user u.role draws'))
        × (verify_otp bcrypt jwt dto.phone again draws'' db2 ≡ (err unauthorized, db2))
      ⊎ (accepts bcrypt code attempt draws draws' ≡ false)
        × (answer ≡ err unauthorized)
        × (db2 ≡ db1)
otp_single_use bcrypt jwt dto new_user code attempt again draws draws' draws'' db user u account =
    rw (request_otp_lem bcrypt jwt dto code draws db user u account new_user)
      (elim (Bool-cases (accepts bcrypt code attempt draws draws')) [
        | inl good ↦
            let now =
              verify_newest bcrypt jwt dto code draws db user u account attempt draws' good in
            let later =
              verify_again bcrypt jwt dto code draws db user u account attempt again draws'
                draws'' in
            rw now (inl (good, unfold issue_tokens in refl, later))
        | inr bad ↦
            let now =
              verify_refused bcrypt jwt dto code draws db user u account attempt draws' bad in
            rw now (inr (bad, refl, refl))
      ])
