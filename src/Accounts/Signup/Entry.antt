-- ===== src/Accounts/Signup/Entry.antt =====
-- `login` of auth/auth.service.ts, by itself and after `register`.
use novax_backend.Common.{
  ℕ, ◌≡◌, ◌≢◌, refl, ap, ◌∙◌, ◌⊎◌, inl, inr, Bool, true, false, not, ◌&&◌, Bool-cases, Option-cases,
  List-cases, some, none, arith, [],
}
use novax_backend.Common.Action.{ok, err, unauthorized, Result}
use novax_backend.Common.Table.{find_first, create}
use novax_backend.Common.Text.{Text, text_eq_refl, trim}
use novax_backend.Schema.Rows.{User}
use novax_backend.Schema.Db.{Db}
use novax_backend.Accounts.Signup.Answers.{role_of-cases}
use novax_backend.Accounts.Phone.{normalise_phone}
use novax_backend.Accounts.Sessions.{Bcrypt, Jwt, Draws, Tokens, tokens_for, issue_tokens}
use novax_backend.Accounts.Signup.{
  Register, role_of, lacks_password, is_taken, registered, create_profile, register_over, register,
  is_named, knows_password, log_in_as, login,
}

-- An account that is not suspended and whose password it is.
abbrev pub may_enter : Bcrypt → Text → User → Bool
may_enter bcrypt password u =
    not (lacks_password u) && u.is_active && knows_password bcrypt password u

module _ (bcrypt : Bcrypt) (jwt : Jwt) where
  log_in_as_lem :
      (password : Text) (draws : Draws) (db : Db) (user : ℕ) (u : User)
      → log_in_as bcrypt jwt password draws (some (user, u)) db
        ≡ (elim (may_enter bcrypt password u) [
          | true ↦ issue_tokens bcrypt jwt user u.role draws db
          | false ↦ (err unauthorized, db)
        ])
  unfolding log_in_as
  log_in_as_lem password draws db user u = elim (Bool-cases (lacks_password u)) [
    | inl a ↦ rw a refl
    | inr a ↦ elim (Bool-cases u.is_active) [
      | inl b ↦ elim (Bool-cases (knows_password bcrypt password u)) [
        | inl c ↦ rw (a, b, c) refl
        | inr c ↦ rw (a, b, c) refl
      ]
      | inr b ↦ rw (a, b) refl
    ]
  ]

  entered :
      (password : Text) (draws : Draws) (db : Db) (row : ℕ × User)
      → may_enter bcrypt password row.1 ≡ true
      → log_in_as bcrypt jwt password draws (some row) db
        ≡ issue_tokens bcrypt jwt row.0 row.1.role draws db
  entered password draws db row m = log_in_as_lem password draws db row.0 row.1 ∙ rw m refl

  pub login-enters :
      (identifier password : Text) (draws : Draws) (db : Db) (row : ℕ × User)
      → find_first (is_named (trim identifier)) db.users ≡ some row
      → may_enter bcrypt password row.1 ≡ true
      → login bcrypt jwt identifier password draws db
        ≡ issue_tokens bcrypt jwt row.0 row.1.role draws db
  unfolding login
  login-enters identifier password draws db row e m = rw e (entered password draws db row m)

  kept_out :
      (password : Text) (draws : Draws) (db : Db) (row : ℕ × User)
      → may_enter bcrypt password row.1 ≡ false
      → log_in_as bcrypt jwt password draws (some row) db ≡ (err unauthorized, db)
  kept_out password draws db row m = log_in_as_lem password draws db row.0 row.1 ∙ rw m refl

  registered_users :
      (dto : Register) (new_user : ℕ) (draws : Draws) (db : Db)
      → find_first (is_taken dto) db.users ≡ none
      → (register bcrypt jwt dto new_user draws db).1.users
        ≡ create new_user (registered bcrypt dto draws.salt) db.users
  unfolding register register_over create_profile issue_tokens
  registered_users dto new_user draws db free = elim (role_of-cases dto.role) [
    | inl e ↦ rw (free, e) refl
    | inr e ↦ rw (free, e) refl
  ]

  names_registered :
      (dto : Register) (identifier : Text) (new_user salt : ℕ) (db : Db)
      → normalise_phone (trim identifier) ≡ normalise_phone dto.phone
      → find_first
          (is_named (trim identifier))
          (create new_user (registered bcrypt dto salt) db.users)
        ≡ some (new_user, registered bcrypt dto salt)
  unfolding find_first create registered
  names_registered dto identifier new_user salt db same =
      rw same (ground (arith, text_eq_refl (normalise_phone dto.phone)))

  opens :
      ((salt : ℕ) (p : Text) → bcrypt.compare p (bcrypt.hash salt p) ≡ true)
      → ((salt : ℕ) (p : Text) → bcrypt.hash salt p ≢ [])
      → (dto : Register) (salt : ℕ)
      → may_enter bcrypt dto.password (registered bcrypt dto salt) ≡ true
  unfolding registered
  opens compares hashes dto salt = elim (List-cases (bcrypt.hash salt dto.password)) [
    | inl e ↦ absurd (hashes salt dto.password e)
    | inr (c, cs, e) ↦ ground (arith, compares salt dto.password, e)
  ]

  -- A login answers with the tokens of the account that is named, in its role, exactly when that
  -- account is not suspended and the password is the account's. Every other attempt, be the
  -- account missing, suspended, without a password or another's, is answered with the same error
  -- and changes nothing.
  pub login_answers :
      (identifier password : Text) (draws : Draws) (db : Db)
      → let found = find_first (is_named (trim identifier)) db.users in
        let (answer, db') = login bcrypt jwt identifier password draws db in
        ((user : ℕ) × (u : User) × (found ≡ some (user, u))
          × (may_enter bcrypt password u ≡ true)
          × (answer ≡ ok (tokens_for bcrypt jwt user u.role draws))
          × (db' ≡ (issue_tokens bcrypt jwt user u.role draws db).1))
        ⊎ ((found ≡ none)
            ⊎ ((user : ℕ) × (u : User) × (found ≡ some (user, u))
                × (may_enter bcrypt password u ≡ false)))
          × (answer ≡ err unauthorized)
          × (db' ≡ db)
  unfolding login issue_tokens
  login_answers identifier password draws db =
      elim (Option-cases (find_first (is_named (trim identifier)) db.users)) [
        | inl e ↦ inr (inl e, rw e (unfold log_in_as in refl), rw e (unfold log_in_as in refl))
        | inr (row, e) ↦ elim (Bool-cases (may_enter bcrypt password row.1)) [
          | inl m ↦
              let on = entered password draws db row m in
              inl (row.0, row.1, e, m, rw (e, on) refl, rw (e, on) refl)
          | inr m ↦
              let off = kept_out password draws db row m in
              inr (inr (row.0, row.1, e, m), rw (e, off) refl, rw (e, off) refl)
        ]
      ]

  -- Suppose no account has the number or the address of a registration. Whoever registers may then
  -- log in by the phone number, in any spelling that is normalised to the same, with the password
  -- they chose, provided that no other account goes by what they type: the login answers with the
  -- new account's tokens.
  pub register_then_login :
      ((salt : ℕ) (p : Text) → bcrypt.compare p (bcrypt.hash salt p) ≡ true)
      → ((salt : ℕ) (p : Text) → bcrypt.hash salt p ≢ [])
      → (dto : Register) (identifier : Text) (new_user : ℕ) (draws draws' : Draws) (db : Db)
      → find_first (is_taken dto) db.users ≡ none
      → find_first (is_named (trim identifier)) db.users ≡ none
      → normalise_phone (trim identifier) ≡ normalise_phone dto.phone
      → (login bcrypt jwt identifier dto.password draws'
          (register bcrypt jwt dto new_user draws db).1).0
        ≡ ok (tokens_for bcrypt jwt new_user (role_of dto.role) draws')
  register_then_login compares hashes dto identifier new_user draws draws' db free unnamed same =
      let users = registered_users dto new_user draws db free in
      let names = names_registered dto identifier new_user draws.salt db same in
      let row : ℕ × User = (new_user, registered bcrypt dto draws.salt) in
      let after : Db = (register bcrypt jwt dto new_user draws db).1 in
      ap (λ (p : Result Tokens × Db). p.0)
        (login-enters identifier dto.password draws' after row (rw users names)
          (opens compares hashes dto draws.salt))
      ∙ (unfold issue_tokens registered in refl)
