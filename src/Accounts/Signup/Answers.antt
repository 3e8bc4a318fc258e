-- ===== src/Accounts/Signup/Answers.antt =====
-- What `register` of auth/auth.service.ts answers, and leaves.
use novax_backend.Common.{
  ℕ, ◌≡◌, ◌≢◌, refl, ◌⊎◌, inl, inr, true, false, Bool-cases, Option-cases, some, none, arith,
}
use novax_backend.Common.Action.{ok, err, Result, conflict, db_error}
use novax_backend.Common.Table.{find, find_first, create, update}
use novax_backend.Schema.Enums.{Role, KycStatus}
use novax_backend.Schema.Rows.{User}
use novax_backend.Schema.Db.{Db}
use novax_backend.Accounts.Sessions.{Bcrypt, Jwt, Draws, Tokens, tokens_for, issue_tokens}
use novax_backend.Accounts.Signup.{
  Register, role_of, lacks_password, email_of, is_taken, holds_email, default_profile, licences,
  upgraded, registered, create_profile, upgrade, register_over, register,
}

-- Customers are in; drivers wait for approval, and have a profile that is offline.
abbrev pub HasStanding : Register → (user : ℕ) (now before : Db) → User → Type 0
HasStanding dto user now before u =
    (u.role ≡ Role.rider) × (u.kyc_status ≡ KycStatus.approved) × (now.profiles ≡ before.profiles)
    ⊎ (u.role ≡ Role.driver)
      × (u.kyc_status ≡ KycStatus.pending)
      × (find user now.profiles ≡ some (default_profile (licences dto)))

some-ne-none : {A : Type 0} (a : A) → some a ≢ none
some-ne-none a h = cc

pub role_of-cases : (r : Role) → (role_of r ≡ Role.rider) ⊎ (role_of r ≡ Role.driver)
role_of-cases Role.driver = inr refl
role_of-cases Role.rider = inl refl
role_of-cases Role.restaurant = inl refl
role_of-cases Role.admin = inl refl

module _ (bcrypt : Bcrypt) (jwt : Jwt) (dto : Register) (new_user : ℕ) (draws : Draws)
    (db : Db) where
  standing :
      let db' = (register_over bcrypt jwt dto new_user draws none db).1 in
      HasStanding dto new_user db' db (registered bcrypt dto draws.salt)
  unfolding register_over registered create_profile issue_tokens create find
  standing = elim (role_of-cases dto.role) [
    | inl e ↦ rw e (inl (refl, refl, refl))
    | inr e ↦ rw e (inr (refl, refl, ground arith))
  ]

  new_account :
      let (answer, db') = register_over bcrypt jwt dto new_user draws none db in
      (answer ≡ ok (tokens_for bcrypt jwt new_user (role_of dto.role) draws))
      × (find new_user db'.users ≡ some (registered bcrypt dto draws.salt))
  unfolding register_over create_profile issue_tokens create find
  new_account = elim (role_of-cases dto.role) [
    | inl e ↦ rw e (refl, ground arith)
    | inr e ↦ rw e (refl, ground arith)
  ]

  -- Where an account has the number or the address.
  abbrev pub IsOver : ℕ → User → Result Tokens × Db → Type 0
  IsOver user u (answer, db') =
      (lacks_password u ≡ false) × (answer ≡ err conflict) × (db' ≡ db)
      ⊎ (lacks_password u ≡ true)
        × (find_first (holds_email (email_of dto) user) db.users ≢ none)
        × (answer ≡ err db_error)
        × (db' ≡ db)
      ⊎ (lacks_password u ≡ true)
        × (answer ≡ ok (tokens_for bcrypt jwt user u.role draws))
        × (db'.users ≡ update user (upgraded bcrypt dto draws.salt) db.users)

  -- The outcomes of `register`.
  abbrev pub IsRegistered : Result Tokens × Db → Type 0
  IsRegistered (answer, db') =
      (find_first (is_taken dto) db.users ≡ none)
        × (answer ≡ ok (tokens_for bcrypt jwt new_user (role_of dto.role) draws))
        × (find new_user db'.users ≡ some (registered bcrypt dto draws.salt))
        × HasStanding dto new_user db' db (registered bcrypt dto draws.salt)
      ⊎ ((user : ℕ) × (u : User) × (find_first (is_taken dto) db.users ≡ some (user, u))
          × IsOver user u (answer, db'))

  IsOver-existing :
      (user : ℕ) (u : User)
      → IsOver user u (register_over bcrypt jwt dto new_user draws (some (user, u)) db)
  unfolding register_over upgrade issue_tokens
  IsOver-existing user u = elim (Bool-cases (lacks_password u)) [
    | inl no_password ↦
        elim (Option-cases (find_first (holds_email (email_of dto) user) db.users)) [
          | inl free ↦ rw (no_password, free) (inr (inr (refl, refl, refl)))
          | inr (row, held) ↦
              rw (no_password, held) (inr (inl (refl, some-ne-none row, refl, refl)))
        ]
    | inr has_password ↦ rw has_password (inl (refl, refl, refl))
  ]

  -- A phone number, in whatever spelling, and an e-mail address that no account has make a new
  -- account: a customer is approved at once, a driver is pending, and nobody becomes anything
  -- else. Of an account that has either and a password nothing changes, and the answer is a
  -- conflict. An account with neither password nor a clash over the e-mail address is given the
  -- caller's password and its tokens go to the caller, who has shown no code.
  pub register_answers : IsRegistered (register bcrypt jwt dto new_user draws db)
  unfolding register
  register_answers = elim (Option-cases (find_first (is_taken dto) db.users)) [
    | inl e ↦ inl (e, rw e new_account.0, rw e new_account.1, rw e standing)
    | inr (row, e) ↦ inr (row.0, row.1, e, rw e (IsOver-existing row.0 row.1))
  ]
