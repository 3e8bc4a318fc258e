-- ===== src/Accounts/Sessions/Rotation.antt =====
-- The refresh tokens that are live after a call of auth/auth.service.ts.
use novax_backend.Common.{
  ℕ, ◌≡◌, ◌≢◌, refl, ◌⊎◌, inl, inr, Option-cases, some, none, [], ◌∷◌, arith,
}
use novax_backend.Common.Action.{ok, err, unauthorized}
use novax_backend.Common.Table.{Table, find, find_many, find_first, update, update_many, create}
use novax_backend.Common.Text.{Text}
use novax_backend.Schema.Rows.{User, RefreshToken}
use novax_backend.Schema.Db.{Db}
use novax_backend.Accounts.Sessions.{
  Bcrypt, Jwt, Draws, is_live, revoked_row, new_refresh_token, reissued, tokens_for, issue_tokens,
  recognises, refresh,
}

none_live :
    (user : ℕ) (rows : Table RefreshToken)
    → find_many (is_live user) (update_many (is_live user) revoked_row rows) ≡ []
unfolding find_many update_many
none_live user [] = refl
none_live user ((i, r) ∷ rows) = ground (arith, none_live user rows)

others_live :
    (user other : ℕ) (rows : Table RefreshToken)
    → other ≢ user
    → find_many (is_live other) (update_many (is_live user) revoked_row rows)
      ≡ find_many (is_live other) rows
unfolding find_many update_many
others_live user other [] ne = refl
others_live user other ((i, r) ∷ rows) ne = ground (arith, others_live user other rows)

module _ (bcrypt : Bcrypt) (jwt : Jwt) where
  pub reissued_live :
      (user : ℕ) (draws : Draws) (rows : Table RefreshToken)
      → find_many (is_live user) (reissued bcrypt jwt user draws rows)
        ≡ (draws.row, new_refresh_token bcrypt jwt user draws) ∷ []
  unfolding find_many create
  reissued_live user draws rows = ground (arith, none_live user rows)

  -- Tokens that are issued to a user end every session that the user had: the one live refresh
  -- token is the new one. Those of other users are as before, and so is every account.
  pub issue_tokens_one_session :
      (user other : ℕ) (u : User) (draws : Draws) (db : Db)
      → other ≢ user
      → let (answer, db') = issue_tokens bcrypt jwt user u.role draws db in
        (answer ≡ ok (tokens_for bcrypt jwt user u.role draws))
        × (find_many (is_live user) db'.refresh_tokens
            ≡ (draws.row, new_refresh_token bcrypt jwt user draws) ∷ [])
        × (find_many (is_live other) db'.refresh_tokens
            ≡ find_many (is_live other) db.refresh_tokens)
        × (db'.users ≡ db.users)
  unfolding issue_tokens find_many create
  issue_tokens_one_session user other u draws db ne = (
    refl,
    reissued_live user draws db.refresh_tokens,
    ground (arith, others_live user other db.refresh_tokens),
    refl,
  )

  -- A refresh token that is valid and signed for an account that exists is refused, with nothing
  -- changed, when it matches no live and unexpired token of that account; otherwise the call
  -- answers with new tokens in the role that the account has now, and the new refresh token is the
  -- account's only live one.
  pub refresh_answers :
      (token : Text) (draws : Draws) (db : Db) (user : ℕ) (u : User)
      → jwt.verify token draws.now ≡ some user
      → find user db.users ≡ some u
      → let (answer, db') = refresh bcrypt jwt token draws db in
        let found = find_first (recognises bcrypt jwt token user draws.now) db.refresh_tokens in
        (found ≡ none) × (answer ≡ err unauthorized) × (db' ≡ db)
        ⊎ (found ≢ none)
          × (answer ≡ ok (tokens_for bcrypt jwt user u.role draws))
          × (find_many (is_live user) db'.refresh_tokens
              ≡ (draws.row, new_refresh_token bcrypt jwt user draws) ∷ [])
          × (db'.users ≡ db.users)
  unfolding refresh
  refresh_answers token draws db user u v e =
      elim (Option-cases
        (find_first (recognises bcrypt jwt token user draws.now) db.refresh_tokens)) [
          | inl m ↦ inl (m, rw (v, m) refl, rw (v, m) refl)
          | inr (row, m) ↦ inr (
            λ n. cc,
            rw (v, m, e) refl,
            rw (v, m, e) (reissued_live user draws (update row.0 revoked_row db.refresh_tokens)),
            rw (v, m, e) refl,
          )
        ]
