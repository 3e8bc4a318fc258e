-- ===== src/Accounts/Sessions/Replay.antt =====
-- A refresh token that was used up comes back: what bcrypt compares of it.
use novax_backend.Common.{ℕ, ◌+◌, ◌<◌, ◌≡◌, ◌∙◌, inl, inr, true, some, [], ◌∷◌, arith, take}
use novax_backend.Common.Action.{ok}
use novax_backend.Common.Table.{Table, find, find_first, find_many, create}
use novax_backend.Common.Text.{Text, text_eq, text_eq_refl}
use novax_backend.Schema.Rows.{User, RefreshToken}
use novax_backend.Schema.Db.{Db}
use novax_backend.Accounts.Sessions.{
  Bcrypt, Jwt, Draws, refresh_ttl_ms, new_refresh_token, reissued, tokens_for, issue_tokens,
  is_live, recognises, refresh,
}
use novax_backend.Accounts.Sessions.Rotation.{reissued_live, refresh_answers}

-- bcrypt uses the first 72 bytes of a text and ignores the rest.
abbrev pub Truncates : Bcrypt → Type 0
Truncates bcrypt =
    (salt : ℕ) (p q : Text)
    → bcrypt.compare p (bcrypt.hash salt q) ≡ text_eq (take 72 p) (take 72 q)

-- A token is three parts: the header, which is the same for all, the payload, which begins with the
-- user's identifier, and the signature. What differs between two tokens of a user, their times and
-- signatures, stands behind the 72nd byte.
abbrev pub SharesPrefix : Jwt → Type 0
SharesPrefix jwt =
    (user i j : ℕ) → take 72 (jwt.sign_refresh user i) ≡ take 72 (jwt.sign_refresh user j)

module _ (bcrypt : Bcrypt) (jwt : Jwt) where
  old_compares :
      Truncates bcrypt
      → SharesPrefix jwt
      → (user old : ℕ) (draws : Draws)
      → bcrypt.compare
          (jwt.sign_refresh user old)
          (new_refresh_token bcrypt jwt user draws).token_hash
        ≡ true
  old_compares truncates shares user old draws =
      truncates draws.salt (jwt.sign_refresh user old) (jwt.sign_refresh user draws.now)
      ∙ rw (shares user old draws.now) (text_eq_refl (take 72 (jwt.sign_refresh user draws.now)))

  old_recognised :
      (user old : ℕ) (draws draws' : Draws) (rows : Table RefreshToken)
      → bcrypt.compare
          (jwt.sign_refresh user old)
          (new_refresh_token bcrypt jwt user draws).token_hash
        ≡ true
      → draws'.now < draws.now + refresh_ttl_ms
      → find_first
          (recognises bcrypt jwt (jwt.sign_refresh user old) user draws'.now)
          (reissued bcrypt jwt user draws rows)
        ≡ some (draws.row, new_refresh_token bcrypt jwt user draws)
  unfolding find_first create
  old_recognised user old draws draws' rows c soon = ground arith

  -- Whenever tokens are issued to a user, the new refresh token is the account's only live one.
  -- Yet any refresh token that was ever signed for the user, whose signature is valid, is accepted
  -- until the one in force expires: bcrypt compares only what all refresh tokens of a user have in
  -- common. The answer is new tokens, and the new refresh token is then the account's only live
  -- one, in place of the one in force.
  pub refresh_replays :
      Truncates bcrypt
      → SharesPrefix jwt
      → (user old : ℕ) (draws draws' : Draws) (db : Db) (u : User) → find user db.users ≡ some u
      → jwt.verify (jwt.sign_refresh user old) draws'.now ≡ some user
      → draws'.now < draws.now + refresh_ttl_ms
      → let (_, db1) = issue_tokens bcrypt jwt user u.role draws db in
        let (answer, db2) = refresh bcrypt jwt (jwt.sign_refresh user old) draws' db1 in
        (find_many (is_live user) db1.refresh_tokens
          ≡ (draws.row, new_refresh_token bcrypt jwt user draws) ∷ [])
        × (answer ≡ ok (tokens_for bcrypt jwt user u.role draws'))
        × (find_many (is_live user) db2.refresh_tokens
            ≡ (draws'.row, new_refresh_token bcrypt jwt user draws') ∷ [])
  unfolding issue_tokens
  refresh_replays truncates shares user old draws draws' db u e v soon =
      let db1 : Db = (issue_tokens bcrypt jwt user u.role draws db).1 in
      let before = reissued_live bcrypt jwt user draws db.refresh_tokens in
      let seen =
        old_recognised user old draws draws' db.refresh_tokens
          (old_compares truncates shares user old draws) soon in
      elim (refresh_answers bcrypt jwt (jwt.sign_refresh user old) draws' db1 user u v e) [
        | inl (unseen, _, _) ↦ cc (unseen, seen)
        | inr (_, answer, after, _) ↦ (before, answer, after)
      ]
