-- ===== src/Accounts/Sessions.antt =====
-- `issueTokens` and `refresh` of auth/auth.service.ts.
--
-- bcrypt and jsonwebtoken are parameters. An access token is its payload: the library checks the
-- signature and the expiry before the payload is used.
pub mod Rotation
pub mod Replay
use novax_backend.Common.{
  ℕ, ◌+◌, ◌*◌, ◌≡◌, Bool, true, false, not, ◌&&◌, ◌==◌, Option, none, some, ltb, if◌then◌else◌,
}
use novax_backend.Common.Action.{
  Action, Result, ok, err, unauthorized, not_found, pure, gets, or_raise, modify, ◌>>=◌, ◌>>◌,
}
use novax_backend.Common.Table.{Table, find, create, update, update_many, find_first}
use novax_backend.Common.Text.{Text}
use novax_backend.Schema.Enums.{Role}
use novax_backend.Schema.Rows.{RefreshToken}
use novax_backend.Schema.Db.{Db}

pub record Bcrypt : Type 0 where
  pub hash : (salt : ℕ) → Text → Text
  pub compare : Text → Text → Bool

-- Refresh tokens: signed for a user at a time, and the user that a text was signed for, if it is
-- valid.
pub record Jwt : Type 0 where
  pub sign_refresh : (user now : ℕ) → Text
  pub verify : Text → (now : ℕ) → Option ℕ

-- `JwtPayload`
pub record JwtPayload : Type 0 where
  pub sub : ℕ
  pub role : Role

pub record Tokens : Type 0 where
  pub access_token : JwtPayload
  pub refresh_token : Text

-- What a call draws: the new row's identifier, the salt and the time.
pub record Draws : Type 0 where
  pub row : ℕ
  pub salt : ℕ
  pub now : ℕ

-- 30 days
abbrev pub refresh_ttl_ms : ℕ
refresh_ttl_ms = 30 * 24 * 60 * 60_000

-- `{ userId, revoked: false }`
abbrev pub is_live : (user row : ℕ) → RefreshToken → Bool
is_live user _ r = r.user_id == user && not r.revoked

abbrev pub revoked_row : RefreshToken → RefreshToken
revoked_row r = record r { revoked = true }

module _ (bcrypt : Bcrypt) (jwt : Jwt) where
  abbrev pub new_refresh_token : (user : ℕ) → Draws → RefreshToken
  new_refresh_token user draws = record {
    user_id = user;
    token_hash = bcrypt.hash draws.salt (jwt.sign_refresh user draws.now);
    expires_at = draws.now + refresh_ttl_ms;
    revoked = false;
  }

  -- The rows that `issueTokens` leaves.
  abbrev pub reissued : (user : ℕ) → Draws → Table RefreshToken → Table RefreshToken
  reissued user draws rows =
      create draws.row (new_refresh_token user draws) (update_many (is_live user) revoked_row rows)

  abbrev pub tokens_for : (user : ℕ) → Role → Draws → Tokens
  tokens_for user role draws = record {
    access_token = record { sub = user; role = role };
    refresh_token = jwt.sign_refresh user draws.now;
  }

  unfoldable pub issue_tokens : (user : ℕ) → Role → Draws → Action Db Tokens
  issue_tokens user role draws db = (
    ok (tokens_for user role draws),
    record db { refresh_tokens = reissued user draws db.refresh_tokens },
  )

  -- The rows of `findMany`, and the comparison of the loop over them.
  abbrev pub recognises : Text → (user now row : ℕ) → RefreshToken → Bool
  recognises token user now row r =
      is_live user row r && ltb now r.expires_at && bcrypt.compare token r.token_hash

  unfoldable pub refresh : Text → Draws → Action Db Tokens
  unfolding issue_tokens
  refresh token draws = do
    user ← or_raise (jwt.verify token draws.now) unauthorized
    matched ← gets (λ db. find_first (recognises token user draws.now) db.refresh_tokens)
    row ← or_raise matched unauthorized
    modify (λ db. record db { refresh_tokens = update row.0 revoked_row db.refresh_tokens })
    account ← gets (λ db. find user db.users)
    u ← or_raise account not_found
    issue_tokens user u.role draws
