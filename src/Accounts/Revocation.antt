-- ===== src/Accounts/Revocation.antt =====
-- auth/token-denylist.service.ts and `validate` of auth/jwt.strategy.ts; `setUserActive` and
-- `resetUserPassword` of admin/admin.service.ts, and `deleteOwnAccount` of users/users.service.ts.
--
-- Every call of Redis may fail: whether it goes through is an argument. Notices to the user, the
-- request that a reset answers and the socket's event of a suspension are left out.
pub mod Suspended
pub mod Lockout
pub mod Deleted
use novax_backend.Common.{
  ℕ, ◌+◌, ◌*◌, Bool, true, false, not, ◌&&◌, ◌==◌, ◌++◌, Option, none, some, List, [], ◌∷◌, ltb,
  keep, if◌then◌else◌,
}
use novax_backend.Common.Action.{
  Action, Result, ok, err, unauthorized, unavailable, not_found, pure, gets, or_raise, raise_if,
  modify, ◌>>=◌, ◌>>◌,
}
use novax_backend.Common.Table.{find, update, delete_many}
use novax_backend.Common.Text.{Text, codes}
use novax_backend.Schema.Enums.{Role}
use novax_backend.Schema.Rows.{User, Documents, DriverProfile, OtpCode, RefreshToken}
use novax_backend.Schema.Db.{Db, set_profile}
use novax_backend.Accounts.Sessions.{Bcrypt, JwtPayload}

-- Of another key.
abbrev pub other_key : ℕ → ℕ × ℕ → Bool
other_key user (u, _) = not (u == user)

-- `set(KEY(userId), reason, "EX", ttl)`, at a time
unfoldable pub revoke : (reachable : Bool) (ttl_ms user now : ℕ) → Action Db (Unit {0})
revoke true ttl_ms user now db =
    (ok tt, record db { revoked = (user, now + ttl_ms) ∷ keep (other_key user) db.revoked })
revoke false ttl_ms user now db = (ok tt, db)

-- `del(KEY(userId))`
unfoldable pub restore : (reachable : Bool) (user : ℕ) → Action Db (Unit {0})
restore true user db = (ok tt, record db { revoked = keep (other_key user) db.revoked })
restore false user db = (ok tt, db)

-- `exists(KEY(userId))`, at a time
unfoldable pub has_key : (user now : ℕ) → List (ℕ × ℕ) → Bool
has_key user now [] = false
has_key user now ((u, until) ∷ keys) = if u == user then ltb now until else has_key user now keys

-- `isRevoked`: without Redis nobody is
unfoldable pub is_revoked : (reachable : Bool) (user now : ℕ) → Db → Bool
unfolding has_key
is_revoked true user now db = has_key user now db.revoked
is_revoked false user now db = false

-- `assertNotRevokedForSensitiveAction`: without Redis nobody may
unfoldable pub assert_not_revoked : (reachable : Bool) (user now : ℕ) → Action Db (Unit {0})
unfolding is_revoked
assert_not_revoked reachable user now = do
  raise_if (not reachable) unavailable
  revoked ← gets (is_revoked reachable user now)
  raise_if revoked unauthorized

-- `request.user`, from the payload of a token with a valid signature
unfoldable pub validate : (reachable : Bool) (now : ℕ) → JwtPayload → Action Db JwtPayload
unfolding is_revoked
validate reachable now payload = do
  revoked ← gets (is_revoked reachable payload.sub now)
  raise_if revoked unauthorized
  account ← gets (λ db. find payload.sub db.users)
  u ← or_raise account unauthorized
  raise_if (not u.is_active) unauthorized
  pure (record { sub = payload.sub; role = u.role })

abbrev pub set_user : ℕ → (User → User) → Action Db (Unit {0})
set_user user f db = (ok tt, record db { users = update user f db.users })

abbrev pub with_active : Bool → User → User
with_active is_active u = record u { is_active = is_active }

abbrev pub offline : DriverProfile → DriverProfile
offline p = record p { is_online = false }

abbrev pub set_revoked : (reachable is_active : Bool) (ttl_ms user now : ℕ) → Action Db (Unit {0})
set_revoked reachable true ttl_ms user now = restore reachable user
set_revoked reachable false ttl_ms user now = revoke reachable ttl_ms user now

-- A driver who is suspended goes offline.
abbrev pub sign_off : (is_active : Bool) → Role → (user : ℕ) → Action Db (Unit {0})
sign_off false Role.driver user = set_profile user offline
sign_off _ _ user = pure tt

unfoldable pub set_user_active :
    (reachable : Bool) (ttl_ms user : ℕ) (is_active : Bool) (now : ℕ) → Action Db (Unit {0})
unfolding restore revoke
set_user_active reachable ttl_ms user is_active now = do
  account ← gets (λ db. find user db.users)
  u ← or_raise account not_found
  set_user user (with_active is_active)
  set_revoked reachable is_active ttl_ms user now
  sign_off is_active u.role user

abbrev pub with_password : Text → User → User
with_password hash u = record u { password_hash = some hash }

-- The new password is drawn by the caller, which answers with it.
unfoldable pub reset_user_password :
    Bcrypt → (reachable : Bool) (ttl_ms user salt : ℕ) (password : Text) (now : ℕ) → Action Db Text
unfolding revoke
reset_user_password bcrypt reachable ttl_ms user salt password now = do
  account ← gets (λ db. find user db.users)
  u ← or_raise account not_found
  set_user user (with_password (bcrypt.hash salt password))
  revoke reachable ttl_ms user now
  pure password

-- `deleted-<id>`, with the identifier as it stands in the model
abbrev pub tombstone : ℕ → Text
tombstone user = codes "deleted-" ++ user ∷ []

abbrev pub anonymised : (user : ℕ) → User → User
anonymised user u = record u {
  phone = tombstone user;
  email = none;
  name = some (codes "Deleted user");
  last_name = none;
  address = none;
  password_hash = none;
  referral_code = none;
  is_active = false;
}

abbrev pub without_papers : Documents → Documents
without_papers d = record d {
  cnic_number = none;
  cnic_front_url = none;
  cnic_back_url = none;
  license_doc_url = none;
  license_front_url = none;
  license_back_url = none;
  vehicle_doc_url = none;
  vehicle_photo_url = none;
  payout_account_name = none;
  payout_account_number = none;
}

abbrev pub unattributed : DriverProfile → DriverProfile
unattributed p = record p { documents = without_papers p.documents; is_online = false }

abbrev pub token_of : (user row : ℕ) → RefreshToken → Bool
token_of user _ r = r.user_id == user

abbrev pub code_of : (user row : ℕ) → OtpCode → Bool
code_of user _ c = c.user_id == user

-- The transaction.
abbrev pub erased : (user : ℕ) → Db → Db
erased user db = record db {
  users = update user (anonymised user) db.users;
  refresh_tokens = delete_many (token_of user) db.refresh_tokens;
  otp_codes = delete_many (code_of user) db.otp_codes;
  profiles = update user unattributed db.profiles;
}

unfoldable pub delete_own_account : (reachable : Bool) (ttl_ms user now : ℕ) → Action Db (Unit {0})
unfolding revoke
delete_own_account reachable ttl_ms user now = do
  account ← gets (λ db. find user db.users)
  u ← or_raise account not_found
  modify (erased user)
  revoke reachable ttl_ms user now
