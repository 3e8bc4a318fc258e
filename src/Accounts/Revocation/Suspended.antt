-- ===== src/Accounts/Revocation/Suspended.antt =====
-- What a suspension by `setUserActive` stops, and what a reactivation brings back.
use novax_backend.Common.{
  ℕ, ◌≡◌, ◌≢◌, refl, ap, ◌∙◌, inl, inr, Bool, true, false, not, ◌&&◌, Bool-cases, Option-cases,
  some, List, [], ◌∷◌, arith, keep, if◌then◌else◌,
}
use novax_backend.Common.Action.{ok, err, unauthorized}
use novax_backend.Common.Table.{find, update, find-update_self, find-update_ne}
use novax_backend.Schema.Enums.{Role}
use novax_backend.Schema.Rows.{User}
use novax_backend.Schema.Db.{Db}
use novax_backend.Accounts.Sessions.{JwtPayload}
use novax_backend.Accounts.Revocation.{
  other_key, revoke, restore, has_key, is_revoked, validate, with_active, sign_off, set_revoked,
  set_user_active,
}

-- The keys of other users are left.
pub has_key-keep :
    (user other now : ℕ) (keys : List (ℕ × ℕ))
    → other ≢ user
    → has_key other now (keep (other_key user) keys) ≡ has_key other now keys
unfolding has_key
has_key-keep user other now [] ne = refl
has_key-keep user other now ((u, until) ∷ keys) ne =
    ground (arith, has_key-keep user other now keys)

has_key-keep_self :
    (user now : ℕ) (keys : List (ℕ × ℕ)) → has_key user now (keep (other_key user) keys) ≡ false
unfolding has_key
has_key-keep_self user now [] = refl
has_key-keep_self user now ((u, until) ∷ keys) = ground (arith, has_key-keep_self user now keys)

-- A request of an account that the database has suspended.
pub validate_suspended :
    (reachable : Bool) (now user : ℕ) (role : Role) (db : Db) (u : User)
    → find user db.users ≡ some u
    → u.is_active ≡ false
    → validate reachable now (record { sub = user; role = role }) db ≡ (err unauthorized, db)
unfolding validate
validate_suspended reachable now user role db u e off =
    elim (Bool-cases (is_revoked reachable user now db)) [
      | inl r ↦ rw r refl
      | inr r ↦ rw (r, e, off) refl
    ]

validate-active :
    (reachable : Bool) (now user : ℕ) (role : Role) (db : Db) (u : User)
    → find user db.users ≡ some u
    → u.is_active ≡ true
    → (validate reachable now (record { sub = user; role = role }) db).0 ≡ (
        if is_revoked reachable user now db
        then err unauthorized
        else ok (record { sub = user; role = u.role }))
unfolding validate
validate-active reachable now user role db u e on =
    elim (Bool-cases (is_revoked reachable user now db)) [
      | inl r ↦ rw r refl
      | inr r ↦ rw (r, e, on) refl
    ]

-- A request is answered by the account's row and by its key.
validate-ext :
    (reachable : Bool) (now : ℕ) (payload : JwtPayload) (db db' : Db)
    → find payload.sub db'.users ≡ find payload.sub db.users
    → is_revoked reachable payload.sub now db' ≡ is_revoked reachable payload.sub now db
    → (validate reachable now payload db').0 ≡ (validate reachable now payload db).0
unfolding validate
validate-ext reachable now payload db db' e r =
    elim (Bool-cases (is_revoked reachable payload.sub now db)) [
      | inl a ↦ rw (r, a) refl
      | inr a ↦ elim (Option-cases (find payload.sub db.users)) [
        | inl n ↦ rw (r, a, e, n) refl
        | inr (u, s) ↦ elim (Bool-cases u.is_active) [
          | inl o ↦ rw (r, a, e, s, o) refl
          | inr o ↦ rw (r, a, e, s, o) refl
        ]
      ]
    ]

sign_off_keeps :
    (is_active : Bool) (role : Role) (user : ℕ) (db : Db)
    → let (answer, db') = sign_off is_active role user db in
      (answer ≡ ok tt) × (db'.users ≡ db.users) × (db'.revoked ≡ db.revoked)
sign_off_keeps true role user db = (refl, refl, refl)
sign_off_keeps false Role.driver user db = (refl, refl, refl)
sign_off_keeps false Role.rider user db = (refl, refl, refl)
sign_off_keeps false Role.restaurant user db = (refl, refl, refl)
sign_off_keeps false Role.admin user db = (refl, refl, refl)

-- The state before a driver goes offline.
abbrev switched : (reachable is_active : Bool) (ttl_ms user now : ℕ) → Db → Db
switched reachable is_active ttl_ms user now db =
    (set_revoked reachable is_active ttl_ms user now
      (record db { users = update user (with_active is_active) db.users })).1

-- What the call leaves of the accounts and of the keys.
sets :
    (reachable is_active : Bool) (ttl_ms user now : ℕ) (db : Db) (u : User)
    → find user db.users ≡ some u
    → let (answer, db') = set_user_active reachable ttl_ms user is_active now db in
      (answer ≡ ok tt)
      × (db'.users ≡ update user (with_active is_active) db.users)
      × (db'.revoked ≡ (set_revoked reachable is_active ttl_ms user now db).1.revoked)
unfolding set_user_active
sets true true ttl_ms user now db u e =
    rw e (sign_off_keeps true u.role user (switched true true ttl_ms user now db))
sets true false ttl_ms user now db u e =
    rw e (sign_off_keeps false u.role user (switched true false ttl_ms user now db))
sets false true ttl_ms user now db u e =
    rw e (sign_off_keeps true u.role user (switched false true ttl_ms user now db))
sets false false ttl_ms user now db u e =
    rw e (sign_off_keeps false u.role user (switched false false ttl_ms user now db))

sign_off-renewals :
    (role : Role) (user : ℕ) (db : Db)
    → (sign_off false role user db).1.refresh_tokens ≡ db.refresh_tokens
sign_off-renewals Role.driver user db = refl
sign_off-renewals Role.rider user db = refl
sign_off-renewals Role.restaurant user db = refl
sign_off-renewals Role.admin user db = refl

-- A suspension leaves the refresh tokens.
renewals :
    (reachable : Bool) (ttl_ms user now : ℕ) (db : Db) (u : User)
    → find user db.users ≡ some u
    → (set_user_active reachable ttl_ms user false now db).1.refresh_tokens ≡ db.refresh_tokens
unfolding set_user_active revoke
renewals true ttl_ms user now db u e =
    rw e (sign_off-renewals u.role user (switched true false ttl_ms user now db))
renewals false ttl_ms user now db u e =
    rw e (sign_off-renewals u.role user (switched false false ttl_ms user now db))

-- The keys of others, after either call.
others_keys :
    (reachable is_active reachable' : Bool) (ttl_ms user other now later : ℕ) (db : Db)
    → other ≢ user
    → is_revoked reachable' other later (set_revoked reachable is_active ttl_ms user now db).1
      ≡ is_revoked reachable' other later db
unfolding is_revoked revoke restore has_key
others_keys reachable is_active false ttl_ms user other now later db ne = refl
others_keys true true true ttl_ms user other now later db ne =
    has_key-keep user other later db.revoked ne
others_keys false true true ttl_ms user other now later db ne = refl
others_keys false false true ttl_ms user other now later db ne = refl
others_keys true false true ttl_ms user other now later db ne =
    ground (arith, has_key-keep user other later db.revoked ne)

own_key :
    (reachable reachable' : Bool) (ttl_ms user now later : ℕ) (db : Db)
    → is_revoked reachable' user later (set_revoked reachable true ttl_ms user now db).1
      ≡ (not reachable && is_revoked reachable' user later db)
unfolding is_revoked restore
own_key true false ttl_ms user now later db = refl
own_key false false ttl_ms user now later db = refl
own_key true true ttl_ms user now later db = has_key-keep_self user later db.revoked
own_key false true ttl_ms user now later db = refl

revoked-only :
    (reachable : Bool) (user now : ℕ) (db db' : Db)
    → db'.revoked ≡ db.revoked
    → is_revoked reachable user now db' ≡ is_revoked reachable user now db
unfolding is_revoked
revoked-only true user now db db' e = ap (has_key user now) e
revoked-only false user now db db' e = refl

module _ (reachable reachable' : Bool) (ttl_ms user other now later : ℕ) (role : Role) (db : Db)
    (u : User) (at : find user db.users ≡ some u) (ne : other ≢ user) where
  others_answer :
      (is_active : Bool)
      → let db' = (set_user_active reachable ttl_ms user is_active now db).1 in
        (validate reachable' later (record { sub = other; role = role }) db').0
        ≡ (validate reachable' later (record { sub = other; role = role }) db).0
  others_answer is_active =
      let (_, users, keys) = sets reachable is_active ttl_ms user now db u at in
      let db' : Db = (set_user_active reachable ttl_ms user is_active now db).1 in
      validate-ext reachable' later (record { sub = other; role = role }) db db'
        (ap (find other) users ∙ find-update_ne user other (with_active is_active) db.users ne)
        (revoked-only reachable' other later (set_revoked reachable is_active ttl_ms user now db).1
            db' keys
          ∙ others_keys reachable is_active reachable' ttl_ms user other now later db ne)

  -- As a suspension leaves the database, an HTTP request at any time with one of the account's
  -- access tokens is refused, whether Redis could be written at the suspension, whether it can be
  -- read at the request, whatever role the token names and whenever it was issued. The refresh
  -- tokens stay as they are. The requests of any other account are answered as before.
  pub suspended_is_out :
      let (answer, db') = set_user_active reachable ttl_ms user false now db in
      (answer ≡ ok tt)
      × (validate reachable' later (record { sub = user; role = role }) db'
          ≡ (err unauthorized, db'))
      × (db'.refresh_tokens ≡ db.refresh_tokens)
      × ((validate reachable' later (record { sub = other; role = role }) db').0
          ≡ (validate reachable' later (record { sub = other; role = role }) db).0)
  suspended_is_out =
      let (answer, users, _) = sets reachable false ttl_ms user now db u at in
      let db' : Db = (set_user_active reachable ttl_ms user false now db).1 in
      let row = ap (find user) users ∙ find-update_self user (with_active false) db.users u at in
      (
        answer,
        validate_suspended reachable' later user role db' (with_active false u) row refl,
        renewals reachable ttl_ms user now db u at,
        others_answer false,
      )

  -- A reactivated account is let in again, in the role that the database has and whatever role the
  -- token names. Where Redis could not be written at the reactivation, the account stays out for
  -- as long as Redis can be read and has its key from the suspension. The requests of any other
  -- account are answered as before.
  pub reactivated_is_in :
      let (answer, db') = set_user_active reachable ttl_ms user true now db in
      (answer ≡ ok tt)
      × ((validate reachable' later (record { sub = user; role = role }) db').0 ≡ (
          if not reachable && is_revoked reachable' user later db
          then err unauthorized
          else ok (record { sub = user; role = u.role })))
      × ((validate reachable' later (record { sub = other; role = role }) db').0
          ≡ (validate reachable' later (record { sub = other; role = role }) db).0)
  reactivated_is_in =
      let (answer, users, keys) = sets reachable true ttl_ms user now db u at in
      let db' : Db = (set_user_active reachable ttl_ms user true now db).1 in
      let row = ap (find user) users ∙ find-update_self user (with_active true) db.users u at in
      let key =
        revoked-only reachable' user later (set_revoked reachable true ttl_ms user now db).1 db'
          keys
        ∙ own_key reachable reachable' ttl_ms user now later db in
      (
        answer,
        rw (← key) (validate-active reachable' later user role db' (with_active true u) row refl),
        others_answer true,
      )
