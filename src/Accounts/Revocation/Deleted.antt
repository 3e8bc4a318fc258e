-- ===== src/Accounts/Revocation/Deleted.antt =====
-- What `deleteOwnAccount` ends, forgets and keeps.
use novax_backend.Common.{
  ℕ, ◌+◌, keep, ◌≡◌, refl, Bool, true, false, some, none, List, [], ◌∷◌, arith,
}
use novax_backend.Common.Action.{ok, err, unauthorized}
use novax_backend.Common.Table.{Table, find, find_first, delete_many, find-update_self}
use novax_backend.Common.Text.{Text, codes}
use novax_backend.Schema.Enums.{Role}
use novax_backend.Schema.Rows.{User, DriverProfile, RefreshToken}
use novax_backend.Schema.Db.{Db}
use novax_backend.Accounts.Sessions.{Bcrypt, Jwt, Draws, recognises, refresh}
use novax_backend.Accounts.Revocation.{
  revoke, validate, tombstone, anonymised, other_key, token_of, erased, unattributed,
  delete_own_account,
}
use novax_backend.Accounts.Revocation.Suspended.{validate_suspended}

-- The columns by which a person could be found.
abbrev pub IsAnonymous : (user : ℕ) → User → Type 0
IsAnonymous user u =
    (u.email ≡ none)
    × (u.last_name ≡ none)
    × (u.address ≡ none)
    × (u.password_hash ≡ none)
    × (u.referral_code ≡ none)
    × (u.phone ≡ tombstone user)
    × (u.name ≡ some (codes "Deleted user"))
    × (u.is_active ≡ false)

-- The papers and the payout account are gone. The plate, the zone and the emergency contact stay.
abbrev pub IsWithoutPapers : (before after : DriverProfile) → Type 0
IsWithoutPapers p p' =
    let d = p.documents in
    let d' = p'.documents in
    (d'.cnic_number ≡ none)
    × (d'.cnic_front_url ≡ none)
    × (d'.cnic_back_url ≡ none)
    × (d'.license_doc_url ≡ none)
    × (d'.license_front_url ≡ none)
    × (d'.license_back_url ≡ none)
    × (d'.vehicle_doc_url ≡ none)
    × (d'.vehicle_photo_url ≡ none)
    × (d'.payout_account_name ≡ none)
    × (d'.payout_account_number ≡ none)
    × (p'.is_online ≡ false)
    × (d'.vehicle_plate ≡ d.vehicle_plate)
    × (d'.service_zone ≡ d.service_zone)
    × (d'.emergency_contact_name ≡ d.emergency_contact_name)
    × (d'.emergency_contact_phone ≡ d.emergency_contact_phone)

-- What becomes of the profile of an account that has one.
abbrev pub IsProfileErased : (user : ℕ) → Db → Db → Type 0
IsProfileErased user db db' =
    (p : DriverProfile)
    → find user db.profiles ≡ some p
    → (p' : DriverProfile) × (find user db'.profiles ≡ some p') × IsWithoutPapers p p'

profile_erased :
    (user : ℕ) (db : Db) (keys : List (ℕ × ℕ))
    → IsProfileErased user db (record (erased user db) { revoked = keys })
profile_erased user db keys p e = (
  unattributed p,
  find-update_self user unattributed db.profiles p e,
  (refl, refl, refl, refl, refl, refl, refl, refl, refl, refl, refl, refl, refl, refl, refl),
)

-- The records of both parties and the accounts.
abbrev pub SameBooks : Db → Db → Type 0
SameBooks db db' =
    (db'.ledger ≡ db.ledger)
    × (db'.trips ≡ db.trips)
    × (db'.deliveries ≡ db.deliveries)
    × (db'.food_orders ≡ db.food_orders)
    × (db'.errands ≡ db.errands)
    × (db'.ratings ≡ db.ratings)
    × (db'.events ≡ db.events)

module _ (bcrypt : Bcrypt) (jwt : Jwt) where
  none_recognised :
      (token : Text) (user now : ℕ) (rows : Table RefreshToken)
      → find_first (recognises bcrypt jwt token user now) (delete_many (token_of user) rows) ≡ none
  unfolding find_first delete_many
  none_recognised token user now [] = refl
  none_recognised token user now ((i, r) ∷ rows) =
      ground (arith, none_recognised token user now rows)

  refresh_refused :
      (token : Text) (user : ℕ) (draws : Draws) (db : Db)
      → jwt.verify token draws.now ≡ some user
      → find_first (recognises bcrypt jwt token user draws.now) db.refresh_tokens ≡ none
      → refresh bcrypt jwt token draws db ≡ (err unauthorized, db)
  unfolding refresh
  refresh_refused token user draws db v n = rw (v, n) refl

  erasure :
      (reachable' : Bool) (user later : ℕ) (role : Role) (token : Text) (draws : Draws) (db : Db)
      (u : User) (keys : List (ℕ × ℕ))
      → find user db.users ≡ some u
      → jwt.verify token draws.now ≡ some user
      → let db' : Db = record (erased user db) { revoked = keys } in
        ((u' : User) × (find user db'.users ≡ some u') × IsAnonymous user u')
        × IsProfileErased user db db'
        × (validate reachable' later (record { sub = user; role = role }) db'
            ≡ (err unauthorized, db'))
        × (refresh bcrypt jwt token draws db' ≡ (err unauthorized, db'))
        × SameBooks db db'
  erasure reachable' user later role token draws db u keys e v =
      let db' : Db = record (erased user db) { revoked = keys } in
      let row = find-update_self user (anonymised user) db.users u e in
      let gone = none_recognised token user draws.now db.refresh_tokens in
      (
        (anonymised user u, row, (refl, refl, refl, refl, refl, refl, refl, refl)),
        profile_erased user db keys,
        validate_suspended reachable' later user role db' (anonymised user u) row refl,
        refresh_refused token user draws db' v gone,
        (refl, refl, refl, refl, refl, refl, refl),
      )

  -- Deleting an account takes the name, the phone number, the e-mail, the address, the password and
  -- the referral code out of its row, and the numbers and images of the papers and the payout
  -- account out of its profile, which goes offline; the vehicle's plate, the zone and the emergency
  -- contact stay in the profile. As that leaves the database, an HTTP request with an access
  -- token of the account is refused, whatever happens to Redis, and no refresh token of it is
  -- renewed. The trips, parcels,
  -- orders, errands, ratings and the whole ledger stay as they are, a debt included.
  pub deletion_keeps_books :
      (reachable reachable' : Bool) (ttl_ms user now later : ℕ) (role : Role) (token : Text)
      (draws : Draws) (db : Db) (u : User)
      → find user db.users ≡ some u
      → jwt.verify token draws.now ≡ some user
      → let (answer, db') = delete_own_account reachable ttl_ms user now db in
        (answer ≡ ok tt)
        × ((u' : User) × (find user db'.users ≡ some u') × IsAnonymous user u')
        × IsProfileErased user db db'
        × (validate reachable' later (record { sub = user; role = role }) db'
            ≡ (err unauthorized, db'))
        × (refresh bcrypt jwt token draws db' ≡ (err unauthorized, db'))
        × SameBooks db db'
  unfolding delete_own_account revoke
  deletion_keeps_books true reachable' ttl_ms user now later role token draws db u e v =
      let keys = (user, now + ttl_ms) ∷ keep (other_key user) db.revoked in
      let (row, profile, requests, renewal, books) =
        erasure reachable' user later role token draws db u keys e v in
      rw e (refl, row, profile, requests, renewal, books)
  deletion_keeps_books false reachable' ttl_ms user now later role token draws db u e v =
      let (row, profile, requests, renewal, books) =
        erasure reachable' user later role token draws db u db.revoked e v in
      rw e (refl, row, profile, requests, renewal, books)
