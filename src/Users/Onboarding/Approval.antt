-- ===== src/Users/Onboarding/Approval.antt =====
-- What comes of an application that is approved.
use novax_backend.Common.{ℕ, ap, ◌≡◌, refl, ◌∙◌, Bool, true, false, not, ◌&&◌, some, arith}
use novax_backend.Common.Action.{ok}
use novax_backend.Common.Table.{find, update, find-update_self}
use novax_backend.Schema.Enums.{KycStatus}
use novax_backend.Schema.Rows.{User, DriverProfile}
use novax_backend.Schema.Db.{Db}
use novax_backend.Location
use novax_backend.Location.{
  is_allowed, may_drive, online, same, on_a_job, over_credit_limit, held_back, passes,
}
use novax_backend.Users.{is_driver, with_kyc, approve_driver_kyc}
use novax_backend.Users.Onboarding.{queued_at, submit_for_review}
use novax_backend.Users.Onboarding.Review.{IsReady, papers-complete, missing-complete, submit-ready}

approve-active :
    (user : ℕ) (db : Db) (u : User)
    → find user db.users ≡ some u
    → is_driver u ≡ true
    → u.is_active ≡ true
    → approve_driver_kyc user db
      ≡ (ok tt, record db { users = update user (with_kyc KycStatus.approved) db.users })
unfolding approve_driver_kyc
approve-active user db u e d a = ground (arith, e, d, a)

fleet_test : (b : Bool) → same b b ≡ true
unfolding same
fleet_test true = refl
fleet_test false = refl

other_fleet : (b : Bool) → same (not b) b ≡ false
unfolding same
other_fleet true = refl
other_fleet false = refl

allowed-approved :
    (want_test : Bool) (user : ℕ) (db : Db) (u : User) (p : DriverProfile)
    → find user db.users ≡ some (with_kyc KycStatus.approved u)
    → find user db.profiles ≡ some p
    → is_driver u ≡ true
    → u.is_active ≡ true
    → is_allowed want_test db user ≡ (same want_test u.is_test_account && p.is_online)
unfolding is_allowed may_drive online Location.is_driver
allowed-approved want_test user db u p e f d a = ground (arith, e, f, d, a)

passes-approved :
    (limit : ℕ) (want_test : Bool) (user : ℕ) (db : Db) (u : User) (p : DriverProfile)
    → find user db.users ≡ some (with_kyc KycStatus.approved u)
    → find user db.profiles ≡ some p
    → is_driver u ≡ true
    → u.is_active ≡ true
    → passes limit want_test db user
      ≡ (same want_test u.is_test_account && p.is_online && not (held_back limit db user))
passes-approved limit want_test user db u p e f d a =
    ap (λ b. b && not (held_back limit db user)) (allowed-approved want_test user db u p e f d a)

-- A driver with an active account whose application is complete gets through: the submission and
-- the approval succeed. In every later state in which the account's row is as the approval leaves
-- it and there is a profile, the test that matching makes of the drivers with a fresh fix lets this
-- one through for jobs of their own fleet exactly when the profile is online, and the driver is on
-- no job and within the credit limit, and never for jobs of the other fleet.
pub complete_driver_is_allowed :
    (limit user now : ℕ) (db later : Db) (u : User) (p q : DriverProfile)
    → find user db.users ≡ some u
    → is_driver u ≡ true
    → u.is_active ≡ true
    → IsReady u (find user db.profiles) p
    → find user later.users ≡ some (with_kyc KycStatus.approved u)
    → find user later.profiles ≡ some q
    → let (submitted, db1) = submit_for_review user now db in
      let (approved, db2) = approve_driver_kyc user db1 in
      (submitted ≡ ok tt)
      × (approved ≡ ok tt)
      × (find user db2.users ≡ some (with_kyc KycStatus.approved u))
      × (passes limit u.is_test_account later user ≡ (
          q.is_online
          && not (on_a_job later user)
          && not (over_credit_limit limit later.ledger user)))
      × (passes limit (not u.is_test_account) later user ≡ false)
complete_driver_is_allowed limit user now db later u p q e d a (f, all, n) e' f' =
    let db1 : Db = record db { profiles = update user (queued_at now) db.profiles } in
    let ready =
      submit-ready user now db u e p f (missing-complete u p ∙ papers-complete u p all) n in
    let row = find-update_self user (with_kyc KycStatus.approved) db.users u e in
    let own = passes-approved limit u.is_test_account user later u q e' f' d a in
    let other = passes-approved limit (not u.is_test_account) user later u q e' f' d a in
    rw (ready, approve-active user db1 u e d a)
      (
        refl,
        refl,
        row,
        ground (arith, own, fleet_test u.is_test_account),
        ground (arith, other, other_fleet u.is_test_account),
      )
