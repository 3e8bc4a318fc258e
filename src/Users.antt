-- ===== src/Users.antt =====
-- users/users.service.ts: the profile of an account, the review of a driver and the queue that a
-- driver is in. `deleteOwnAccount` is in Accounts.Revocation and the papers of an application in
-- Onboarding. Notices, the training checkbox and the notes of the desk, and the forms of the public
-- site, are left out.
pub mod Onboarding
pub mod Emails
pub mod Mode
mod Tests
use novax_backend.Common.{
  ℕ, ◌+◌, Bool, true, false, not, ◌&&◌, ◌||◌, ◌==◌, ltb, Option, none, some, [], ◌∷◌, is_none,
  is_some_of, if◌then◌else◌,
}
use novax_backend.Common.Action.{
  Action, Result, ok, err, bad_request, not_found, db_error, pure, gets, or_raise, raise_if, modify,
  ◌>>=◌, ◌>>◌,
}
use novax_backend.Common.Table.{Table, find, find_first, create, update}
use novax_backend.Common.Text.{Text, trim, to_lower}
use novax_backend.Schema.Enums.{
  Role, KycStatus, DriverMode, TripStatus, DeliveryStatus, FoodOrderStatus, ErrandStatus,
}
use novax_backend.Schema.Rows.{User, Documents, DriverProfile, Trip, Delivery, FoodOrder, Errand}
use novax_backend.Schema.Db.{Db}
use novax_backend.Accounts.Signup.{holds_email, no_documents, default_profile}

-- `UpdateProfileDto`
pub record UpdateProfile : Type 0 where
  pub name : Option Text
  pub last_name : Option Text
  pub email : Option Text

-- `dto.email?.trim().toLowerCase()`
abbrev pub wanted_email : UpdateProfile → Option Text
wanted_email dto = elim dto.email [ none ↦ none | some s ↦ some (to_lower (trim s)) ]

-- Another account holds the address.
abbrev pub email_clash : (user : ℕ) → Option Text → Db → Bool
email_clash user none db = false
email_clash user (some s) db = not (is_none (find_first (holds_email s user) db.users))

-- `if (email)`
abbrev pub is_truthy : Option Text → Bool
is_truthy none = false
is_truthy (some s) = elim s [ [] ↦ false | _ ∷ _ ↦ true ]

-- `dto.name !== undefined ? { name: dto.name.trim() } : {}`
abbrev pub trimmed_or : Option Text → Option Text → Option Text
trimmed_or none old = old
trimmed_or (some s) old = some (trim s)

abbrev pub given_or : Option Text → Option Text → Option Text
given_or none old = old
given_or (some s) old = some s

abbrev pub with_details : UpdateProfile → User → User
with_details dto u = record u {
  name = trimmed_or dto.name u.name;
  last_name = trimmed_or dto.last_name u.last_name;
  email = given_or (wanted_email dto) u.email;
}

-- The column's unique key refuses what the check before it lets through.
unfoldable pub update_profile : (user : ℕ) → UpdateProfile → Action Db (Unit {0})
update_profile user dto = do
  clash ← gets (email_clash user (wanted_email dto))
  raise_if (is_truthy (wanted_email dto) && clash) bad_request
  raise_if clash db_error
  modify (λ db. record db { users = update user (with_details dto) db.users })

abbrev pub is_driver : User → Bool
is_driver u = elim u.role [ Role.driver ↦ true | _ ↦ false ]

abbrev pub with_kyc : KycStatus → User → User
with_kyc status u = record u { kyc_status = status }

unfoldable pub approve_driver_kyc : (user : ℕ) → Action Db (Unit {0})
approve_driver_kyc user = do
  found ← gets (λ db. find user db.users)
  target ← or_raise found not_found
  raise_if (not (is_driver target)) bad_request
  raise_if (not target.is_active) bad_request
  modify (λ db. record db { users = update user (with_kyc KycStatus.approved) db.users })

-- The update of a row that is not there fails.
unfoldable pub reject_driver_kyc : (user : ℕ) → Action Db (Unit {0})
reject_driver_kyc user = do
  found ← gets (λ db. find user db.users)
  target ← or_raise found db_error
  modify (λ db. record db { users = update user (with_kyc KycStatus.rejected) db.users })

-- `upsert({ where: { userId }, create, update })`
unfoldable pub upsert_profile :
    (user : ℕ) → DriverProfile → (DriverProfile → DriverProfile) → Action Db (Unit {0})
upsert_profile user p f = do
  existing ← gets (λ db. find user db.profiles)
  modify (λ db. record db {
    profiles = if is_none existing then create user p db.profiles else update user f db.profiles;
  })

-- `UpdateVehicleDto`
pub record UpdateVehicle : Type 0 where
  pub vehicle_type : Text
  pub vehicle_plate : Option Text
  pub cnic_number : Option Text

abbrev pub with_vehicle : UpdateVehicle → Documents → Documents
with_vehicle dto d = record d {
  vehicle_type = dto.vehicle_type;
  vehicle_plate = given_or dto.vehicle_plate d.vehicle_plate;
  cnic_number = given_or dto.cnic_number d.cnic_number;
}

unfoldable pub upsert_vehicle : (user : ℕ) → UpdateVehicle → Action Db (Unit {0})
unfolding upsert_profile
upsert_vehicle user dto =
    upsert_profile user (default_profile (with_vehicle dto no_documents))
      (λ p. record p { documents = with_vehicle dto p.documents })

-- The statuses that `setActiveMode` counts.
abbrev pub is_trip_active : TripStatus → Bool
is_trip_active s = elim s [
  | TripStatus.matching ↦ true
  | TripStatus.matched ↦ true
  | TripStatus.in_progress ↦ true
  | _ ↦ false
]

abbrev pub is_delivery_active : DeliveryStatus → Bool
is_delivery_active s = elim s [
  | DeliveryStatus.matching ↦ true
  | DeliveryStatus.matched ↦ true
  | DeliveryStatus.picked_up ↦ true
  | DeliveryStatus.in_transit ↦ true
  | _ ↦ false
]

abbrev pub is_food_order_active : FoodOrderStatus → Bool
is_food_order_active s = elim s [
  | FoodOrderStatus.matching ↦ true
  | FoodOrderStatus.assigned ↦ true
  | FoodOrderStatus.picked_up ↦ true
  | _ ↦ false
]

abbrev pub is_errand_active : ErrandStatus → Bool
is_errand_active s = elim s [
  | ErrandStatus.matching ↦ true
  | ErrandStatus.accepted ↦ true
  | ErrandStatus.shopping ↦ true
  | ErrandStatus.on_the_way ↦ true
  | _ ↦ false
]

-- `count({ where })`
unfoldable pub count_rows : {R : Type 0} → (R → Bool) → Table R → ℕ
count_rows p [] = 0
count_rows p ((_, r) ∷ rows) = (if p r then 1 else 0) + count_rows p rows

unfoldable pub count_active : (driver : ℕ) → Db → ℕ
unfolding count_rows
count_active d db =
    count_rows (λ (t : Trip). is_some_of d t.driver_id && is_trip_active t.status) db.trips
    + count_rows (λ (x : Delivery). is_some_of d x.driver_id && is_delivery_active x.status)
        db.deliveries
    + count_rows (λ (o : FoodOrder). is_some_of d o.driver_id && is_food_order_active o.status)
        db.food_orders
    + count_rows (λ (e : Errand). is_some_of d e.driver_id && is_errand_active e.status) db.errands

abbrev pub in_queue : DriverMode → DriverProfile → DriverProfile
in_queue mode p = record p { active_mode = mode }

unfoldable pub set_active_mode : (user : ℕ) → DriverMode → Action Db (Unit {0})
unfolding count_active upsert_profile
set_active_mode user mode = do
  active ← gets (count_active user)
  raise_if (ltb 0 active) bad_request
  upsert_profile user (in_queue mode (default_profile no_documents)) (in_queue mode)
