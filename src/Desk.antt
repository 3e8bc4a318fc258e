-- ===== src/Desk.antt =====
-- admin/admin.service.ts: the assignment of a job to a driver by the operations desk, as far as it
-- changes state; `setUserActive` and `resetUserPassword` are in Accounts.Revocation. The notice to
-- the driver is left out, and the listings for the desk's screens.
pub mod Waiting
pub mod Assignment
mod Tests
use novax_backend.Common.{
  ℕ, Bool, true, false, not, ◌&&◌, ◌||◌, Option, none, some, [], ◌∷◌, if◌then◌else◌,
}
use novax_backend.Common.Action.{
  Action, Result, ok, err, not_found, bad_request, gets, or_raise, raise_if, ◌>>=◌, ◌>>◌,
}
use novax_backend.Common.Table.{find}
use novax_backend.Schema.Enums.{Role, KycStatus, DeliveryStatus, FoodOrderStatus, ErrandStatus}
use novax_backend.Schema.Rows.{User, Trip, Delivery, FoodOrder, Errand}
use novax_backend.Schema.Db.{Db, MatchScope, Topic, Message, send}
use novax_backend.Trips
use novax_backend.Trips.Rides.{matched_by}
use novax_backend.Deliveries
use novax_backend.FoodOrders
use novax_backend.Errands

abbrev pub is_driver : User → Bool
is_driver u = elim u.role [ Role.driver ↦ true | _ ↦ false ]

abbrev pub is_approved : User → Bool
is_approved u = elim u.kyc_status [ KycStatus.approved ↦ true | _ ↦ false ]

-- `owner?.isTestAccount === true`
abbrev pub is_test_owner : Option User → Bool
is_test_owner none = false
is_test_owner (some u) = u.is_test_account

abbrev pub is_test_trip : Option Trip → Bool
is_test_trip none = false
is_test_trip (some t) = t.is_test

-- The account whose fleet a job of the other kinds belongs to, if the job exists.
abbrev pub owner_of : MatchScope → (job : ℕ) → Db → Option ℕ
owner_of MatchScope.trip k db = none
owner_of MatchScope.delivery k db = elim (find k db.deliveries) [
  | none ↦ none
  | some x ↦ some x.sender_id
]
owner_of MatchScope.food_order k db = elim (find k db.food_orders) [
  | none ↦ none
  | some o ↦ some o.customer_id
]
owner_of MatchScope.errand k db = elim (find k db.errands) [
  | none ↦ none
  | some e ↦ some e.requester_id
]

abbrev pub owner_is_test : Option ℕ → Db → Bool
owner_is_test none db = false
owner_is_test (some owner) db = is_test_owner (find owner db.users)

-- `jobBelongsToTestFleet`
unfoldable pub job_is_test : MatchScope → (job : ℕ) → Db → Bool
job_is_test MatchScope.trip k db = is_test_trip (find k db.trips)
job_is_test MatchScope.delivery k db = owner_is_test (owner_of MatchScope.delivery k db) db
job_is_test MatchScope.food_order k db = owner_is_test (owner_of MatchScope.food_order k db) db
job_is_test MatchScope.errand k db = owner_is_test (owner_of MatchScope.errand k db) db

abbrev pub matched_to : (driver now : ℕ) → Delivery → Delivery
matched_to driver now x = record x {
  driver_id = some driver;
  status = DeliveryStatus.matched;
  matched_at = some now;
}

abbrev pub assigned_to : (driver : ℕ) → FoodOrder → FoodOrder
assigned_to driver o = record o { driver_id = some driver; status = FoodOrderStatus.assigned }

abbrev pub accepted_for : (driver : ℕ) → Errand → Errand
accepted_for driver e = record e { driver_id = some driver; status = ErrandStatus.accepted }

-- The update of the job, if it still waits for a driver.
unfoldable pub assign : MatchScope → (job driver now : ℕ) → Action Db Bool
unfolding Trips.claim Deliveries.claim_delivery FoodOrders.claim_order Errands.claim_errand
assign MatchScope.trip k driver now =
    Trips.claim k (λ t. Trips.is_searching t.status) (matched_by driver now)
assign MatchScope.delivery k driver now =
    Deliveries.claim_delivery k (λ x. Deliveries.is_searching x.status) (matched_to driver now)
assign MatchScope.food_order k driver now =
    FoodOrders.claim_order k (λ o. FoodOrders.is_searching o.status) (assigned_to driver)
assign MatchScope.errand k driver now =
    Errands.claim_errand k (λ e. Errands.is_searching e.status) (accepted_for driver)

abbrev pub same_bool : Bool → Bool → Bool
same_bool true b = b
same_bool false b = not b

-- `job:manuallyAssigned`
abbrev pub assigned_message : MatchScope → (job driver : ℕ) → Message
assigned_message scope k driver = record {
  to = some driver;
  topic = Topic.manually_assigned;
  scope = scope;
  job = k;
}

-- What follows the checks of the driver.
unfoldable pub hand_over : MatchScope → (job driver now : ℕ) → Action Db (Unit {0})
unfolding assign
hand_over scope k driver now = do
  claimed ← assign scope k driver now
  raise_if (not claimed) bad_request
  send (assigned_message scope k driver ∷ [])

unfoldable pub manually_assign : MatchScope → (job driver now : ℕ) → Action Db (Unit {0})
unfolding job_is_test hand_over
manually_assign scope k driver now = do
  found ← gets (λ db. find driver db.users)
  d ← or_raise found not_found
  raise_if (not (is_driver d)) not_found
  raise_if (not (is_approved d) || not d.is_active) bad_request
  job_is_test ← gets (job_is_test scope k)
  raise_if (not (same_bool d.is_test_account job_is_test)) bad_request
  hand_over scope k driver now
