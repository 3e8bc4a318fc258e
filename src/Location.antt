-- ===== src/Location.antt =====
-- location/location.service.ts: who may be offered a job (`filterEligible` and what it asks), and
-- what a driver is told about it (`getDriverStatus`).
--
-- The geographic search of Redis is not modelled: its answer, nearest first, is what
-- `find_nearby_drivers` starts from. Times are milliseconds and the credit limit is in paisa.
pub mod Eligible
pub mod Status
pub mod Credit
mod Tests
use novax_backend.Common.{
  ℕ, ◌-◌, Bool, true, false, not, ◌&&◌, ◌||◌, ◌==◌, Option, none, some, List, [], ◌∷◌, map, leb,
  keep, has, is_some_of, if◌then◌else◌,
}
use novax_backend.Common.Int.{ℤ}
use novax_backend.Common.Action.{Action, Result, ok, err, pure, gets, modify, ◌>>=◌, ◌>>◌}
use novax_backend.Common.Table.{Table, find}
use novax_backend.Schema.Enums.{
  Role, KycStatus, DriverMode, TripStatus, DeliveryStatus, FoodOrderStatus, ErrandStatus,
}
use novax_backend.Schema.Rows.{User, DriverProfile, Trip, Delivery, FoodOrder, Errand, LedgerEntry}
use novax_backend.Schema.Db.{Db}
use novax_backend.Dispatch.{Candidate}
use novax_backend.Ledger.{Ledger}
use novax_backend.Ledger.Balance.{balance_of}
use novax_backend.Ledger.Wallet.{is_blocked}

-- The keys of Redis: `drivers:geo`, and `driver:lastseen:<id>`. A value that is no number is as a
-- key that is missing.
pub record Redis : Type 0 where
  pub geo : List ℕ
  pub last_seen : Table ℕ

abbrev pub max_fix_age_ms : ℕ
max_fix_age_ms = 180_000

pub delete : ℕ → Table ℕ → Table ℕ
delete k [] = []
delete k ((j, x) ∷ t) = let rest = delete k t in if j == k then rest else (j, x) ∷ rest

unfoldable pub remove_driver : ℕ → Redis → Redis
unfolding delete
remove_driver d r = record r {
  geo = keep (λ j. not (j == d)) r.geo;
  last_seen = delete d r.last_seen;
}

pub remove_drivers : List ℕ → Redis → Redis
unfolding remove_driver
remove_drivers [] r = r
remove_drivers (d ∷ ds) r = remove_drivers ds (remove_driver d r)

-- `updateDriverLocation`: the position, and the time of the ping
unfoldable pub update_driver_location : (driver now : ℕ) → Redis → Redis
unfolding delete
update_driver_location d now r = record r {
  geo = d ∷ keep (λ j. not (j == d)) r.geo;
  last_seen = (d, now) ∷ delete d r.last_seen;
}

recent : ℕ → Option ℕ → Bool
recent now none = false
recent now (some seen) = leb (now - seen) max_fix_age_ms

-- The test of `filterFreshFixes`
unfoldable pub is_fresh : ℕ → Redis → ℕ → Bool
unfolding recent
is_fresh now r d = recent now (find d r.last_seen)

abbrev pub ids : List Candidate → List ℕ
ids cs = map (λ (c : Candidate). c.driver_id) cs

-- `filterFreshFixes`
filter_fresh_fixes : ℕ → List Candidate → Action Redis (List Candidate)
unfolding is_fresh remove_drivers
filter_fresh_fixes now cs r = (
  ok (keep (λ (c : Candidate). is_fresh now r c.driver_id) cs),
  remove_drivers (ids (keep (λ (c : Candidate). not (is_fresh now r c.driver_id)) cs)) r,
)

unfoldable pub same : Bool → Bool → Bool
same true b = b
same false b = not b

unfoldable pub is_driver : Role → Bool
is_driver Role.driver = true
is_driver _ = false

unfoldable pub is_approved : KycStatus → Bool
is_approved KycStatus.approved = true
is_approved _ = false

unfoldable pub may_drive : Bool → Option User → Bool
unfolding same is_driver is_approved
may_drive want_test none = false
may_drive want_test (some u) =
    is_driver u.role && u.is_active && is_approved u.kyc_status && same want_test u.is_test_account

unfoldable pub online : Option DriverProfile → Bool
online none = false
online (some p) = p.is_online

-- The query on users and their profiles.
unfoldable pub is_allowed : (want_test : Bool) → Db → ℕ → Bool
unfolding may_drive online
is_allowed want_test db d = may_drive want_test (find d db.users) && online (find d db.profiles)

unfoldable pub occupies_trip : TripStatus → Bool
occupies_trip TripStatus.matching = true
occupies_trip TripStatus.matched = true
occupies_trip TripStatus.in_progress = true
occupies_trip _ = false

unfoldable pub occupies_delivery : DeliveryStatus → Bool
occupies_delivery DeliveryStatus.matching = true
occupies_delivery DeliveryStatus.matched = true
occupies_delivery DeliveryStatus.picked_up = true
occupies_delivery DeliveryStatus.in_transit = true
occupies_delivery _ = false

unfoldable pub occupies_food_order : FoodOrderStatus → Bool
occupies_food_order FoodOrderStatus.matching = true
occupies_food_order FoodOrderStatus.assigned = true
occupies_food_order FoodOrderStatus.picked_up = true
occupies_food_order _ = false

unfoldable pub occupies_errand : ErrandStatus → Bool
occupies_errand ErrandStatus.matching = true
occupies_errand ErrandStatus.accepted = true
occupies_errand ErrandStatus.shopping = true
occupies_errand ErrandStatus.on_the_way = true
occupies_errand _ = false

-- A row of the table passes the test.
unfoldable pub any_row : {R : Type 0} → (R → Bool) → Table R → Bool
any_row p [] = false
any_row p ((_, r) ∷ t) = p r || any_row p t

-- `driversOnAJob`
unfoldable pub on_a_job : Db → ℕ → Bool
unfolding occupies_trip occupies_delivery occupies_food_order occupies_errand any_row
on_a_job db d =
    any_row (λ (t : Trip). is_some_of d t.driver_id && occupies_trip t.status) db.trips
    || any_row (λ (x : Delivery). is_some_of d x.driver_id && occupies_delivery x.status)
        db.deliveries
    || any_row (λ (o : FoodOrder). is_some_of d o.driver_id && occupies_food_order o.status)
        db.food_orders
    || any_row (λ (e : Errand). is_some_of d e.driver_id && occupies_errand e.status) db.errands

-- The driver has a group in the `groupBy`.
pub has_entries : ℕ → Ledger → Bool
has_entries d [] = false
has_entries d (e ∷ l) = e.user_id == d || has_entries d l

-- `driversOverCreditLimit`
unfoldable pub over_credit_limit : (limit : ℕ) → Ledger → ℕ → Bool
unfolding has_entries balance_of
over_credit_limit limit l d = has_entries d l && is_blocked limit (balance_of d l)

-- What keeps a driver who is out of work for now in the geographic set.
abbrev pub held_back : (limit : ℕ) → Db → ℕ → Bool
held_back limit db d = over_credit_limit limit db.ledger d || on_a_job db d

abbrev pub passes : (limit : ℕ) → (want_test : Bool) → Db → ℕ → Bool
passes limit want_test db d = is_allowed want_test db d && not (held_back limit db d)

-- What follows the check of the fixes.
filter_allowed :
    (limit : ℕ) → (want_test : Bool) → Db → List Candidate → Action Redis (List Candidate)
unfolding remove_drivers
filter_allowed limit want_test db fresh = do
  modify (
      remove_drivers (
        ids (
          keep
            (λ (c : Candidate).
              not (passes limit want_test db c.driver_id) && not (held_back limit db c.driver_id))
            fresh)))
  pure (keep (λ (c : Candidate). passes limit want_test db c.driver_id) fresh)

-- `filterEligible`
unfoldable pub filter_eligible :
    (limit now : ℕ) → (want_test : Bool) → Db → List Candidate → Action Redis (List Candidate)
unfolding filter_fresh_fixes filter_allowed is_allowed on_a_job over_credit_limit
filter_eligible limit now want_test db cs = do
  fresh ← filter_fresh_fixes now cs
  filter_allowed limit want_test db fresh

same_mode : DriverMode → DriverMode → Bool
same_mode DriverMode.ride DriverMode.ride = true
same_mode DriverMode.food_errand DriverMode.food_errand = true
same_mode _ _ = false

in_mode : DriverMode → Option DriverProfile → Bool
unfolding same_mode
in_mode mode none = false
in_mode mode (some p) = same_mode mode p.active_mode && p.is_online

-- `findNearbyDriversForMode`, from what the search gave
unfoldable pub for_mode :
    (limit now : ℕ)
    → DriverMode
    → (want_test : Bool) → Db
    → List Candidate
    → Action Redis (List Candidate)
unfolding filter_eligible in_mode
for_mode limit now mode want_test db cs = do
  eligible ← filter_eligible limit now want_test db cs
  pure (keep (λ (c : Candidate). in_mode mode (find c.driver_id db.profiles)) eligible)
