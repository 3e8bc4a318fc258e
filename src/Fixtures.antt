-- ===== src/Fixtures.antt =====
-- Rows of the schema for the examples: a rider (1), two drivers (2 and 3), a ride (10), a parcel
-- (20) a food order (30) of the rider's, from a restaurant (4), and an errand (40).
use novax_backend.Common.{true, false, none, some, List, [], ◌∷◌}
use novax_backend.Common.Int.{pos}
use novax_backend.Common.Text.{codes}
use novax_backend.Schema.Enums.{
  Role, KycStatus, DriverMode, VehicleType, FareType, TripStatus, DeliveryStatus, FoodOrderStatus,
  EntryType, ErrandStatus, RestaurantStatus,
}
use novax_backend.Schema.Rows.{
  User, Documents, DriverProfile, Trip, Delivery, FoodOrder, Restaurant, Errand, JobRef,
  LedgerEntry,
}
use novax_backend.Schema.Db.{Db}
use novax_backend.Fare.{DistanceSource}
use novax_backend.Dispatch.{Candidate}

abbrev pub rider : User
rider = record {
  phone = codes "+923001234567";
  name = some (codes "Sana");
  last_name = none;
  email = some (codes "sana@example.com");
  password_hash = none;
  address = none;
  role = Role.rider;
  kyc_status = KycStatus.pending;
  is_active = true;
  is_test_account = false;
  rating = 500;
  loyalty_points = 190;
  referral_code = none;
  referred_by_id = none;
}

abbrev pub driver : User
driver = record rider { role = Role.driver; kyc_status = KycStatus.approved; rating = 470 }

abbrev pub documents : Documents
documents = record {
  vehicle_type = codes "bike";
  vehicle_plate = some (codes "KHI-1234");
  cnic_number = some (codes "42101-1234567-1");
  cnic_front_url = none;
  cnic_back_url = none;
  license_doc_url = none;
  license_front_url = none;
  license_back_url = none;
  vehicle_doc_url = none;
  vehicle_photo_url = none;
  service_zone = none;
  payout_account_name = none;
  payout_account_number = none;
  emergency_contact_name = none;
  emergency_contact_phone = none;
}

abbrev pub profile : DriverProfile
profile = record {
  documents = documents;
  submitted_for_review_at = none;
  is_online = true;
  active_mode = DriverMode.ride;
  offers_sent = 12;
  offers_accepted = 9;
  offers_declined = 2;
  trips_cancelled = 1;
  last_offer_at = some 900_000;
  last_completed_at = some 800_000;
  last_heartbeat_at = some 990_000;
}

-- Being offered since second 900, with nobody's accept yet.
abbrev pub ride : Trip
ride = record {
  rider_id = 1;
  driver_id = none;
  status = TripStatus.matching;
  vehicle_type = VehicleType.bike;
  fare_type = FareType.fixed;
  distance = 7000;
  distance_source = DistanceSource.routed;
  fare = some 21_500;
  quoted_fare = some 21_500;
  accepted_fare = some 21_500;
  final_fare = none;
  offered_fare = none;
  tip_amount = some 2000;
  fare_drifted_at = none;
  is_test = false;
  offer_count = 1;
  no_driver_found_at = none;
  ops_alerted_at = none;
  ops_escalated_at = none;
  requested_at = 900_000;
  matched_at = none;
  started_at = none;
  completed_at = none;
  cancelled_at = none;
  cancelled_by = none;
  cancellation_fee = none;
}

abbrev pub matched_ride : Trip
matched_ride = record ride {
  status = TripStatus.matched;
  driver_id = some 2;
  matched_at = some 910_000;
}

abbrev pub started_ride : Trip
started_ride = record matched_ride { status = TripStatus.in_progress; started_at = some 950_000 }

abbrev pub parcel : Delivery
parcel = record {
  sender_id = 1;
  driver_id = some 2;
  status = DeliveryStatus.matching;
  distance = 7000;
  fare = some 21_500;
  cod_amount = some 50_000;
  matched_at = none;
  picked_up_at = none;
  delivered_at = none;
  cancelled_at = none;
}

abbrev pub carried_parcel : Delivery
carried_parcel = record parcel { status = DeliveryStatus.picked_up; picked_up_at = some 950_000 }

abbrev pub order : FoodOrder
order = record {
  customer_id = 1;
  restaurant_id = 4;
  driver_id = none;
  status = FoodOrderStatus.placed;
  items_total = 90_000;
  delivery_fee = 12_000;
  total = 102_000;
  items = [];
}

abbrev pub errand : Errand
errand = record {
  requester_id = 1;
  driver_id = none;
  status = ErrandStatus.requested;
  service_fee = 18_000;
  actual_spend = none;
}

abbrev pub restaurant : Restaurant
restaurant = record {
  owner_id = 5;
  status = RestaurantStatus.approved;
  is_open = true;
  commission_rate = 2000;
}

-- What driver 2 was paid for an earlier trip.
abbrev pub old_payout : LedgerEntry
old_payout = record {
  user_id = 2;
  entry_type = EntryType.trip_payout;
  job = JobRef.trip_job 9;
  gross_amount = 20_000;
  commission_rate = 1500;
  commission_amount = 3000;
  net_amount = pos 17_000;
  created_at = 500_000;
}

-- The state around one ride.
abbrev pub state : Trip → Db
state t = record {
  users = (1, rider) ∷ (2, driver) ∷ (3, driver) ∷ [];
  profiles = (2, profile) ∷ (3, profile) ∷ [];
  trips = (10, t) ∷ [];
  deliveries = [];
  restaurants = [];
  menu_items = [];
  food_orders = [];
  errands = [];
  ledger = old_payout ∷ [];
  excluded = [];
  events = [];
  sent = [];
  ratings = [];
  otp_codes = [];
  refresh_tokens = [];
  revoked = [];
  chat_messages = [];
  incidents = [];
  alerts = [];
}

abbrev pub parcel_state : Delivery → Db
parcel_state x = record (state ride) { trips = []; deliveries = (20, x) ∷ [] }

abbrev pub order_state : FoodOrder → Db
order_state o = record (state ride) {
  trips = [];
  restaurants = (4, restaurant) ∷ [];
  food_orders = (30, o) ∷ [];
}

abbrev pub errand_state : Errand → Db
errand_state e = record (state ride) { trips = []; errands = (40, e) ∷ [] }

-- Both drivers, the nearer one first.
abbrev pub nearby : List Candidate
nearby = record { driver_id = 2; distance = 400 } ∷ record { driver_id = 3; distance = 900 } ∷ []
