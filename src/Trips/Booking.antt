-- ===== src/Trips/Booking.antt =====
-- The booking of a ride: `createTrip` of trips/trips.service.ts, up to the search that it starts.
--
-- Coordinates, labels and notes are left out; the straight line between the ends and the pickup's
-- distance from the centre are fields of the request. Rates give whole thousandths of a rupee and
-- fares whole rupees, as in Fare; the row has paisa.
pub mod Fares
use novax_backend.Common.{
  ℕ, ◌*◌, Bool, true, false, not, ◌&&◌, ◌==◌, Option, none, some, List, [], ◌∷◌, ltb, is_none,
  or_else, if◌then◌else◌,
}
use novax_backend.Common.Action.{
  Action, Result, ok, err, bad_request, pure, gets, raise_if, modify, ◌>>=◌, ◌>>◌,
}
use novax_backend.Common.Table.{find, create}
use novax_backend.Schema.Enums.{VehicleType, FareType, TripStatus}
use novax_backend.Schema.Rows.{User, Trip}
use novax_backend.Schema.Db.{Db, EventType, TripEvent, record_event}
use novax_backend.Fare.{FareKind, DistanceSource, estimate_fare, resolve_distance}
use novax_backend.Launch.{Policy, RideRequest, is_bid, assert_ride_allowed}
use novax_backend.Trips.Rides.{event}

-- `CreateTripDto`; amounts in paisa, distances in metres, the duration in hundredths of a minute
pub record CreateTrip : Type 0 where
  pub request : RideRequest
  pub straight_line : ℕ
  pub road_distance : Option ℕ
  pub road_duration : Option ℕ
  pub offered_fare : Option ℕ
  pub tip_amount : Option ℕ

pub fare_kind : VehicleType → FareKind
fare_kind VehicleType.bike = FareKind.bike
fare_kind VehicleType.rickshaw = FareKind.rickshaw
fare_kind VehicleType.car = FareKind.car

-- `!dto.offeredFare`
pub no_amount : Option ℕ → Bool
no_amount none = true
no_amount (some amount) = amount == 0

-- `dto.tipAmount && dto.tipAmount > 0 ? dto.tipAmount : null`
tip_of : Option ℕ → Option ℕ
tip_of none = none
tip_of (some tip) = if ltb 0 tip then some tip else none

-- `fare`
unfoldable pub booked_fare : CreateTrip → (distance : ℕ) → Option ℕ
unfolding fare_kind estimate_fare
booked_fare dto distance =
    if is_bid dto.request.fare_type
    then dto.offered_fare
    else some (estimate_fare (fare_kind dto.request.vehicle_type) distance dto.road_duration * 100)

-- `rider?.isTestAccount === true`
is_test_rider : Option User → Bool
is_test_rider none = false
is_test_rider (some u) = u.is_test_account

fare_type_of : Option FareType → FareType
fare_type_of none = FareType.fixed
fare_type_of (some type) = type

unfoldable pub new_trip : (rider now : ℕ) → CreateTrip → (is_test : Bool) → Trip
unfolding resolve_distance booked_fare tip_of fare_type_of
new_trip rider now dto is_test =
    let (distance, source) = resolve_distance dto.straight_line dto.road_distance in
    let fare = booked_fare dto distance in
    record {
      rider_id = rider;
      driver_id = none;
      status = TripStatus.requested;
      vehicle_type = dto.request.vehicle_type;
      fare_type = fare_type_of dto.request.fare_type;
      distance = distance;
      distance_source = source;
      fare = fare;
      quoted_fare = fare;
      accepted_fare = fare;
      final_fare = none;
      offered_fare = dto.offered_fare;
      tip_amount = tip_of dto.tip_amount;
      fare_drifted_at = none;
      is_test = is_test;
      offer_count = 0;
      no_driver_found_at = none;
      ops_alerted_at = none;
      ops_escalated_at = none;
      requested_at = now;
      matched_at = none;
      started_at = none;
      completed_at = none;
      cancelled_at = none;
      cancelled_by = none;
      cancellation_fee = none;
    }

abbrev quoted_event : ℕ → TripEvent
quoted_event trip = record { trip_id = trip; event_type = EventType.quoted; actor_id = none }

-- What follows the policy's check; the row gets the new key `k`.
book : (k rider now : ℕ) → CreateTrip → Action Db Trip
unfolding no_amount is_test_rider new_trip
book k rider now dto = do
  raise_if (is_bid dto.request.fare_type && no_amount dto.offered_fare) bad_request
  is_test ← gets (λ db. is_test_rider (find rider db.users))
  trip ← pure (new_trip rider now dto is_test)
  modify (λ db. record db { trips = create k trip db.trips })
  record_event (event k EventType.requested rider)
  record_event (quoted_event k)
  pure trip

unfoldable pub create_trip : Policy → (k rider now : ℕ) → CreateTrip → Action Db Trip
unfolding assert_ride_allowed book
create_trip policy k rider now dto = do assert_ride_allowed policy dto.request; book k rider now dto
