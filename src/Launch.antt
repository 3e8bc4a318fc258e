-- ===== src/Launch.antt =====
-- launch/launch-policy.service.ts: what the pilot takes.
--
-- The environment's values are the fields of `Policy`. The distance of a pickup from the centre of
-- the zone and the hour in the zone's time are arguments: they come from the geodesic formula and
-- from the system's calendar.
pub mod Hours
mod Tests
use novax_backend.Common.{
  ℕ, Bool, true, false, not, ◌&&◌, ◌||◌, Option, none, some, List, [], ◌∷◌, leb, ltb, if◌then◌else◌,
}
use novax_backend.Common.Action.{
  Action, Result, ok, err, forbidden, bad_request, raise_if, ◌>>=◌, ◌>>◌,
}
use novax_backend.Schema.Enums.{VehicleType, FareType}

pub data ParkedService : Type 0 where
  rides food delivery errands : ParkedService

pub record Policy : Type 0 where
  pub rides_enabled : Bool
  pub food_enabled : Bool
  pub delivery_enabled : Bool
  pub errands_enabled : Bool
  pub allowed_vehicle_types : List VehicleType
  pub allow_bid_fare : Bool
  pub zone_enabled : Bool
  pub zone_radius : ℕ
  pub hours_enabled : Bool
  pub open_hour : ℕ
  pub close_hour : ℕ

-- The defaults of the code, with the radius in metres.
abbrev pub default_policy : Policy
default_policy = record {
  rides_enabled = true;
  food_enabled = false;
  delivery_enabled = true;
  errands_enabled = true;
  allowed_vehicle_types = VehicleType.bike ∷ [];
  allow_bid_fare = false;
  zone_enabled = true;
  zone_radius = 45_000;
  hours_enabled = false;
  open_hour = 8;
  close_hour = 22;
}

unfoldable pub is_service_enabled : Policy → ParkedService → Bool
is_service_enabled p ParkedService.rides = p.rides_enabled
is_service_enabled p ParkedService.food = p.food_enabled
is_service_enabled p ParkedService.delivery = p.delivery_enabled
is_service_enabled p ParkedService.errands = p.errands_enabled

vehicle_is : VehicleType → VehicleType → Bool
vehicle_is VehicleType.bike VehicleType.bike = true
vehicle_is VehicleType.rickshaw VehicleType.rickshaw = true
vehicle_is VehicleType.car VehicleType.car = true
vehicle_is _ _ = false

pub allows_vehicle : List VehicleType → VehicleType → Bool
unfolding vehicle_is
allows_vehicle [] v = false
allows_vehicle (w ∷ ws) v = vehicle_is w v || allows_vehicle ws v

abbrev pub is_bid : Option FareType → Bool
is_bid (some FareType.bid) = true
is_bid _ = false

-- `isOpenNow`
unfoldable pub is_open_at : Policy → (hour : ℕ) → Bool
is_open_at p hour =
    not p.hours_enabled
    || (if leb p.open_hour p.close_hour
        then leb p.open_hour hour && ltb hour p.close_hour
        else leb p.open_hour hour || ltb hour p.close_hour)

-- `assertWithinZone`
abbrev pub outside_zone : Policy → (from_centre : ℕ) → Bool
outside_zone p from_centre = p.zone_enabled && ltb p.zone_radius from_centre

pub record RideRequest : Type 0 where
  pub vehicle_type : VehicleType
  pub fare_type : Option FareType
  pub from_centre : ℕ
  pub hour : ℕ

-- `assertRideAllowed`
unfoldable pub assert_ride_allowed : {S : Type 0} → Policy → RideRequest → Action S (Unit {0})
unfolding is_service_enabled allows_vehicle is_open_at
assert_ride_allowed p request = do
  raise_if (not (is_service_enabled p ParkedService.rides)) forbidden
  raise_if (not (allows_vehicle p.allowed_vehicle_types request.vehicle_type)) bad_request
  raise_if (not p.allow_bid_fare && is_bid request.fare_type) bad_request
  raise_if (outside_zone p request.from_centre) bad_request
  raise_if (not (is_open_at p request.hour)) bad_request
