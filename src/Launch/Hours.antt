-- ===== src/Launch/Hours.antt =====
-- The opening hours as an arc of the clock, and the whole of the policy.
use novax_backend.Common.{ℕ, ◌+◌, ◌-◌, ◌%◌, ◌<◌, ◌≡◌, ◌↔◌, ◌⊎◌, true, false, arith}
use novax_backend.Common.Action.{ok, err, forbidden}
use novax_backend.Launch.{
  Policy, ParkedService, RideRequest, is_service_enabled, allows_vehicle, is_bid, is_open_at,
  outside_zone, assert_ride_allowed,
}

-- With the hours enforced, the service is open at an hour of the day exactly when, counting from
-- the opening hour around the clock, it comes before the closing hour. This holds of a window
-- within a day and of one over midnight; a window of no length is never open.
pub is_open_at-arc :
    (p : Policy) (hour : ℕ)
    → p.hours_enabled ≡ true
    → p.open_hour < 24
    → p.close_hour < 24
    → hour < 24
    → (is_open_at p hour ≡ true)
      ↔ ((hour + 24 - p.open_hour) % 24 < (p.close_hour + 24 - p.open_hour) % 24)
unfolding is_open_at
is_open_at-arc p hour e o c h = ground arith

-- A ride is let through exactly when rides are on, its vehicle is one of the pilot's, its fare is
-- fixed or bids are on, its pickup is in the zone, and the service is open; nothing is changed by
-- the check, and with rides off the refusal is the one of a service that is not there yet.
pub assert_ride_allowed_iff :
    {S : Type 0} (p : Policy) (request : RideRequest) (s : S)
    → let (r, s') = assert_ride_allowed p request s in
      (r ≡ ok tt
        ↔ (is_service_enabled p ParkedService.rides ≡ true)
          × (allows_vehicle p.allowed_vehicle_types request.vehicle_type ≡ true)
          × ((p.allow_bid_fare ≡ true) ⊎ (is_bid request.fare_type ≡ false))
          × (outside_zone p request.from_centre ≡ false)
          × (is_open_at p request.hour ≡ true))
      × (s' ≡ s)
      × (is_service_enabled p ParkedService.rides ≡ false → r ≡ err forbidden)
unfolding assert_ride_allowed
assert_ride_allowed_iff p request s = (ground arith, ground arith, λ off. ground arith)
