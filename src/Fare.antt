-- ===== src/Fare.antt =====
-- trips/fare.util.ts: the price list and the fare of a distance; and from trips/trips.service.ts
-- the choice of the distance that a trip is priced on.
--
-- Distances are whole metres and durations hundredths of a minute, so that every rate of the price
-- list gives whole thousandths of a rupee. Fares are whole rupees.
pub mod Bounds
pub mod Distance
mod Tests
use novax_backend.Common.{
  ℕ, ◌+◌, ◌*◌, ◌/◌, max, Bool, ◌&&◌, Option, none, some, leb, ltb, if◌then◌else◌,
}

-- The keys of `FARE_CONFIG`.
pub data FareKind : Type 0 where
  bike rickshaw car parcel food errand : FareKind

-- `per_min` is in tenths of a rupee; the rest is in rupees.
pub record FareConfig : Type 0 where
  pub base : ℕ
  pub per_km : ℕ
  pub per_min : ℕ
  pub minimum : ℕ

abbrev pub fare_config : FareKind → FareConfig
fare_config FareKind.bike = record { base = 60; per_km = 22; per_min = 0; minimum = 150 }
fare_config FareKind.rickshaw = record { base = 60; per_km = 7; per_min = 15; minimum = 100 }
fare_config FareKind.car = record { base = 100; per_km = 12; per_min = 20; minimum = 200 }
fare_config FareKind.parcel = record { base = 60; per_km = 22; per_min = 0; minimum = 150 }
fare_config FareKind.food = record { base = 50; per_km = 22; per_min = 0; minimum = 120 }
fare_config FareKind.errand = record { base = 80; per_km = 22; per_min = 0; minimum = 180 }

-- `perMin > 0 && durationMinutes ? durationMinutes * perMin : 0`, in thousandths of a rupee
pub time_component : ℕ → Option ℕ → ℕ
time_component per_min none = 0
time_component per_min (some minutes) = if ltb 0 per_min then minutes * per_min else 0

-- `base + distanceKm * perKm + timeComponent`, in thousandths of a rupee
pub raw_fare : FareKind → ℕ → Option ℕ → ℕ
unfolding time_component
raw_fare kind distance duration =
    let cfg = fare_config kind in
    cfg.base * 1000 + distance * cfg.per_km + time_component cfg.per_min duration

-- `Math.round(x / 5) * 5` rounds a half up.
pub round_to_five : ℕ → ℕ
round_to_five milli = (milli + 2500) / 5000 * 5

unfoldable pub estimate_fare : FareKind → ℕ → Option ℕ → ℕ
unfolding raw_fare round_to_five
estimate_fare kind distance duration =
    max (fare_config kind).minimum (round_to_five (raw_fare kind distance duration))

-- `DETOUR_FACTOR` is 1.4.
unfoldable pub road_estimate_from_straight_line : ℕ → ℕ
road_estimate_from_straight_line straight = straight * 14 / 10

pub data DistanceSource : Type 0 where
  routed estimated : DistanceSource

-- A claimed road distance between 0.98 and 3 times the straight line.
pub plausible : ℕ → ℕ → Bool
plausible straight claimed = leb (straight * 98) (claimed * 100) && leb claimed (straight * 3)

-- The distance that `createTrip` prices, and where it is from.
unfoldable pub resolve_distance : ℕ → Option ℕ → ℕ × DistanceSource
unfolding plausible road_estimate_from_straight_line
resolve_distance straight none =
    (road_estimate_from_straight_line straight, DistanceSource.estimated)
resolve_distance straight (some claimed) =
    if plausible straight claimed
    then (claimed, DistanceSource.routed)
    else (road_estimate_from_straight_line straight, DistanceSource.estimated)
