-- ===== src/Fare/Tests.antt =====
-- Fares of trips/fare.util.ts at given distances, and the theorems at concrete inputs.
use novax_backend.Common.{◌≡◌, refl, none, some}
use novax_backend.Fare.{FareKind, DistanceSource, raw_fare, estimate_fare, resolve_distance}
use novax_backend.Fare.Bounds.{IsFairPrice, estimate_fare-IsFairPrice}

-- 6.1 km by bike: 60 + 134.2 = 194.2, and 195 is charged.
six_km : estimate_fare FareKind.bike 6100 none ≡ 195
unfolding estimate_fare
six_km = refl

short_hop : estimate_fare FareKind.bike 500 none ≡ 150
unfolding estimate_fare
short_hop = refl

-- A claim of 200 m for a straight line of 5 km is not honoured.
implausible : resolve_distance 5000 (some 200) ≡ (7000, DistanceSource.estimated)
unfolding resolve_distance
implausible = refl

estimate_fare-IsFairPrice_example :
    IsFairPrice FareKind.car
      (raw_fare FareKind.car 4000 (some 1250))
      (estimate_fare FareKind.car 4000 (some 1250))
estimate_fare-IsFairPrice_example = estimate_fare-IsFairPrice FareKind.car 4000 (some 1250)
