-- ===== src/Fare/Distance.antt =====
-- The distance that `createTrip` prices, against the one that a client claims.
use novax_backend.Common.{ℕ, ◌*◌, ◌/◌, ◌≤◌, ◌≡◌, ◌⊎◌, Option, none, some, arith}
use novax_backend.Fare.{
  FareKind, DistanceSource, estimate_fare, resolve_distance, road_estimate_from_straight_line,
}
use novax_backend.Fare.Bounds.{estimate_fare_mono}

pub resolve_distance_band :
    (straight : ℕ) (claimed : Option ℕ)
    → (straight * 98 ≤ (resolve_distance straight claimed).0 * 100)
      × ((resolve_distance straight claimed).0 ≤ straight * 3)
unfolding resolve_distance
resolve_distance_band s none = omega arith
resolve_distance_band s (some c) = ground arith

-- A distance is priced as routed only when it is the client's own claim and lies in the band; any
-- other is the server's estimate.
pub resolve_distance_source :
    (straight : ℕ) (claimed : Option ℕ)
    → (claimed ≡ some (resolve_distance straight claimed).0)
        × ((resolve_distance straight claimed).1 ≡ DistanceSource.routed)
      ⊎ ((resolve_distance straight claimed).0 ≡ road_estimate_from_straight_line straight)
        × ((resolve_distance straight claimed).1 ≡ DistanceSource.estimated)
unfolding resolve_distance
resolve_distance_source s none = ground arith
resolve_distance_source s (some c) = ground arith

-- Whatever road distance a client claims, the fare of the distance that is priced is at least the
-- fare of 98 per cent of the straight line, rounded down to a metre, and at most the fare of three
-- times the straight line.
pub claimed_fare_bounds :
    (kind : FareKind) (straight : ℕ) (claimed duration : Option ℕ)
    → let fare = estimate_fare kind (resolve_distance straight claimed).0 duration in
      (estimate_fare kind (straight * 98 / 100) duration ≤ fare)
      × (fare ≤ estimate_fare kind (straight * 3) duration)
claimed_fare_bounds kind s claimed t =
    let (low, high) = resolve_distance_band s claimed in
    let d = (resolve_distance s claimed).0 in
    (
      estimate_fare_mono kind (s * 98 / 100) d t (omega arith),
      estimate_fare_mono kind d (s * 3) t high,
    )
