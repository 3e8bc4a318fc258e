-- ===== src/Dispatch/Weights.antt =====
-- How much the parts of a score weigh against one another.
use novax_backend.Common.{ℕ, ◌+◌, ◌*◌, ◌≤◌, ◌<◌, ◌↔◌, ◌≡◌, refl, Option, none, some, arith}
use novax_backend.Dispatch.{
  DriverScoreInput, whole, distance_part, acceptance_part, reliability_part, rating_part, idle_part,
  reputation, score_driver,
}

acceptance_part-le : (r : Option ℕ) → acceptance_part r ≤ whole
unfolding acceptance_part
acceptance_part-le none = omega arith
acceptance_part-le (some r) = omega arith

reliability_part-le : (r : Option ℕ) → reliability_part r ≤ whole
unfolding reliability_part
reliability_part-le none = omega arith
reliability_part-le (some r) = omega arith

rating_part-le : (r : Option ℕ) → rating_part r ≤ whole
unfolding rating_part
rating_part-le none = omega arith
rating_part-le (some r) = omega arith

idle_part-le : (r : Option ℕ) → idle_part r ≤ whole
unfolding idle_part
idle_part-le none = omega arith
idle_part-le (some r) = omega arith

reputation-le : (i : DriverScoreInput) → reputation i ≤ 30 * whole
unfolding reputation
reputation-le i = omega (
  arith,
  acceptance_part-le i.acceptance_rate,
  reliability_part-le i.cancellation_rate,
  rating_part-le i.rating,
  idle_part-le i.idle,
)

-- Every score lies between 0 and 1; of two drivers with the same record the nearer one never
-- scores less; and of two drivers with any records, one that is at least 2143 metres nearer, both
-- within the cap of 5 km, scores at least as much.
pub score_driver_bounds :
    (i j : DriverScoreInput)
    → (score_driver i ≤ 100 * whole)
      × (reputation i ≡ reputation j → i.distance ≤ j.distance → score_driver j ≤ score_driver i)
      × (i.distance + 2143 ≤ j.distance → j.distance ≤ 5000 → score_driver j ≤ score_driver i)
unfolding score_driver distance_part
score_driver_bounds i j = (
  omega (arith, reputation-le i),
  λ same near. omega arith,
  λ near cap. omega (arith, reputation-le j),
)

-- A driver with neither history nor rating scores 16 of the 30 points beside distance, so that no
-- driver more than a kilometre further away, both within the cap, is ever ranked higher.
pub newcomer_keeps_nearby_job :
    (i j : DriverScoreInput)
    → i.acceptance_rate ≡ none
    → i.cancellation_rate ≡ none
    → i.rating ≡ none
    → i.idle ≡ none
    → i.distance + 1000 ≤ j.distance
    → j.distance ≤ 5000
    → (reputation i ≡ 16 * whole) × (score_driver j ≤ score_driver i)
unfolding score_driver distance_part reputation acceptance_part reliability_part rating_part
    idle_part
newcomer_keeps_nearby_job i j a c r d near cap =
    let e : reputation i ≡ 16 * whole = rw (a, c, r, d) refl in
    (e, omega (arith, e, reputation-le j))

-- The whole of reputation is worth 2143 metres: a driver with a full record outranks one with
-- none, neither of them past the cap, exactly when the way is less than that much longer.
pub reputation_worth :
    (i j : DriverScoreInput)
    → reputation i ≡ 0
    → reputation j ≡ 30 * whole
    → i.distance ≤ j.distance
    → j.distance ≤ 5000
    → (score_driver i < score_driver j) ↔ (j.distance < i.distance + 2143)
unfolding score_driver distance_part
reputation_worth i j a b near cap = (λ h. omega arith, λ h. omega arith)
