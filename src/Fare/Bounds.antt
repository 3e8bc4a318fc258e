-- ===== src/Fare/Bounds.antt =====
-- The fare against the exact price, and its order in the distance.
use novax_backend.Common.{ℕ, ◌+◌, ◌*◌, ◌%◌, ◌≤◌, ◌<◌, ◌≡◌, refl, ◌⊎◌, max, Option, arith}
use novax_backend.Fare.{FareKind, fare_config, raw_fare, round_to_five, estimate_fare}

-- What the fare of `kind` promises against the exact price `raw`, in thousandths of a rupee.
pub record IsFairPrice (kind : FareKind) (raw fare : ℕ) : Type 0 where
  pub at_least_minimum : (fare_config kind).minimum ≤ fare
  pub no_small_change : fare % 5 ≡ 0
  pub not_over : (fare ≡ (fare_config kind).minimum) ⊎ (fare * 1000 ≤ raw + 2500)
  pub not_under : raw < fare * 1000 + 2500

-- The rounding for any minimum that is itself a multiple of five.
fair_max :
    (m raw : ℕ)
    → m % 5 ≡ 0
    → let fare = max m (round_to_five raw) in
      (m ≤ fare)
      × (fare % 5 ≡ 0)
      × ((fare ≡ m) ⊎ (fare * 1000 ≤ raw + 2500))
      × (raw < fare * 1000 + 2500)
unfolding round_to_five
fair_max m raw h = omega arith

minimum_of_fives : (kind : FareKind) → (fare_config kind).minimum % 5 ≡ 0
minimum_of_fives FareKind.bike = refl
minimum_of_fives FareKind.rickshaw = refl
minimum_of_fives FareKind.car = refl
minimum_of_fives FareKind.parcel = refl
minimum_of_fives FareKind.food = refl
minimum_of_fives FareKind.errand = refl

-- For every kind of job, distance and duration, the fare is at least the minimum, is a multiple of
-- five rupees, and lies within two and a half rupees of the exact price unless it is the minimum,
-- in which case it is not more than that below the exact price.
pub estimate_fare-IsFairPrice :
    (kind : FareKind) (distance : ℕ) (duration : Option ℕ)
    → IsFairPrice kind (raw_fare kind distance duration) (estimate_fare kind distance duration)
unfolding estimate_fare
estimate_fare-IsFairPrice kind d t =
    let (low, fives, over, under) =
      fair_max (fare_config kind).minimum (raw_fare kind d t) (minimum_of_fives kind) in
    record { at_least_minimum = low; no_small_change = fives; not_over = over; not_under = under }

round_to_five_mono : (a b : ℕ) → a ≤ b → round_to_five a ≤ round_to_five b
unfolding round_to_five
round_to_five_mono a b h = omega arith

raw_fare_mono :
    (kind : FareKind) (d e : ℕ) (t : Option ℕ) → d ≤ e → raw_fare kind d t ≤ raw_fare kind e t
unfolding raw_fare
raw_fare_mono FareKind.bike d e t h = omega arith
raw_fare_mono FareKind.rickshaw d e t h = omega arith
raw_fare_mono FareKind.car d e t h = omega arith
raw_fare_mono FareKind.parcel d e t h = omega arith
raw_fare_mono FareKind.food d e t h = omega arith
raw_fare_mono FareKind.errand d e t h = omega arith

pub estimate_fare_mono :
    (kind : FareKind) (d e : ℕ) (t : Option ℕ)
    → d ≤ e
    → estimate_fare kind d t ≤ estimate_fare kind e t
unfolding estimate_fare
estimate_fare_mono kind d e t h =
    omega (
      arith,
      round_to_five_mono (raw_fare kind d t) (raw_fare kind e t) (raw_fare_mono kind d e t h),
    )
