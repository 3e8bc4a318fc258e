-- ===== src/Ratings.antt =====
-- ratings/ratings.service.ts, and its callers `rateTrip`, `rateDelivery` and `rateOrder` of the
-- services of the jobs. Comments, and the listing for a profile, are left out. Scores are whole
-- stars, averages hundredths of a star.
pub mod Average
pub mod Jobs
mod Tests
use novax_backend.Common.{
  ℕ, ◌+◌, ◌*◌, ◌/◌, Bool, true, false, not, ◌&&◌, ◌||◌, ◌==◌, Option, none, some, List, [], ◌∷◌,
  is_some_of, if◌then◌else◌,
}
use novax_backend.Common.Action.{
  Action, Result, ok, err, forbidden, bad_request, not_found, pure, gets, or_raise, raise_if,
  modify, ◌>>=◌, ◌>>◌,
}
use novax_backend.Common.Table.{Table, find, create, update}
use novax_backend.Schema.Enums.{TripStatus, DeliveryStatus, FoodOrderStatus}
use novax_backend.Schema.Rows.{User, Rating}
use novax_backend.Schema.Db.{Db, MatchScope}
use novax_backend.Trips.{get_trip_or_404}
use novax_backend.Deliveries.{get_delivery_or_404}
use novax_backend.FoodOrders.{get_order_or_404}

abbrev same_key : Option ℕ → Option ℕ → Bool
same_key none _ = false
same_key (some k) o = is_some_of k o

-- The unique keys: one rating for a trip, a delivery and an order.
unfoldable pub clashes : Rating → Rating → Bool
clashes a b =
    same_key a.trip_id b.trip_id
    || same_key a.delivery_id b.delivery_id
    || same_key a.food_order_id b.food_order_id

unfoldable pub clashes_any : Rating → Table Rating → Bool
unfolding clashes
clashes_any a [] = false
clashes_any a ((_, b) ∷ rows) = clashes a b || clashes_any a rows

-- `_sum` and `_count` over the rows of one ratee
unfoldable pub total_score : (ratee : ℕ) → Table Rating → ℕ
total_score ratee [] = 0
total_score ratee ((_, r) ∷ rows) =
    (if r.ratee_id == ratee then r.score else 0) + total_score ratee rows

unfoldable pub count_ratings : (ratee : ℕ) → Table Rating → ℕ
count_ratings ratee [] = 0
count_ratings ratee ((_, r) ∷ rows) =
    (if r.ratee_id == ratee then 1 else 0) + count_ratings ratee rows

-- `Math.round(average * 100) / 100`, and 5 where there is no rating
unfoldable pub average_of : (total count : ℕ) → ℕ
average_of total count = if count == 0 then 500 else (200 * total + count) / (2 * count)

abbrev pub rated : ℕ → User → User
rated rating u = record u { rating = rating }

-- `recalculateAverage`
unfoldable pub recalculate_average : (user : ℕ) → Action Db (Unit {0})
unfolding average_of total_score count_ratings
recalculate_average user db = (
  ok tt,
  record db {
    users =
        update user
          (rated (average_of (total_score user db.ratings) (count_ratings user db.ratings)))
          db.users;
  },
)

unfoldable pub rate : (row : ℕ) → Rating → Action Db (Unit {0})
unfolding clashes_any recalculate_average
rate row input = do
  raise_if (input.rater_id == input.ratee_id) bad_request
  taken ← gets (λ db. clashes_any input db.ratings)
  raise_if taken bad_request
  modify (λ db. record db { ratings = create row input db.ratings })
  recalculate_average input.ratee_id

abbrev pub trip_rating : (trip rater ratee score : ℕ) → Rating
trip_rating k rater ratee score = record {
  trip_id = some k;
  delivery_id = none;
  food_order_id = none;
  rater_id = rater;
  ratee_id = ratee;
  score = score;
}

abbrev pub delivery_rating : (delivery rater ratee score : ℕ) → Rating
delivery_rating k rater ratee score = record {
  trip_id = none;
  delivery_id = some k;
  food_order_id = none;
  rater_id = rater;
  ratee_id = ratee;
  score = score;
}

abbrev pub order_rating : (order rater ratee score : ℕ) → Rating
order_rating k rater ratee score = record {
  trip_id = none;
  delivery_id = none;
  food_order_id = some k;
  rater_id = rater;
  ratee_id = ratee;
  score = score;
}

abbrev pub is_completed : TripStatus → Bool
is_completed TripStatus.completed = true
is_completed _ = false

abbrev pub is_handed_over : DeliveryStatus → Bool
is_handed_over DeliveryStatus.delivered = true
is_handed_over _ = false

abbrev pub is_delivered : FoodOrderStatus → Bool
is_delivered FoodOrderStatus.delivered = true
is_delivered _ = false

unfoldable pub rate_trip : (row trip rater score : ℕ) → Action Db (Unit {0})
unfolding get_trip_or_404 rate
rate_trip row k rater score = do
  trip ← get_trip_or_404 k
  raise_if (not (trip.rider_id == rater)) forbidden
  raise_if (not (is_completed trip.status)) bad_request
  driver ← or_raise trip.driver_id bad_request
  rate row (trip_rating k rater driver score)

unfoldable pub rate_delivery : (row delivery rater score : ℕ) → Action Db (Unit {0})
unfolding get_delivery_or_404 rate
rate_delivery row k rater score = do
  delivery ← get_delivery_or_404 k
  raise_if (not (delivery.sender_id == rater)) forbidden
  raise_if (not (is_handed_over delivery.status)) bad_request
  driver ← or_raise delivery.driver_id bad_request
  rate row (delivery_rating k rater driver score)

unfoldable pub rate_order : (row order rater score : ℕ) → Action Db (Unit {0})
unfolding get_order_or_404 rate
rate_order row k rater score = do
  order ← get_order_or_404 k
  raise_if (not (order.customer_id == rater)) forbidden
  raise_if (not (is_delivered order.status)) bad_request
  driver ← or_raise order.driver_id bad_request
  rate row (order_rating k rater driver score)
