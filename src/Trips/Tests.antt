-- ===== src/Trips/Tests.antt =====
-- The operations of trips at a concrete ride.
use novax_backend.Common.{
  ℕ, ◌≤◌, ◌≡◌, refl, ◌↔◌, ◌⊎◌, true, false, Bool, none, some, List, [], ◌∷◌, length, All, ◌&&◌,
}
use novax_backend.Common.Action.{Error, ok, err, conflict, forbidden, bad_request}
use novax_backend.Common.Table.{find}
use novax_backend.Schema.Enums.{VehicleType}
use novax_backend.Schema.Rows.{Trip}
use novax_backend.Schema.Db.{Db}
use novax_backend.Fixtures.{ride, matched_ride, started_ride, state, nearby}
use novax_backend.Dispatch.{Candidate}
use novax_backend.Launch.{default_policy, is_bid, assert_ride_allowed}
use novax_backend.Trips.{is_cancellable, is_searching}
use novax_backend.Trips.Rides.{accept_trip, matched_by, start_trip, start_write, started_at_time}
use novax_backend.Trips.Rides.Claims.{
  IsOpen, IsTaken, accept_trip_claims, accept_all, winners, accept_all_one_winner,
}
use novax_backend.Trips.Completion.{complete_trip, complete_write}
use novax_backend.Trips.Completion.Once.{
  IsSettlement, complete_trip-IsSettlement, complete_write_once,
}
use novax_backend.Trips.Cancelling.{is_party, cancel_trip, cancelled_row}
use novax_backend.Trips.Cancelling.Answers.{IsCancelled, cancel_trip_answers}
use novax_backend.Trips.Booking.{CreateTrip, no_amount, create_trip}
use novax_backend.Trips.Booking.Fares.{IsBooked, create_trip_books}
use novax_backend.Trips.Matching.{search_radii, chosen, eligible, timeout_write, offer_timeout}
use novax_backend.Trips.Matching.Offers.{IsFree, chosen-IsBroadcast}
use novax_backend.Trips.Races.{start_trip_revives_cancelled, offer_timeout_undoes_accept}

accept_trip_claims_example :
    let (r, db') = accept_trip 10 2 910_000 (state ride) in
    ((t : Trip) × IsOpen 10 (state ride) t × IsTaken 10 2 910_000 t r db')
    ⊎ (¬ ((t : Trip) × IsOpen 10 (state ride) t)) × (r ≡ err conflict) × (db' ≡ state ride)
accept_trip_claims_example = accept_trip_claims 10 2 910_000 (state ride)

accept_all_one_winner_example :
    let (rs, db') = accept_all 10 (2 ∷ 3 ∷ 2 ∷ []) 910_000 (state ride) in
    (winners rs ≡ 1) × (find 10 db'.trips ≡ some matched_ride)
unfolding find
accept_all_one_winner_example =
    accept_all_one_winner 10 2 (3 ∷ 2 ∷ []) 910_000 (state ride) ride (refl, refl, refl)

complete_trip-IsSettlement_example :
    let (r, db') = complete_trip 10 2 1_500_000 (state started_ride) in
    IsSettlement 10 2 1_500_000 started_ride (state started_ride) r db'
unfolding find
complete_trip-IsSettlement_example =
    complete_trip-IsSettlement 10 2 1_500_000 (state started_ride) started_ride refl refl refl

complete_write_once_example :
    let db' = (complete_write 10 2 1_500_000 started_ride (state started_ride)).1 in
    (complete_write 10 2 1_500_400 started_ride db').1 ≡ db'
complete_write_once_example =
    complete_write_once 10 2 2 1_500_000 1_500_400 started_ride started_ride (state started_ride)

cancel_trip_answers_example :
    let (r, db') = cancel_trip 10 2 960_000 (state matched_ride) in
    (is_party 2 matched_ride ≡ true)
      × (is_cancellable matched_ride.status ≡ true)
      × IsCancelled 10 2 960_000 matched_ride (state matched_ride) r db'
    ⊎ (is_party 2 matched_ride ≡ false) × (r ≡ err forbidden) × (db' ≡ state matched_ride)
    ⊎ (is_party 2 matched_ride ≡ true)
      × (is_cancellable matched_ride.status ≡ false)
      × (r ≡ err bad_request)
      × (db' ≡ state matched_ride)
unfolding find
cancel_trip_answers_example =
    cancel_trip_answers 10 2 960_000 (state matched_ride) matched_ride refl

-- A claim of two kilometres for a straight line of five.
abbrev short_claim : CreateTrip
short_claim = record {
  request = record {
    vehicle_type = VehicleType.bike;
    fare_type = none;
    from_centre = 12_000;
    hour = 21;
  };
  straight_line = 5000;
  road_distance = some 2000;
  road_duration = none;
  offered_fare = none;
  tip_amount = some 2000;
}

create_trip_books_example :
    let (r, db') = create_trip default_policy 11 1 950_000 short_claim (state ride) in
    ((t : Trip) × (r ≡ ok t)
      × (find 11 db'.trips ≡ some t)
      × ((assert_ride_allowed default_policy short_claim.request (state ride)).0 ≡ ok tt)
      × IsBooked 1 short_claim (state ride) t)
    ⊎ (e : Error) × (r ≡ err e)
      × (db' ≡ state ride)
      × (((assert_ride_allowed default_policy short_claim.request (state ride)).0 ≡ err e)
          ⊎ ((is_bid short_claim.request.fare_type && no_amount short_claim.offered_fare) ≡ true))
create_trip_books_example = create_trip_books default_policy 11 1 950_000 short_claim (state ride)

-- The search finds both drivers at every radius.
abbrev everywhere : (job radius : ℕ) → (want_test_fleet : Bool) → Db → List Candidate
everywhere job radius want_test_fleet db = nearby

chosen-IsBroadcast_example :
    let drivers = chosen everywhere 10 ride search_radii 950_000 (state ride) in
    (length drivers ≤ 3)
    × All (IsFree 10 (state ride)) drivers
    × (drivers ≡ []
        ↔ All (λ radius. eligible everywhere 10 ride radius (state ride) ≡ []) search_radii)
chosen-IsBroadcast_example = chosen-IsBroadcast everywhere 10 ride search_radii 950_000 (state ride)

start_trip_revives_cancelled_example :
    let (cancelling, db') = cancel_trip 10 1 950_000 (state matched_ride) in
    let (starting, db'') = start_write 10 2 950_010 matched_ride db' in
    let off = cancelled_row 1 950_000 matched_ride matched_ride in
    (start_trip 10 2 950_010 (state matched_ride)
      ≡ start_write 10 2 950_010 matched_ride (state matched_ride))
    × (cancelling ≡ ok off)
    × (starting ≡ ok (started_at_time 950_010 off))
    × (find 10 db''.trips ≡ some (started_at_time 950_010 off))
unfolding find
start_trip_revives_cancelled_example =
    start_trip_revives_cancelled 10 2 950_000 950_010 (state matched_ride) matched_ride refl refl
      refl

offer_timeout_undoes_accept_example :
    let (accepting, db') = accept_trip 10 2 915_000 (state ride) in
    let (r, db'') = timeout_write everywhere 10 (2 ∷ 3 ∷ []) 915_010 db' in
    (offer_timeout everywhere 10 (2 ∷ 3 ∷ []) 915_010 (state ride)
      ≡ timeout_write everywhere 10 (2 ∷ 3 ∷ []) 915_010 (state ride))
    × (accepting ≡ ok (matched_by 2 915_000 ride))
    × ((t : Trip) × (find 10 db''.trips ≡ some t) × (is_searching t.status ≡ true))
unfolding find
offer_timeout_undoes_accept_example =
    offer_timeout_undoes_accept everywhere 10 2 (2 ∷ 3 ∷ []) 915_000 915_010 (state ride) ride
      (refl, refl, refl)
