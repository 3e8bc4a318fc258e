-- ===== src/Trips/Booking/Fares.antt =====
-- What a booking promises: `createTrip`.
use novax_backend.Common.{
  ℕ, ◌*◌, ◌/◌, ◌≤◌, ◌<◌, ◌≡◌, refl, ap, ◌∙◌, ◌⊎◌, inl, inr, true, false, ◌&&◌, Bool-cases, Option,
  none, some, arith,
}
use novax_backend.Common.Action.{Error, ok, err, bad_request, Result-cases, bind-ok, bind-err}
use novax_backend.Common.Table.{find, find-create_self}
use novax_backend.Schema.Enums.{TripStatus}
use novax_backend.Schema.Rows.{User, Trip}
use novax_backend.Schema.Db.{Db}
use novax_backend.Fare.{estimate_fare}
use novax_backend.Fare.Distance.{claimed_fare_bounds}
use novax_backend.Launch.{Policy, is_bid, assert_ride_allowed}
use novax_backend.Launch.Hours.{assert_ride_allowed_iff}
use novax_backend.Trips.Completion.{drifted}
use novax_backend.Trips.Completion.Once.{drifted_same}
use novax_backend.Trips.Booking.{
  CreateTrip, fare_kind, no_amount, booked_fare, is_test_rider, new_trip, book, create_trip,
}

-- A row that a booking leaves.
pub record IsBooked (rider : ℕ) (dto : CreateTrip) (db : Db) (t : Trip) : Type 0 where
  pub owner : t.rider_id ≡ rider
  pub waiting : (t.status ≡ TripStatus.requested) × (t.driver_id ≡ none) × (t.offer_count ≡ 0)
  pub one_fare : (t.quoted_fare ≡ t.fare) × (t.accepted_fare ≡ t.fare) × (drifted t ≡ false)
  pub fleet : (u : User) → find rider db.users ≡ some u → t.is_test ≡ u.is_test_account
  pub fixed_fare :
      is_bid dto.request.fare_type ≡ false
      → (fare : ℕ) × (t.fare ≡ some fare)
        × (estimate_fare
                (fare_kind dto.request.vehicle_type)
                (dto.straight_line * 98 / 100)
                dto.road_duration
              * 100
            ≤ fare)
        × (fare
            ≤ estimate_fare
                (fare_kind dto.request.vehicle_type)
                (dto.straight_line * 3)
                dto.road_duration
              * 100)
  pub bid_fare :
      is_bid dto.request.fare_type ≡ true
      → (fare : ℕ) × (dto.offered_fare ≡ some fare) × (t.fare ≡ some fare) × (0 < fare)

offer_amount : (o : Option ℕ) → no_amount o ≡ false → (fare : ℕ) × (o ≡ some fare) × (0 < fare)
unfolding no_amount
offer_amount none e = cc
offer_amount (some n) e = (n, refl, ground arith)

new_trip-IsBooked :
    (rider now : ℕ) (dto : CreateTrip) (db : Db)
    → (is_bid dto.request.fare_type && no_amount dto.offered_fare) ≡ false
    → IsBooked rider dto db (new_trip rider now dto (is_test_rider (find rider db.users)))
unfolding new_trip is_test_rider booked_fare no_amount
new_trip-IsBooked rider now dto db bid =
    let kind = fare_kind dto.request.vehicle_type in
    let bounds = claimed_fare_bounds kind dto.straight_line dto.road_distance dto.road_duration in
    record {
      owner = refl;
      waiting = (refl, refl, refl);
      one_fare = (refl, refl, drifted_same _ refl);
      fleet = λ u e. rw e refl;
      fixed_fare = λ b. rw b (_, refl, omega (arith, bounds), omega (arith, bounds));
      bid_fare = λ b.
          let (fare, offer, some_money) = offer_amount dto.offered_fare (rw b at bid) in
          (fare, offer, rw b offer, some_money);
    }

book_lem :
    (k rider now : ℕ) (dto : CreateTrip) (db : Db)
    → (is_bid dto.request.fare_type && no_amount dto.offered_fare) ≡ false
    → let (r, db') = book k rider now dto db in
      let t = new_trip rider now dto (is_test_rider (find rider db.users)) in
      (r ≡ ok t) × (find k db'.trips ≡ some t)
unfolding book
book_lem k rider now dto db bid =
    let t = new_trip rider now dto (is_test_rider (find rider db.users)) in
    rw bid (refl, find-create_self k t db.trips)

book_refused :
    (k rider now : ℕ) (dto : CreateTrip) (db : Db)
    → (is_bid dto.request.fare_type && no_amount dto.offered_fare) ≡ true
    → book k rider now dto db ≡ (err bad_request, db)
unfolding book
book_refused k rider now dto db bid = rw bid refl

-- A method whose check leaves the state as it is.
checked :
    (policy : Policy) (k rider now : ℕ) (dto : CreateTrip) (db : Db)
    → (assert_ride_allowed policy dto.request db).0 ≡ ok tt
    → create_trip policy k rider now dto db ≡ book k rider now dto db
unfolding create_trip
checked policy k rider now dto db fine =
    bind-ok (λ _. book k rider now dto) db tt (assert_ride_allowed policy dto.request) fine
    ∙ ap (book k rider now dto) (assert_ride_allowed_iff policy dto.request db).1

refused :
    (policy : Policy) (k rider now : ℕ) (dto : CreateTrip) (db : Db) (e : Error)
    → (assert_ride_allowed policy dto.request db).0 ≡ err e
    → create_trip policy k rider now dto db ≡ (err e, db)
unfolding create_trip
refused policy k rider now dto db e off =
    bind-err (λ _. book k rider now dto) db e (assert_ride_allowed policy dto.request) off
    ∙ ap (λ db'. (err e, db')) (assert_ride_allowed_iff policy dto.request db).1

-- A booking either fails and changes nothing, or gives a trip that is the rider's and waits for a
-- driver, with no drift between its fares and in the rider's own fleet. A fixed fare is between
-- the fares of 98 per cent of the straight line and of three times it, whatever road distance the
-- client claims; a bid is the amount offered, which is not zero. A ride that the policy refuses,
-- and a bid without an amount, fail.
pub create_trip_books :
    (policy : Policy) (k rider now : ℕ) (dto : CreateTrip) (db : Db)
    → let (r, db') = create_trip policy k rider now dto db in
      ((t : Trip) × (r ≡ ok t)
        × (find k db'.trips ≡ some t)
        × ((assert_ride_allowed policy dto.request db).0 ≡ ok tt)
        × IsBooked rider dto db t)
      ⊎ (e : Error) × (r ≡ err e)
        × (db' ≡ db)
        × (((assert_ride_allowed policy dto.request db).0 ≡ err e)
            ⊎ ((is_bid dto.request.fare_type && no_amount dto.offered_fare) ≡ true))
create_trip_books policy k rider now dto db =
    elim (Result-cases (assert_ride_allowed policy dto.request db).0) [
      | inl (_, fine) ↦
          let same = checked policy k rider now dto db fine in
          elim (Bool-cases (is_bid dto.request.fare_type && no_amount dto.offered_fare)) [
            | inl bid ↦
                let no = same ∙ book_refused k rider now dto db bid in
                inr (bad_request, ap (λ p. p.0) no, ap (λ p. p.1) no, inr bid)
            | inr bid ↦
                let (answer, row) = book_lem k rider now dto db bid in
                inl (_, rw same answer, rw same row, fine, new_trip-IsBooked rider now dto db bid)
          ]
      | inr (e, off) ↦
          let same = refused policy k rider now dto db e off in
          inr (e, ap (λ p. p.0) same, ap (λ p. p.1) same, inl off)
    ]
