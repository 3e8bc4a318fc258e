-- ===== src/Trips/Completion/Once.antt =====
-- What the end of a ride leaves: `completeTrip` of trips/trips.service.ts.
use mathlib.Core.Path.{subst}
use mathlib.Core.Option.{some-injective}
use novax_backend.Common.{
  ℕ, ◌≡◌, refl, ap, ◌∙◌, ◌⊎◌, inl, inr, Bool, true, false, Bool-cases, Option-cases, Option, none,
  some, ◌∷◌, ◌++◌, arith,
}
use novax_backend.Common.Int.{ℤ, pos, ◌-ℤ◌}
use novax_backend.Common.Action.{Result, ok, pure, bind-Keeps, ◌>>=◌, ◌>>◌}
use novax_backend.Common.Table.{find, update, find-update_self}
use novax_backend.Schema.Enums.{TripStatus}
use novax_backend.Schema.Rows.{Trip}
use novax_backend.Schema.Db.{Db, EventType, Topic}
use novax_backend.Ledger.{split_fare, default_rate, or_zero, record_trip_payout}
use novax_backend.Ledger.Payouts.{share, record_trip_payout-Moves}
use novax_backend.Books.{IsPaid, payout-IsPaid, answer-IsPaid}
use novax_backend.Loyalty.{points_per_trip}
use novax_backend.Trips.{claim-won, get_trip_or_404}
use novax_backend.Trips.Rides.{event, message}
use novax_backend.Trips.Completion.{
  fares_differ, drifted, may_complete, completed_at_time, with_final_fare, settle, drift_events,
  pay, award, close, if_claimed, complete_write, complete_trip,
}

abbrev pub settled : ℕ → Trip → Trip
settled now t = with_final_fare now t (completed_at_time now t)

same_fare : (f : Option ℕ) → fares_differ f f ≡ false
unfolding fares_differ
same_fare none = refl
same_fare (some n) = ground arith

-- A trip whose two fares agree has not drifted.
pub drifted_same : (t : Trip) → t.accepted_fare ≡ t.fare → drifted t ≡ false
unfolding drifted
drifted_same t e = rw e (same_fare t.fare)

pay-keeps :
    (k driver now : ℕ) (fare tip : Option ℕ) (test : Bool) (db : Db)
    → (pay k driver now fare tip test db).1.trips ≡ db.trips
unfolding pay
pay-keeps k driver now none tip test db = refl
pay-keeps k driver now (some fare) tip true db = refl
pay-keeps k driver now (some fare) tip false db = refl

award-keeps : (rider : ℕ) (test : Bool) (db : Db) → (award rider test db).1.trips ≡ db.trips
unfolding award
award-keeps rider true db = refl
award-keeps rider false db = refl

close-keeps :
    (k driver now rider : ℕ) (fare tip : Option ℕ) (test : Bool) (updated : Trip) (db : Db)
    → ((close k driver now rider fare tip test >> pure updated) db).1.trips ≡ db.trips
unfolding close
close-keeps k driver now rider fare tip test updated =
    let table = λ (db : Db). db.trips in
    bind-Keeps table (close k driver now rider fare tip test) (λ _. pure updated)
      (bind-Keeps table (pay k driver now fare tip test) (λ _. award rider test)
        (pay-keeps k driver now fare tip test) (λ _. award-keeps rider test))
      (λ _ db. refl)

settle_row :
    (k driver now : ℕ) (read t : Trip) (db : Db)
    → find k db.trips ≡ some t
    → find k (settle k driver now read db).1.trips ≡ some (with_final_fare now read t)
unfolding settle get_trip_or_404
settle_row k driver now read t db e =
    let e' = find-update_self k (with_final_fare now read) db.trips t e in
    ground (
      arith,
      e',
      close-keeps k driver now read.rider_id read.fare t.tip_amount t.is_test
          (with_final_fare now read t),
    )

test_books :
    (k driver now rider : ℕ) (fare tip : Option ℕ) (test : Bool) (db : Db)
    → test ≡ true
    → close k driver now rider fare tip test db ≡ (ok tt, db)
unfolding close pay award
test_books k driver now rider none tip true db e = refl
test_books k driver now rider (some fare) tip true db e = refl
test_books k driver now rider fare tip false db e = cc

-- What the driver is owed: the tip less the commission.
abbrev pub driver_share : (driver fare : ℕ) → (tip : Option ℕ) → ℕ → ℤ
driver_share driver fare tip =
    share driver (pos (or_zero tip) -ℤ pos (split_fare fare default_rate).commission_amount)

IsPaid-books :
    (k driver now rider fare : ℕ) (fare_or_none tip : Option ℕ) (test : Bool) (db : Db)
    → fare_or_none ≡ some fare
    → test ≡ false
    → IsPaid
        (driver_share driver fare tip)
        rider
        points_per_trip
        db
        tt
        (close k driver now rider fare_or_none tip test db)
unfolding close pay award
IsPaid-books k driver now rider fare none tip test db f e = cc
IsPaid-books k driver now rider fare (some other) tip true db f e = cc
IsPaid-books k driver now rider fare (some other) tip false db f e =
    subst
      (λ n.
        IsPaid (driver_share driver n tip) rider points_per_trip db tt
          (close k driver now rider (some other) tip false db))
      (some-injective other fare f)
      (payout-IsPaid (driver_share driver other tip) rider points_per_trip db
        (record_trip_payout driver k other tip now db.ledger)
        (record_trip_payout-Moves driver k other tip now db.ledger))

-- The state after the last read of `completeTrip`, the books still to be written.
abbrev before_books : (trip driver now : ℕ) → Trip → Db → Db
before_books k driver now t db = record db {
  trips = update k (with_final_fare now t) (update k (completed_at_time now) db.trips);
  profiles = update driver (λ p. record p { last_completed_at = some now }) db.profiles;
  events = drift_events k t ++ event k EventType.completed driver ∷ db.events;
  sent = message t.rider_id Topic.completed k ∷ message t.rider_id Topic.push_completed k ∷ db.sent;
}

complete_lem :
    (k driver now : ℕ) (db : Db) (t : Trip)
    → find k db.trips ≡ some t
    → t.driver_id ≡ some driver
    → t.status ≡ TripStatus.in_progress
    → complete_trip k driver now db
      ≡ (close k driver now t.rider_id t.fare t.tip_amount t.is_test >> pure (settled now t))
          (before_books k driver now t db)
unfolding complete_trip complete_write if_claimed settle with_final_fare
complete_lem k driver now db t e d i =
    let e1 = find-update_self k (completed_at_time now) db.trips t e in
    let e2 = find-update_self k (with_final_fare now t) _ (completed_at_time now t) e1 in
    ground (arith, e, e2)

-- What the end of the ride leaves, the row having been `t`.
pub record IsSettlement (k driver now : ℕ) (t : Trip) (db : Db) (r : Result Trip) (db' : Db)
    : Type 0 where
  pub row : find k db'.trips ≡ some (settled now t)
  pub test_is_free :
      t.is_test ≡ true
      → (r ≡ ok (settled now t)) × (db'.ledger ≡ db.ledger) × (db'.users ≡ db.users)
  pub fare_is_paid :
      (fare : ℕ)
      → t.is_test ≡ false
      → t.fare ≡ some fare
      → IsPaid
          (driver_share driver fare t.tip_amount)
          t.rider_id
          points_per_trip
          db
          (settled now t)
          (r, db')

settled_row :
    (k driver now : ℕ) (db : Db) (t : Trip)
    → find k db.trips ≡ some t
    → find k (before_books k driver now t db).trips ≡ some (settled now t)
settled_row k driver now db t e =
    find-update_self k (with_final_fare now t) _ (completed_at_time now t)
      (find-update_self k (completed_at_time now) db.trips t e)

-- When the driver of a ride in progress ends it, the trip is completed at the accepted fare, or
-- without one at the computed fare, and stamped if the two differ. A test trip moves no money and
-- no points. Any other trip with a fare moves the driver's balance by the tip less the commission
-- on the computed fare, and no other balance, and gives the rider the points of a trip; or the
-- database refuses the payout, the call fails, and neither a balance nor a point has moved.
pub complete_trip-IsSettlement :
    (k driver now : ℕ) (db : Db) (t : Trip)
    → find k db.trips ≡ some t
    → t.driver_id ≡ some driver
    → t.status ≡ TripStatus.in_progress
    → let (r, db') = complete_trip k driver now db in IsSettlement k driver now t db r db'
complete_trip-IsSettlement k driver now db t e d i =
    let books = close k driver now t.rider_id t.fare t.tip_amount t.is_test in
    let db1 = before_books k driver now t db in
    let after = complete_lem k driver now db t e d i in
    record {
      row = rw after (
          ap (find k)
            (close-keeps k driver now t.rider_id t.fare t.tip_amount t.is_test (settled now t) db1)
          ∙ settled_row k driver now db t e);
      test_is_free = λ test.
          let free = test_books k driver now t.rider_id t.fare t.tip_amount t.is_test db1 test in
          let all = after ∙ ap (λ p. ((λ (db' : Db). p) >> pure (settled now t)) db1) free in
          (ap (λ p. p.0) all, ap (λ p. p.1.ledger) all, ap (λ p. p.1.users) all);
      fare_is_paid = λ fare test f.
          let delta = driver_share driver fare t.tip_amount in
          rw after (
            answer-IsPaid delta t.rider_id points_per_trip db1 (settled now t) (books db1)
              (IsPaid-books k driver now t.rider_id fare t.fare t.tip_amount t.is_test db1 f test));
    }

-- A call that finds the trip not in progress any more writes nothing.
complete_lost :
    (k driver now : ℕ) (read : Trip) (db : Db)
    → (find k db.trips ≡ none)
      ⊎ ((t : Trip) × (find k db.trips ≡ some t) × (may_complete t ≡ false))
    → (complete_write k driver now read db).1 ≡ db
unfolding complete_write if_claimed get_trip_or_404
complete_lost k driver now read db (inl e) = ground arith
complete_lost k driver now read db (inr (t, e, m)) = ground arith

complete_won :
    (k driver now : ℕ) (read t : Trip) (db : Db)
    → find k db.trips ≡ some t
    → may_complete t ≡ true
    → find k (complete_write k driver now read db).1.trips
      ≡ some (with_final_fare now read (completed_at_time now t))
unfolding complete_write if_claimed
complete_won k driver now read t db e m =
    let e1 = find-update_self k (completed_at_time now) db.trips t e in
    ap (λ p. find k (((λ (db' : Db). p) >>= if_claimed k driver now read) db).1.trips)
      (claim-won k may_complete (completed_at_time now) db t e m)
    ∙ (settle_row k driver now read (completed_at_time now t)
        (record db { trips = update k (completed_at_time now) db.trips }) e1)

-- Two calls may both pass the checks before either of them writes. Whatever rows they read, at
-- whatever times and for whichever drivers they write, the second one changes nothing: the trip,
-- the ledger and the points stay as the first one left them.
pub complete_write_once :
    (k driver driver' now now' : ℕ) (read read' : Trip) (db : Db)
    → let db' = (complete_write k driver now read db).1 in
      (complete_write k driver' now' read' db').1 ≡ db'
unfolding with_final_fare
complete_write_once k driver driver' now now' read read' db =
    elim (Option-cases (find k db.trips)) [
      | inl e ↦
          rw (complete_lost k driver now read db (inl e))
            (complete_lost k driver' now' read' db (inl e))
      | inr (t, e) ↦ elim (Bool-cases (may_complete t)) [
        | inl m ↦
            complete_lost k driver' now' read' _
              (inr (_, complete_won k driver now read t db e m, refl))
        | inr m ↦
            rw (complete_lost k driver now read db (inr (t, e, m)))
              (complete_lost k driver' now' read' db (inr (t, e, m)))
      ]
    ]
