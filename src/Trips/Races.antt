-- ===== src/Trips/Races.antt =====
-- Interleavings of the requests of trips/trips.service.ts: where a method reads a row, checks it
-- and writes it in a later statement, another request may run in between.
use novax_backend.Common.{ℕ, ◌≡◌, refl, Bool, true, none, some, List, arith}
use novax_backend.Common.Action.{ok, bind-ok}
use novax_backend.Common.Table.{find, update, find-update_self}
use novax_backend.Schema.Enums.{TripStatus}
use novax_backend.Schema.Rows.{Trip}
use novax_backend.Schema.Db.{Db, MatchScope}
use novax_backend.Excluded.{add_all}
use novax_backend.Dispatch.{Candidate}
use novax_backend.Trips.{is_searching}
use novax_backend.Trips.Matching.{
  escalate_if_stuck, timeout_write, offer_timeout, requested_again, attempt_match,
}
use novax_backend.Trips.Matching.Ladder.{escalate-ok, escalate_if_stuck-IsLadderStep}
use novax_backend.Trips.Matching.Offers.{attempt_match-searching, offer_timeout_fires}
use novax_backend.Trips.Rides.{started_at_time, start_write, start_trip, matched_by, accept_trip}
use novax_backend.Trips.Rides.Claims.{IsOpen, accept_won}
use novax_backend.Trips.Cancelling.{cancel_write, cancel_trip, cancelled_row}
use novax_backend.Trips.Cancelling.Answers.{cancel_trip_lem}

start_write_lem :
    (k driver now : ℕ) (read t : Trip) (db : Db)
    → find k db.trips ≡ some t
    → let (r, db') = start_write k driver now read db in
      (r ≡ ok (started_at_time now t)) × (find k db'.trips ≡ some (started_at_time now t))
unfolding start_write
start_write_lem k driver now read t db e =
    let e' = find-update_self k (started_at_time now) db.trips t e in
    (ground (arith, e'), ground (arith, e'))

passes :
    (k driver later : ℕ) (db : Db) (t : Trip)
    → find k db.trips ≡ some t
    → t.driver_id ≡ some driver
    → t.status ≡ TripStatus.matched
    → start_trip k driver later db ≡ start_write k driver later t db
unfolding start_trip
passes k driver later db t e d m = ground arith

-- Suppose `startTrip` has read a matched trip and passed its checks, and the rider calls the ride
-- off before it writes. The write goes through: the ride that was called off is in progress, with
-- the stamp of its cancellation still on it.
pub start_trip_revives_cancelled :
    (k driver now later : ℕ) (db : Db) (t : Trip)
    → find k db.trips ≡ some t
    → t.driver_id ≡ some driver
    → t.status ≡ TripStatus.matched
    → let (cancelling, db') = cancel_trip k t.rider_id now db in
      let (starting, db'') = start_write k driver later t db' in
      (start_trip k driver later db ≡ start_write k driver later t db)
      × (cancelling ≡ ok (cancelled_row t.rider_id now t t))
      × (starting ≡ ok (started_at_time later (cancelled_row t.rider_id now t t)))
      × (find k db''.trips ≡ some (started_at_time later (cancelled_row t.rider_id now t t)))
start_trip_revives_cancelled k driver now later db t e d m =
    let off = cancel_trip_lem k t.rider_id now db t e (ground arith) (rw m refl) in
    let on = start_write_lem k driver later t (cancelled_row t.rider_id now t t) _ off.row in
    (passes k driver later db t e d m, off.answer, on.0, on.1)

cancel_passes :
    (k later : ℕ) (db : Db) (t : Trip)
    → IsOpen k db t
    → cancel_trip k t.rider_id later db ≡ cancel_write k t.rider_id later t db
unfolding cancel_trip
cancel_passes k later db t o = ground (arith, o.0, o.1, o.2)

cancel_write_lem :
    (k user now : ℕ) (read t : Trip) (db : Db)
    → find k db.trips ≡ some t
    → read.driver_id ≡ none
    → read.rider_id ≡ user
    → let (r, db') = cancel_write k user now read db in
      (r ≡ ok (cancelled_row user now read t))
      × (find k db'.trips ≡ some (cancelled_row user now read t))
      × (db'.sent ≡ db.sent)
unfolding cancel_write
cancel_write_lem k user now read t db e free own =
    let row = find-update_self k (cancelled_row user now read) db.trips t e in
    (ground (arith, e, row), ground (arith, e, row), ground (arith, e, row))

-- Suppose the rider's `cancelTrip` has read a trip that is on offer and passed its checks, and a
-- driver takes it before it writes. Both are told that they succeeded; the ride is cancelled, with
-- the driver's number on it, and the driver is sent nothing.
cancel_trip_skips_driver :
    (k d now later : ℕ) (db : Db) (t : Trip)
    → IsOpen k db t
    → let (accepting, db') = accept_trip k d now db in
      let (cancelling, db'') = cancel_write k t.rider_id later t db' in
      let off = cancelled_row t.rider_id later t (matched_by d now t) in
      (cancel_trip k t.rider_id later db ≡ cancel_write k t.rider_id later t db)
      × (accepting ≡ ok (matched_by d now t))
      × (cancelling ≡ ok off)
      × (find k db''.trips ≡ some off)
      × (off.driver_id ≡ some d)
      × (db''.sent ≡ db'.sent)
cancel_trip_skips_driver k d now later db t o =
    let won = accept_won k d now db t o.0 (rw (o.1, o.2) refl) in
    let (cancelling, row, unsent) =
      cancel_write_lem k t.rider_id later t (matched_by d now t) (accept_trip k d now db).1 won.row
        o.2 refl in
    (cancel_passes k later db t o, won.answer, cancelling, row, refl, unsent)

module _ (find_nearby : (job radius : ℕ) → (want_test_fleet : Bool) → Db → List Candidate) where
  timeout_searching :
      (k : ℕ) (drivers : List ℕ) (now : ℕ) (db : Db) (t : Trip)
      → find k db.trips ≡ some t
      → let (r, db') = timeout_write find_nearby k drivers now db in
        (r ≡ ok tt) × ((t' : Trip) × (find k db'.trips ≡ some t') × (is_searching t'.status ≡ true))
  unfolding timeout_write
  timeout_searching k drivers now db t e =
      let db1 : Db = record db {
        excluded = add_all MatchScope.trip k drivers db.excluded;
        trips = update k requested_again db.trips;
      } in
      let e1 = find-update_self k requested_again db.trips t e in
      let (t2, e2, step) = escalate_if_stuck-IsLadderStep k now db1 (requested_again t) e1 in
      let s2 : is_searching t2.status ≡ true = rw step.rest_kept.0 refl in
      let last =
        attempt_match-searching find_nearby k now (escalate_if_stuck k now db1).1 t2 e2 s2 in
      let on =
        bind-ok (λ (_ : Unit {0}). attempt_match find_nearby k now) db1 tt (escalate_if_stuck k now)
          (escalate-ok k now db1) in
      rw on last

  -- Suppose the timer of an offer has found the trip unclaimed, and a driver's accept reaches the
  -- database before the timer writes. The driver is told that the trip is theirs; yet once the
  -- timer is done the trip is looking for a driver again.
  pub offer_timeout_undoes_accept :
      (k d : ℕ) (drivers : List ℕ) (now later : ℕ) (db : Db) (t : Trip)
      → IsOpen k db t
      → let (accepting, db') = accept_trip k d now db in
        let (r, db'') = timeout_write find_nearby k drivers later db' in
        (offer_timeout find_nearby k drivers later db
          ≡ timeout_write find_nearby k drivers later db)
        × (accepting ≡ ok (matched_by d now t))
        × ((t' : Trip) × (find k db''.trips ≡ some t') × (is_searching t'.status ≡ true))
  offer_timeout_undoes_accept k d drivers now later db t o =
      let won = accept_won k d now db t o.0 (rw (o.1, o.2) refl) in
      (
        offer_timeout_fires find_nearby k drivers later db t o,
        won.answer,
        (timeout_searching k drivers later (accept_trip k d now db).1 _ won.row).1,
      )
