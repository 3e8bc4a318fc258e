-- ===== src/Trips.antt =====
-- trips/trips.service.ts: what its methods share.
pub mod Rides
mod Tests
pub mod Booking
pub mod Matching
pub mod Completion
pub mod Cancelling
pub mod Guards
pub mod Races
use novax_backend.Common.{
  ℕ, ◌≡◌, arith, Bool, true, false, not, ◌&&◌, Option, none, some, List, [], ◌∷◌, if◌then◌else◌,
  is_some_of,
}
use novax_backend.Common.Action.{
  Action, Result, ok, err, not_found, forbidden, bad_request, pure, gets, or_raise, raise_if, ◌>>=◌,
  ◌>>◌,
}
use novax_backend.Common.Table.{find, update}
use novax_backend.Schema.Enums.{TripStatus}
use novax_backend.Schema.Rows.{Trip}
use novax_backend.Schema.Db.{Db}

-- `trip.update({ where: { id }, data })`
abbrev pub set_trip : ℕ → (Trip → Trip) → Action Db (Unit {0})
set_trip k f db = (ok tt, record db { trips = update k f db.trips })

-- `trip.updateMany({ where: { id, … }, data })`: whether a row was changed
unfoldable pub claim : ℕ → (Trip → Bool) → (Trip → Trip) → Action Db Bool
claim k guard f db = elim (find k db.trips) [
  | none ↦ (ok false, db)
  | some t ↦
      if guard t then (ok true, record db { trips = update k f db.trips }) else (ok false, db)
]

-- `getTripOr404`
unfoldable pub get_trip_or_404 : ℕ → Action Db Trip
get_trip_or_404 k = do or_raise (← gets (λ db. find k db.trips)) not_found

abbrev pub is_requested : TripStatus → Bool
is_requested TripStatus.requested = true
is_requested _ = false

abbrev pub is_matching : TripStatus → Bool
is_matching TripStatus.matching = true
is_matching _ = false

abbrev pub is_matched : TripStatus → Bool
is_matched TripStatus.matched = true
is_matched _ = false

abbrev pub is_in_progress : TripStatus → Bool
is_in_progress TripStatus.in_progress = true
is_in_progress _ = false

-- `["REQUESTED", "MATCHING"].includes(status)`
abbrev pub is_searching : TripStatus → Bool
is_searching TripStatus.requested = true
is_searching TripStatus.matching = true
is_searching _ = false

-- `["REQUESTED", "MATCHING", "MATCHED"].includes(status)`
abbrev pub is_cancellable : TripStatus → Bool
is_cancellable TripStatus.matched = true
is_cancellable status = is_searching status

-- `assertDriverOwnsTrip`
unfoldable pub assert_driver_owns_trip : Trip → ℕ → (TripStatus → Bool) → Action Db (Unit {0})
assert_driver_owns_trip trip driver allowed = do
  raise_if (not (is_some_of driver trip.driver_id)) forbidden
  raise_if (not (allowed trip.status)) bad_request

pub claim-won :
    (k : ℕ) (guard : Trip → Bool) (f : Trip → Trip) (db : Db) (t : Trip)
    → find k db.trips ≡ some t
    → guard t ≡ true
    → claim k guard f db ≡ (ok true, record db { trips = update k f db.trips })
unfolding claim
claim-won k guard f db t e g = ground arith
