-- ===== src/Trips/Cancelling.antt =====
-- Calling a ride off: `cancelTrip` of trips/trips.service.ts. The texts of the reason and the note
-- are left out.
pub mod Answers
use novax_backend.Common.{
  ℕ, ◌+◌, Bool, true, false, not, ◌||◌, ◌==◌, Option, none, some, List, [], ◌∷◌, is_some_of,
  if◌then◌else◌,
}
use novax_backend.Common.Action.{
  Action, Result, ok, err, forbidden, bad_request, pure, raise_if, modify, ◌>>=◌, ◌>>◌,
}
use novax_backend.Schema.Enums.{Actor, TripStatus}
use novax_backend.Schema.Rows.{Trip, DriverProfile}
use novax_backend.Schema.Db.{
  Db, MatchScope, EventType, Topic, Message, send, record_event, set_profile,
}
use novax_backend.Cancellation.{pilot_policy, CancellationOutcome, assess_cancellation}
use novax_backend.Excluded.{clear}
use novax_backend.Trips.{get_trip_or_404, set_trip, is_cancellable}
use novax_backend.Trips.Rides.{event, message}

-- `trip.riderId === userId || trip.driverId === userId`
abbrev pub is_party : ℕ → Trip → Bool
is_party user t = t.rider_id == user || is_some_of user t.driver_id

-- `cancelledBy`
abbrev pub canceller : ℕ → Trip → Actor
canceller user t = if t.rider_id == user then Actor.rider else Actor.driver

abbrev pub outcome_of : (user now : ℕ) → Trip → CancellationOutcome
outcome_of user now t = assess_cancellation pilot_policy (record {
  cancelled_by = canceller user t;
  status = t.status;
  matched_at = t.matched_at;
  is_test = t.is_test;
  now = now;
})

abbrev pub cancelled_row : (user now : ℕ) → (read : Trip) → Trip → Trip
cancelled_row user now read t = record t {
  status = TripStatus.cancelled;
  cancelled_at = some now;
  cancelled_by = some (canceller user read);
  cancellation_fee = some (outcome_of user now read).fee;
}

abbrev pub one_more_cancelled : DriverProfile → DriverProfile
one_more_cancelled p = record p { trips_cancelled = p.trips_cancelled + 1 }

-- `if (outcome.countsAgainstDriver && trip.driverId)`
count_against : Bool → Option ℕ → Action Db (Unit {0})
count_against true (some driver) = set_profile driver one_more_cancelled
count_against _ _ = pure tt

-- The other party is told, when there is one.
cancel_messages : (user trip : ℕ) → Trip → List Message
cancel_messages user k t =
    if t.rider_id == user then told t.driver_id else message t.rider_id Topic.cancelled k ∷ []
  where
    told : Option ℕ → List Message
    told none = []
    told (some driver) = message driver Topic.cancelled k ∷ []

-- What follows the checks of `cancelTrip`, by the row `read` that they read.
unfoldable pub cancel_write : (trip user now : ℕ) → Trip → Action Db Trip
unfolding get_trip_or_404 count_against clear cancel_messages assess_cancellation
cancel_write k user now read = do
  count_against (outcome_of user now read).counts_against_driver read.driver_id
  record_event (event k EventType.cancelled user)
  set_trip k (cancelled_row user now read)
  updated ← get_trip_or_404 k
  modify (λ db. record db { excluded = clear MatchScope.trip k db.excluded })
  send (cancel_messages user k read)
  pure updated

unfoldable pub cancel_trip : (trip user now : ℕ) → Action Db Trip
unfolding get_trip_or_404 cancel_write
cancel_trip k user now = do
  trip ← get_trip_or_404 k
  raise_if (not (is_party user trip)) forbidden
  raise_if (not (is_cancellable trip.status)) bad_request
  cancel_write k user now trip
