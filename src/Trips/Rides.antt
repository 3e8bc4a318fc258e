-- ===== src/Trips/Rides.antt =====
-- The driver's side of a trip up to its start: `acceptTrip`, `declineTrip`, `markArrived` and
-- `startTrip` of trips/trips.service.ts.
pub mod Claims
use novax_backend.Common.{
  ℕ, ◌+◌, Bool, true, false, not, ◌&&◌, Option, none, some, List, [], ◌∷◌, is_none, if◌then◌else◌,
}
use novax_backend.Common.Action.{
  Action, Result, Error, ok, err, conflict, forbidden, pure, raise_if, modify, ◌>>=◌, ◌>>◌,
}
use novax_backend.Schema.Enums.{TripStatus}
use novax_backend.Schema.Rows.{Trip, DriverProfile}
use novax_backend.Schema.Db.{
  Db, MatchScope, EventType, Topic, Message, TripEvent, send, record_event, set_profile,
}
use novax_backend.Excluded.{add, clear}
use novax_backend.Trips.{
  claim, get_trip_or_404, set_trip, assert_driver_owns_trip, is_matching, is_matched,
}

-- An event that a user caused.
abbrev pub event : ℕ → EventType → ℕ → TripEvent
event trip event_type actor = record {
  trip_id = trip;
  event_type = event_type;
  actor_id = some actor;
}

abbrev pub message : ℕ → Topic → ℕ → Message
message user topic trip = record {
  to = some user;
  topic = topic;
  scope = MatchScope.trip;
  job = trip;
}

abbrev broadcast : Topic → ℕ → Message
broadcast topic trip = record { to = none; topic = topic; scope = MatchScope.trip; job = trip }

-- `where: { status: "MATCHING", driverId: null }`
abbrev pub is_unclaimed : Trip → Bool
is_unclaimed t = is_matching t.status && is_none t.driver_id

abbrev pub matched_by : ℕ → ℕ → Trip → Trip
matched_by driver now t = record t {
  status = TripStatus.matched;
  driver_id = some driver;
  matched_at = some now;
}

unfoldable pub accept_trip : (trip driver now : ℕ) → Action Db Trip
unfolding claim get_trip_or_404 clear
accept_trip k driver now = do
  claimed ← claim k is_unclaimed (matched_by driver now)
  raise_if (not claimed) conflict
  trip ← get_trip_or_404 k
  modify (λ db. record db { excluded = clear MatchScope.trip k db.excluded })
  send (broadcast Topic.offer_taken k ∷ broadcast Topic.matched k ∷ [])
  record_event (event k EventType.accepted driver)
  send (message trip.rider_id Topic.matched k ∷ message trip.rider_id Topic.push_matched k ∷ [])
  set_profile driver (λ p. record p { offers_accepted = p.offers_accepted + 1 })
  pure trip

unfoldable pub decline_trip : (trip driver : ℕ) → Action Db (Unit {0})
unfolding get_trip_or_404 add
decline_trip k driver = do
  trip ← get_trip_or_404 k
  raise_if (not (is_matching trip.status)) forbidden
  record_event (event k EventType.declined driver)
  modify (λ db. record db { excluded = add MatchScope.trip k driver db.excluded })
  set_profile driver (λ p. record p { offers_declined = p.offers_declined + 1 })

unfoldable pub mark_arrived : (trip driver : ℕ) → Action Db (Unit {0})
unfolding get_trip_or_404 assert_driver_owns_trip
mark_arrived k driver = do
  trip ← get_trip_or_404 k
  assert_driver_owns_trip trip driver is_matched
  record_event (event k EventType.arrived driver)
  send (
      message trip.rider_id Topic.driver_arrived k
      ∷ message trip.rider_id Topic.push_arrived k
      ∷ [])

abbrev pub started_at_time : ℕ → Trip → Trip
started_at_time now t = record t { status = TripStatus.in_progress; started_at = some now }

-- The write of `startTrip`, which follows its checks in a statement of its own.
unfoldable pub start_write : (trip driver now : ℕ) → Trip → Action Db Trip
unfolding get_trip_or_404
start_write k driver now trip = do
  set_trip k (started_at_time now)
  record_event (event k EventType.started driver)
  send (message trip.rider_id Topic.started k ∷ [])
  get_trip_or_404 k

unfoldable pub start_trip : (trip driver now : ℕ) → Action Db Trip
unfolding get_trip_or_404 assert_driver_owns_trip start_write
start_trip k driver now = do
  trip ← get_trip_or_404 k
  assert_driver_owns_trip trip driver is_matched
  start_write k driver now trip
