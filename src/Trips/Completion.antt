-- ===== src/Trips/Completion.antt =====
-- The end of a ride: `completeTrip` of trips/trips.service.ts.
--
-- `complete_write` is what follows the checks, from the claim on; between the two another request
-- may run. The payout of the ledger is the last thing but the points, so a payout that the
-- database refuses leaves the trip completed and no points awarded.
pub mod Once
use novax_backend.Common.{
  ℕ, Bool, true, false, not, ◌==◌, Option, none, some, List, [], ◌∷◌, ◌++◌, or_else, if◌then◌else◌,
}
use novax_backend.Common.Action.{Action, Result, ok, err, pure, modify, ◌>>=◌, ◌>>◌}
use novax_backend.Schema.Enums.{TripStatus}
use novax_backend.Schema.Rows.{Trip, DriverProfile}
use novax_backend.Schema.Db.{
  Db, MatchScope, EventType, Topic, Message, TripEvent, send, record_event, set_profile,
  with_ledger,
}
use novax_backend.Ledger.{record_trip_payout}
use novax_backend.Loyalty.{award_points, points_per_trip}
use novax_backend.Trips.{claim, get_trip_or_404, set_trip, assert_driver_owns_trip, is_in_progress}
use novax_backend.Trips.Rides.{event, message}

abbrev pub may_complete : Trip → Bool
may_complete t = is_in_progress t.status

abbrev pub completed_at_time : ℕ → Trip → Trip
completed_at_time now t = record t { status = TripStatus.completed; completed_at = some now }

fares_differ : Option ℕ → Option ℕ → Bool
fares_differ (some promised) (some charged) = not (promised == charged)
fares_differ _ _ = false

-- `drifted`: both fares are there, and they differ by a paisa or more
unfoldable pub drifted : Trip → Bool
unfolding fares_differ
drifted t = fares_differ t.accepted_fare t.fare

-- `promised ?? charged`
abbrev pub due : Option ℕ → Option ℕ → Option ℕ
due none charged = charged
due (some promised) charged = some promised

-- The second update, computed from the row `read` that the method read first.
unfoldable pub with_final_fare : (now : ℕ) → (read : Trip) → Trip → Trip
unfolding drifted
with_final_fare now read t = record t {
  final_fare = due read.accepted_fare read.fare;
  fare_drifted_at = if drifted read then some now else t.fare_drifted_at;
}

drift_event : ℕ → TripEvent
drift_event trip = record { trip_id = trip; event_type = EventType.fare_drift; actor_id = none }

drift_events : (trip : ℕ) → Trip → List TripEvent
unfolding drifted drift_event
drift_events k read = if drifted read then drift_event k ∷ [] else []

-- `if (trip.fare) { … }`
pay : (trip driver now : ℕ) → (fare tip : Option ℕ) → (is_test : Bool) → Action Db (Unit {0})
unfolding record_trip_payout
pay k driver now none tip is_test = pure tt
pay k driver now (some fare) tip true = pure tt
pay k driver now (some fare) tip false = with_ledger (record_trip_payout driver k fare tip now)

award : (rider : ℕ) → (is_test : Bool) → Action Db (Unit {0})
award rider true = pure tt
award rider false = award_points rider points_per_trip

-- The ledger and the points.
close :
    (trip driver now rider : ℕ) → (fare tip : Option ℕ) → (is_test : Bool) → Action Db (Unit {0})
unfolding pay award
close k driver now rider fare tip is_test = do
  pay k driver now fare tip is_test
  award rider is_test

-- What the call does that made the change.
settle : (trip driver now : ℕ) → Trip → Action Db Trip
unfolding with_final_fare drift_events close get_trip_or_404
settle k driver now read = do
  set_trip k (with_final_fare now read)
  set_profile driver (λ p. record p { last_completed_at = some now })
  record_event (event k EventType.completed driver)
  modify (λ db. record db { events = drift_events k read ++ db.events })
  send (message read.rider_id Topic.push_completed k ∷ [])
  updated ← get_trip_or_404 k
  send (message read.rider_id Topic.completed k ∷ [])
  close k driver now read.rider_id read.fare updated.tip_amount updated.is_test
  pure updated

if_claimed : (trip driver now : ℕ) → Trip → Bool → Action Db Trip
unfolding settle get_trip_or_404
if_claimed k driver now read true = settle k driver now read
if_claimed k driver now read false = get_trip_or_404 k

unfoldable pub complete_write : (trip driver now : ℕ) → Trip → Action Db Trip
unfolding if_claimed claim
complete_write k driver now read = do
  claimed ← claim k may_complete (completed_at_time now)
  if_claimed k driver now read claimed

unfoldable pub complete_trip : (trip driver now : ℕ) → Action Db Trip
unfolding get_trip_or_404 assert_driver_owns_trip complete_write
complete_trip k driver now = do
  trip ← get_trip_or_404 k
  assert_driver_owns_trip trip driver is_in_progress
  complete_write k driver now trip
