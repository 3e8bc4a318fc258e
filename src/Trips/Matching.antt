-- ===== src/Trips/Matching.antt =====
-- The search for a driver in trips/trips.service.ts: `attemptMatch`, `offerToDrivers` with the
-- handler of its timer, and `escalateIfStuck`.
--
-- The geographic search of location/location.service.ts is the parameter `find_nearby`: the job,
-- the radius in metres and the fleet give the drivers, nearest first, as the database stands. A
-- timer's handler is an operation that may run at any later time.
pub mod Ladder
pub mod Offers
pub mod Broadcast
use novax_backend.Common.{
  ℕ, ◌+◌, ◌-◌, Bool, true, false, not, ◌&&◌, Option, none, some, List, [], ◌∷◌, ◌++◌, map, leb,
  is_none, or_else, keep, take, has, if◌then◌else◌,
}
use mathlib.Core.Option
use novax_backend.Common.Action.{Action, Result, ok, err, pure, gets, modify, ◌>>=◌, ◌>>◌}
use novax_backend.Common.Table.{Table, find, update}
use novax_backend.Schema.Enums.{TripStatus}
use novax_backend.Schema.Rows.{User, Trip, DriverProfile}
use novax_backend.Schema.Db.{
  Db, MatchScope, EventType, Topic, Message, TripEvent, send, record_event, set_profile,
}
use novax_backend.Excluded.{get_all, add_all}
use novax_backend.Dispatch.{Candidate, Counters, Reputation, rank_candidates}
use novax_backend.Trips.{set_trip, is_searching}
use novax_backend.Trips.Rides.{event, message, is_unclaimed}

abbrev pub ops_alert_ms : ℕ
ops_alert_ms = 90_000

abbrev pub ops_escalate_ms : ℕ
ops_escalate_ms = 180_000

-- An event with no actor.
abbrev system_event : ℕ → EventType → TripEvent
system_event trip event_type = record { trip_id = trip; event_type = event_type; actor_id = none }

abbrev pub alerted : ℕ → Trip → Trip
alerted now t = record t { ops_alerted_at = some now }

abbrev pub escalated : ℕ → Trip → Trip
escalated now t = record t {
  ops_escalated_at = some now;
  ops_alerted_at = some (or_else t.ops_alerted_at now);
}

-- After three minutes: ops must place the trip by hand.
escalate_now : (trip now : ℕ) → Trip → Action Db (Unit {0})
escalate_now k now t = do
  set_trip k (escalated now)
  send (message t.rider_id Topic.ops_escalated k ∷ [])
  record_event (system_event k EventType.ops_escalated)

-- After ninety seconds: ops is told.
alert_now : (trip now : ℕ) → Trip → Action Db (Unit {0})
alert_now k now t = do
  set_trip k (alerted now)
  send (message t.rider_id Topic.ops_watching k ∷ [])
  record_event (system_event k EventType.ops_alerted)

-- The two steps of the ladder, for a trip that is still looking.
escalate_trip : (trip now : ℕ) → Trip → Action Db (Unit {0})
unfolding escalate_now alert_now
escalate_trip k now t =
    let waiting = now - t.requested_at in
    if leb ops_escalate_ms waiting && is_none t.ops_escalated_at
    then escalate_now k now t
    else if leb ops_alert_ms waiting && is_none t.ops_alerted_at
    then alert_now k now t
    else pure tt

if_searching : (Trip → Action Db (Unit {0})) → Option Trip → Action Db (Unit {0})
if_searching f none = pure tt
if_searching f (some t) = if is_searching t.status then f t else pure tt

unfoldable pub escalate_if_stuck : (trip now : ℕ) → Action Db (Unit {0})
unfolding escalate_trip if_searching
escalate_if_stuck k now = do t ← gets (λ db. find k db.trips); if_searching (escalate_trip k now) t

abbrev pub offered : Trip → Trip
offered t = record t {
  status = TripStatus.matching;
  driver_id = none;
  offer_count = t.offer_count + 1;
}

-- `driverProfile.updateMany({ where: { userId: { in: driverIds } }, … })`
count_offers : ℕ → List ℕ → Table DriverProfile → Table DriverProfile
count_offers now [] profiles = profiles
count_offers now (d ∷ ds) profiles = count_offers now ds (
    update d (λ p. record p { offers_sent = p.offers_sent + 1; last_offer_at = some now }) profiles)

unfoldable pub offer_messages : ℕ → List ℕ → List Message
offer_messages k ds =
    map (λ d. message d Topic.offer k) ds ++ map (λ d. message d Topic.push_offer k) ds

-- One event `OFFERED` for each driver, the last one newest.
offer_events : ℕ → List ℕ → List TripEvent → List TripEvent
offer_events k [] es = es
offer_events k (d ∷ ds) es = offer_events k ds (event k EventType.offered d ∷ es)

unfoldable pub offer_to_drivers : (trip : ℕ) → List ℕ → (now : ℕ) → Action Db (Unit {0})
unfolding count_offers offer_messages offer_events
offer_to_drivers k drivers now = do
  set_trip k offered
  modify (λ db. record db { profiles = count_offers now drivers db.profiles })
  send (offer_messages k drivers)
  modify (λ db. record db { events = offer_events k drivers db.events })

abbrev pub counters_of : DriverProfile → Counters
counters_of p = record {
  offers_sent = p.offers_sent;
  offers_accepted = p.offers_accepted;
  offers_declined = p.offers_declined;
  trips_cancelled = p.trips_cancelled;
  last_completed_at = p.last_completed_at;
}

-- What `rankCandidates` reads of a driver.
abbrev pub reputation_in : Db → ℕ → Reputation
reputation_in db d = record {
  counters = Option.map counters_of (find d db.profiles);
  rating = Option.map (λ (u : User). u.rating) (find d db.users);
}

-- `SEARCH_RADII_KM`, in metres
abbrev pub search_radii : List ℕ
search_radii = 1000 ∷ 3000 ∷ 5000 ∷ 8000 ∷ []

abbrev pub dispatch_shortlist : ℕ
dispatch_shortlist = 8

abbrev pub broadcast_to : ℕ
broadcast_to = 3

abbrev pub no_driver_at : ℕ → Trip → Trip
no_driver_at now t = record t { no_driver_found_at = some (or_else t.no_driver_found_at now) }

abbrev pub requested_again : Trip → Trip
requested_again t = record t { status = TripStatus.requested }

record_first_no_driver : ℕ → Option ℕ → Action Db (Unit {0})
record_first_no_driver k none = record_event (system_event k EventType.no_driver)
record_first_no_driver k (some t) = pure tt

-- The best of a radius; `wider` are those of the wider searches, which are made when it is empty.
best_of : (now : ℕ) → Db → (wider : List ℕ) → List Candidate → List ℕ
best_of now db wider [] = wider
best_of now db wider (c ∷ cs) =
    take broadcast_to (rank_candidates now (reputation_in db) (take dispatch_shortlist (c ∷ cs)))

module _ (find_nearby : (job radius : ℕ) → (want_test_fleet : Bool) → Db → List Candidate) where
  -- The drivers within a radius that have not been excluded.
  unfoldable pub eligible : ℕ → Trip → ℕ → Db → List Candidate
  eligible k t radius db =
      keep (λ (c : Candidate). not (has c.driver_id (get_all MatchScope.trip k db.excluded)))
        (find_nearby k radius t.is_test db)

  -- Whom the trip is offered to, from the first radius that has anybody.
  unfoldable pub chosen : ℕ → Trip → List ℕ → (now : ℕ) → Db → List ℕ
  unfolding eligible best_of
  chosen k t [] now db = []
  chosen k t (radius ∷ wider) now db =
      best_of now db (chosen k t wider now db) (eligible k t radius db)

  -- Nobody, at any radius.
  give_up : (trip now : ℕ) → Trip → Action Db (Unit {0})
  give_up k now t = do
    set_trip k (no_driver_at now)
    record_first_no_driver k t.no_driver_found_at
    escalate_if_stuck k now

  offer_or_give_up : (trip now : ℕ) → Trip → List ℕ → Action Db (Unit {0})
  unfolding give_up record_first_no_driver
  offer_or_give_up k now t [] = give_up k now t
  offer_or_give_up k now t (d ∷ ds) = offer_to_drivers k (d ∷ ds) now

  match_trip : (trip now : ℕ) → Trip → Action Db (Unit {0})
  unfolding chosen offer_or_give_up
  match_trip k now t = do
    drivers ← gets (chosen k t search_radii now)
    offer_or_give_up k now t drivers

  unfoldable pub attempt_match : (trip now : ℕ) → Action Db (Unit {0})
  unfolding match_trip if_searching
  attempt_match k now = do t ← gets (λ db. find k db.trips); if_searching (match_trip k now) t

  -- What the timer does once it has found the trip unclaimed, a statement at a time.
  unfoldable pub timeout_write : (trip : ℕ) → List ℕ → (now : ℕ) → Action Db (Unit {0})
  unfolding add_all
  timeout_write k drivers now = do
    modify (λ db. record db { excluded = add_all MatchScope.trip k drivers db.excluded })
    set_trip k requested_again
    escalate_if_stuck k now
    attempt_match k now

  -- `current?.status === "MATCHING" && current.driverId === null`
  if_unclaimed : Action Db (Unit {0}) → Option Trip → Action Db (Unit {0})
  if_unclaimed m none = pure tt
  if_unclaimed m (some t) = if is_unclaimed t then m else pure tt

  -- The handler of the timer that `offerToDrivers` starts.
  unfoldable pub offer_timeout : (trip : ℕ) → List ℕ → (now : ℕ) → Action Db (Unit {0})
  unfolding if_unclaimed
  offer_timeout k drivers now = do
    t ← gets (λ db. find k db.trips)
    if_unclaimed (timeout_write k drivers now) t
