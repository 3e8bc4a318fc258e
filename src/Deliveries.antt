-- ===== src/Deliveries.antt =====
-- delivery/delivery.service.ts: a parcel from the offer to one driver to its handing over. The
-- booking is in Booking and the rating in Ratings; the photo is left out.
--
-- `find_nearby` is the search of location/location.service.ts, as for trips. A timer's handler is
-- an operation that may run at any later time.
pub mod Booking
pub mod Offers
pub mod Handover
mod Tests
use novax_backend.Common.{
  ℕ, Bool, true, false, not, ◌&&◌, ◌||◌, ◌==◌, Option, none, some, List, [], ◌∷◌, has, is_some_of,
  if◌then◌else◌,
}
use novax_backend.Common.Action.{
  Action, Result, ok, err, not_found, forbidden, bad_request, pure, gets, or_raise, raise_if,
  modify, ◌>>=◌, ◌>>◌,
}
use novax_backend.Common.Table.{find, update}
use novax_backend.Schema.Enums.{DeliveryStatus}
use novax_backend.Schema.Rows.{User, Delivery}
use novax_backend.Schema.Db.{Db, MatchScope, Topic, Message, send, with_ledger}
use novax_backend.Excluded.{get_all, add, clear}
use novax_backend.Dispatch.{Candidate}
use novax_backend.Nearest.{search_radii, nearest}
use novax_backend.Ledger.{record_delivery_payout}
use novax_backend.Loyalty.{award_points, points_per_delivery}

abbrev pub set_delivery : ℕ → (Delivery → Delivery) → Action Db (Unit {0})
set_delivery k f db = (ok tt, record db { deliveries = update k f db.deliveries })

-- `delivery.updateMany({ where: { id, … }, data })`
unfoldable pub claim_delivery : ℕ → (Delivery → Bool) → (Delivery → Delivery) → Action Db Bool
claim_delivery k guard f db = elim (find k db.deliveries) [
  | none ↦ (ok false, db)
  | some x ↦
      if guard x
      then (ok true, record db { deliveries = update k f db.deliveries })
      else (ok false, db)
]

-- `getDeliveryOr404`
unfoldable pub get_delivery_or_404 : ℕ → Action Db Delivery
get_delivery_or_404 k = do or_raise (← gets (λ db. find k db.deliveries)) not_found

abbrev pub is_matching : DeliveryStatus → Bool
is_matching DeliveryStatus.matching = true
is_matching _ = false

abbrev pub is_matched : DeliveryStatus → Bool
is_matched DeliveryStatus.matched = true
is_matched _ = false

abbrev pub is_picked_up : DeliveryStatus → Bool
is_picked_up DeliveryStatus.picked_up = true
is_picked_up _ = false

-- `["PICKED_UP", "IN_TRANSIT"].includes(status)`
abbrev pub is_carried : DeliveryStatus → Bool
is_carried DeliveryStatus.picked_up = true
is_carried DeliveryStatus.in_transit = true
is_carried _ = false

abbrev pub is_searching : DeliveryStatus → Bool
is_searching DeliveryStatus.requested = true
is_searching DeliveryStatus.matching = true
is_searching _ = false

abbrev pub is_cancellable : DeliveryStatus → Bool
is_cancellable DeliveryStatus.matched = true
is_cancellable status = is_searching status

-- `assertDriverOwnsDelivery`
unfoldable pub assert_driver_owns_delivery :
    Delivery → ℕ → (DeliveryStatus → Bool) → Action Db (Unit {0})
assert_driver_owns_delivery x driver allowed = do
  raise_if (not (is_some_of driver x.driver_id)) forbidden
  raise_if (not (allowed x.status)) bad_request

abbrev pub message : ℕ → Topic → ℕ → Message
message user topic delivery = record {
  to = some user;
  topic = topic;
  scope = MatchScope.delivery;
  job = delivery;
}

abbrev pub offered_to : ℕ → Delivery → Delivery
offered_to driver x = record x { status = DeliveryStatus.matching; driver_id = some driver }

abbrev pub requested_again : Delivery → Delivery
requested_again x = record x { status = DeliveryStatus.requested; driver_id = none }

unfoldable pub offer_to_driver : (delivery driver : ℕ) → Action Db (Unit {0})
offer_to_driver k driver = do
  set_delivery k (offered_to driver)
  send (message driver Topic.offer k ∷ [])

if_searching : (Delivery → Action Db (Unit {0})) → Option Delivery → Action Db (Unit {0})
if_searching f none = pure tt
if_searching f (some x) = if is_searching x.status then f x else pure tt

offer_if_found : ℕ → Option ℕ → Action Db (Unit {0})
unfolding offer_to_driver
offer_if_found k none = pure tt
offer_if_found k (some driver) = offer_to_driver k driver

-- The timer of the offer finds it unanswered.
abbrev pub awaits : ℕ → Delivery → Bool
awaits driver x = is_matching x.status && is_some_of driver x.driver_id

module _ (find_nearby : (job radius : ℕ) → (want_test_fleet : Bool) → Db → List Candidate) where
  match_delivery : (delivery : ℕ) → Delivery → Action Db (Unit {0})
  unfolding nearest offer_if_found
  match_delivery k x = do
    driver ← gets (nearest find_nearby MatchScope.delivery k x.sender_id search_radii)
    offer_if_found k driver

  unfoldable pub attempt_match : (delivery : ℕ) → Action Db (Unit {0})
  unfolding if_searching match_delivery
  attempt_match k = do x ← gets (λ db. find k db.deliveries); if_searching (match_delivery k) x

  -- `handleDeclineOrTimeout`: what follows the checks of the timer's handler and of a refusal.
  unfoldable pub handle_decline_or_timeout : (delivery driver : ℕ) → Action Db (Unit {0})
  unfolding attempt_match add
  handle_decline_or_timeout k driver = do
    modify (λ db. record db { excluded = add MatchScope.delivery k driver db.excluded })
    set_delivery k requested_again
    attempt_match k

  if_awaits : (driver : ℕ) → Action Db (Unit {0}) → Option Delivery → Action Db (Unit {0})
  if_awaits driver m none = pure tt
  if_awaits driver m (some x) = if awaits driver x then m else pure tt

  -- The handler of the timer that `offerToDriver` starts.
  unfoldable pub offer_timeout : (delivery driver : ℕ) → Action Db (Unit {0})
  unfolding if_awaits handle_decline_or_timeout
  offer_timeout k driver = do
    x ← gets (λ db. find k db.deliveries)
    if_awaits driver (handle_decline_or_timeout k driver) x

  unfoldable pub decline_delivery : (delivery driver : ℕ) → Action Db (Unit {0})
  unfolding get_delivery_or_404 handle_decline_or_timeout
  decline_delivery k driver = do
    x ← get_delivery_or_404 k
    raise_if (not (awaits driver x)) forbidden
    handle_decline_or_timeout k driver
