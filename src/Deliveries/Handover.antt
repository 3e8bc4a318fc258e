-- ===== src/Deliveries/Handover.antt =====
-- delivery/delivery.service.ts from the driver's accept on: `acceptDelivery`, `markPickedUp`,
-- `markInTransit`, `markDelivered` and `cancelDelivery`.
--
-- An operation whose name ends in `_write` is what follows the checks of a method; another request
-- may run between the two.
pub mod Once
use novax_backend.Common.{
  ℕ, Bool, true, false, not, ◌&&◌, ◌||◌, ◌==◌, Option, none, some, List, [], ◌∷◌, is_some_of,
  if◌then◌else◌,
}
use novax_backend.Common.Action.{
  Action, Result, ok, err, forbidden, bad_request, pure, raise_if, modify, ◌>>=◌, ◌>>◌,
}
use novax_backend.Schema.Enums.{DeliveryStatus}
use novax_backend.Schema.Rows.{Delivery}
use novax_backend.Schema.Db.{Db, MatchScope, Topic, Message, send, with_ledger}
use novax_backend.Excluded.{clear}
use novax_backend.Ledger.{record_delivery_payout}
use novax_backend.Loyalty.{award_points, points_per_delivery}
use novax_backend.Deliveries.{
  set_delivery, claim_delivery, get_delivery_or_404, assert_driver_owns_delivery, is_matched,
  is_picked_up, is_carried, is_cancellable, awaits, message,
}

abbrev pub matched_at_time : ℕ → Delivery → Delivery
matched_at_time now x = record x { status = DeliveryStatus.matched; matched_at = some now }

unfoldable pub accept_delivery : (delivery driver now : ℕ) → Action Db Delivery
unfolding claim_delivery get_delivery_or_404 clear
accept_delivery k driver now = do
  claimed ← claim_delivery k (awaits driver) (matched_at_time now)
  raise_if (not claimed) forbidden
  x ← get_delivery_or_404 k
  modify (λ db. record db { excluded = clear MatchScope.delivery k db.excluded })
  send (message x.sender_id Topic.matched k ∷ [])
  pure x

abbrev pub picked_up_at_time : ℕ → Delivery → Delivery
picked_up_at_time now x = record x { status = DeliveryStatus.picked_up; picked_up_at = some now }

-- What follows the checks of `markPickedUp`, by the row `read` that they read; so below.
unfoldable pub pick_up_write : (delivery now : ℕ) → Delivery → Action Db Delivery
unfolding get_delivery_or_404
pick_up_write k now read = do
  set_delivery k (picked_up_at_time now)
  send (message read.sender_id Topic.picked_up k ∷ [])
  get_delivery_or_404 k

unfoldable pub mark_picked_up : (delivery driver now : ℕ) → Action Db Delivery
unfolding get_delivery_or_404 assert_driver_owns_delivery pick_up_write
mark_picked_up k driver now = do
  x ← get_delivery_or_404 k
  assert_driver_owns_delivery x driver is_matched
  pick_up_write k now x

abbrev pub on_the_road : Delivery → Delivery
on_the_road x = record x { status = DeliveryStatus.in_transit }

-- What follows the checks of `markInTransit`.
unfoldable pub transit_write : (delivery : ℕ) → Delivery → Action Db Delivery
unfolding get_delivery_or_404
transit_write k read = do
  set_delivery k on_the_road
  send (message read.sender_id Topic.in_transit k ∷ [])
  get_delivery_or_404 k

unfoldable pub mark_in_transit : (delivery driver : ℕ) → Action Db Delivery
unfolding get_delivery_or_404 assert_driver_owns_delivery transit_write
mark_in_transit k driver = do
  x ← get_delivery_or_404 k
  assert_driver_owns_delivery x driver is_picked_up
  transit_write k x

abbrev pub may_deliver : Delivery → Bool
may_deliver x = is_carried x.status

abbrev pub delivered_at_time : ℕ → Delivery → Delivery
delivered_at_time now x = record x { status = DeliveryStatus.delivered; delivered_at = some now }

-- `if (delivery.fare) { … }`
pay : (delivery driver now : ℕ) → Delivery → Option ℕ → Action Db (Unit {0})
unfolding record_delivery_payout
pay k driver now read none = pure tt
pay k driver now read (some fare) =
    with_ledger (record_delivery_payout driver k fare read.cod_amount (some read.sender_id) now)

-- The ledger and the points, by the row `read` that the method read first.
close : (delivery driver now : ℕ) → Delivery → Action Db (Unit {0})
unfolding pay
close k driver now read = do
  pay k driver now read read.fare
  award_points read.sender_id points_per_delivery

-- What the call does that made the change.
settle : (delivery driver now : ℕ) → Delivery → Action Db Delivery
unfolding get_delivery_or_404 close
settle k driver now read = do
  updated ← get_delivery_or_404 k
  send (message read.sender_id Topic.delivered k ∷ [])
  close k driver now read
  pure updated

if_claimed : (delivery driver now : ℕ) → Delivery → Bool → Action Db Delivery
unfolding settle get_delivery_or_404
if_claimed k driver now read true = settle k driver now read
if_claimed k driver now read false = get_delivery_or_404 k

unfoldable pub deliver_write : (delivery driver now : ℕ) → Delivery → Action Db Delivery
unfolding if_claimed claim_delivery
deliver_write k driver now read = do
  claimed ← claim_delivery k may_deliver (delivered_at_time now)
  if_claimed k driver now read claimed

unfoldable pub mark_delivered : (delivery driver now : ℕ) → Action Db Delivery
unfolding get_delivery_or_404 assert_driver_owns_delivery deliver_write
mark_delivered k driver now = do
  x ← get_delivery_or_404 k
  assert_driver_owns_delivery x driver is_carried
  deliver_write k driver now x

abbrev pub is_party : ℕ → Delivery → Bool
is_party user x = x.sender_id == user || is_some_of user x.driver_id

abbrev pub cancelled_at_time : ℕ → Delivery → Delivery
cancelled_at_time now x = record x { status = DeliveryStatus.cancelled; cancelled_at = some now }

told : ℕ → Option ℕ → List Message
told k none = []
told k (some driver) = message driver Topic.cancelled k ∷ []

-- The other party, when there is one.
cancel_messages : (user delivery : ℕ) → Delivery → List Message
unfolding told
cancel_messages user k x =
    if x.sender_id == user then told k x.driver_id else message x.sender_id Topic.cancelled k ∷ []

-- What follows the checks of `cancelDelivery`.
unfoldable pub cancel_write : (delivery user now : ℕ) → Delivery → Action Db Delivery
unfolding get_delivery_or_404 clear cancel_messages
cancel_write k user now read = do
  set_delivery k (cancelled_at_time now)
  updated ← get_delivery_or_404 k
  modify (λ db. record db { excluded = clear MatchScope.delivery k db.excluded })
  send (cancel_messages user k read)
  pure updated

unfoldable pub cancel_delivery : (delivery user now : ℕ) → Action Db Delivery
unfolding get_delivery_or_404 cancel_write
cancel_delivery k user now = do
  x ← get_delivery_or_404 k
  raise_if (not (is_party user x)) forbidden
  raise_if (not (is_cancellable x.status)) bad_request
  cancel_write k user now x
