-- ===== src/FoodOrders.antt =====
-- food-orders/food-orders.service.ts: an order from the restaurant's acceptance to its handing
-- over. The booking is in Booking and the rating in Ratings. The listings and the stamps of the
-- times are left out.
--
-- `find_nearby` is the search of location/location.service.ts for drivers in the food mode. A
-- timer's handler is an operation that may run at any later time, and so is the search that
-- `markReady` starts. A method that checks a row and then writes it by its identifier has the write
-- as an operation of its own, since another request may run between the two.
pub mod Lifecycle
pub mod Booking
pub mod Handover
pub mod Runs
pub mod Races
mod Tests
use novax_backend.Common.{
  ℕ, Bool, true, false, not, ◌&&◌, ◌||◌, ◌==◌, Option, none, some, List, [], ◌∷◌, has, is_some_of,
  if◌then◌else◌,
}
use novax_backend.Common.Action.{
  Action, Result, ok, err, not_found, forbidden, bad_request, pure, gets, or_raise, raise_if,
  modify, ◌>>=◌, ◌>>◌,
}
use novax_backend.Common.Table.{find, update}
use novax_backend.Schema.Enums.{FoodOrderStatus}
use novax_backend.Schema.Rows.{User, FoodOrder, Restaurant}
use novax_backend.Schema.Db.{Db, MatchScope, Topic, Message, send, with_ledger}
use novax_backend.Excluded.{get_all, add, clear}
use novax_backend.Dispatch.{Candidate}
use novax_backend.Nearest.{search_radii, nearest}
use novax_backend.Ledger.{record_food_order_payouts}
use novax_backend.Loyalty.{award_points, points_per_delivery}

abbrev pub set_order : ℕ → (FoodOrder → FoodOrder) → Action Db (Unit {0})
set_order k f db = (ok tt, record db { food_orders = update k f db.food_orders })

abbrev pub with_status : FoodOrderStatus → FoodOrder → FoodOrder
with_status s o = record o { status = s }

-- `foodOrder.updateMany({ where: { id, … }, data })`
unfoldable pub claim_order : ℕ → (FoodOrder → Bool) → (FoodOrder → FoodOrder) → Action Db Bool
claim_order k guard f db = elim (find k db.food_orders) [
  | none ↦ (ok false, db)
  | some o ↦
      if guard o
      then (ok true, record db { food_orders = update k f db.food_orders })
      else (ok false, db)
]

-- `getOrderOr404`
unfoldable pub get_order_or_404 : ℕ → Action Db FoodOrder
get_order_or_404 k = do or_raise (← gets (λ db. find k db.food_orders)) not_found

abbrev pub is_placed : FoodOrderStatus → Bool
is_placed FoodOrderStatus.placed = true
is_placed _ = false

abbrev pub is_accepted : FoodOrderStatus → Bool
is_accepted FoodOrderStatus.accepted = true
is_accepted _ = false

abbrev pub is_matching : FoodOrderStatus → Bool
is_matching FoodOrderStatus.matching = true
is_matching _ = false

abbrev pub is_assigned : FoodOrderStatus → Bool
is_assigned FoodOrderStatus.assigned = true
is_assigned _ = false

abbrev pub is_picked_up : FoodOrderStatus → Bool
is_picked_up FoodOrderStatus.picked_up = true
is_picked_up _ = false

abbrev pub is_searching : FoodOrderStatus → Bool
is_searching FoodOrderStatus.ready = true
is_searching FoodOrderStatus.matching = true
is_searching _ = false

-- `["PLACED", "ACCEPTED", "READY", "MATCHING"].includes(status)`
abbrev pub is_cancellable : FoodOrderStatus → Bool
is_cancellable FoodOrderStatus.placed = true
is_cancellable FoodOrderStatus.accepted = true
is_cancellable status = is_searching status

owned_by : ℕ → Option Restaurant → Bool
owned_by user none = false
owned_by user (some r) = r.owner_id == user

-- `getRestaurantOwnedOrderOr404`
get_owned_order_or_404 : (owner order : ℕ) → Action Db FoodOrder
unfolding get_order_or_404 owned_by
get_owned_order_or_404 owner k = do
  o ← get_order_or_404 k
  restaurant ← gets (λ db. find o.restaurant_id db.restaurants)
  raise_if (not (owned_by owner restaurant)) forbidden
  pure o

-- `assertDriverOwnsOrder`
assert_driver_owns_order : FoodOrder → ℕ → (FoodOrderStatus → Bool) → Action Db (Unit {0})
assert_driver_owns_order o driver allowed = do
  raise_if (not (is_some_of driver o.driver_id)) forbidden
  raise_if (not (allowed o.status)) bad_request

abbrev message : ℕ → Topic → ℕ → Message
message user topic order = record {
  to = some user;
  topic = topic;
  scope = MatchScope.food_order;
  job = order;
}

-- What follows the checks of `acceptOrder`, by the row `read` that they read; so below.
unfoldable pub accept_write : (order : ℕ) → FoodOrder → Action Db FoodOrder
unfolding get_order_or_404
accept_write k read = do
  set_order k (with_status FoodOrderStatus.accepted)
  send (message read.customer_id Topic.accepted k ∷ [])
  get_order_or_404 k

unfoldable pub accept_order : (owner order : ℕ) → Action Db FoodOrder
unfolding get_owned_order_or_404 accept_write
accept_order owner k = do
  o ← get_owned_order_or_404 owner k
  raise_if (not (is_placed o.status)) bad_request
  accept_write k o

-- The search that it starts is an operation of its own.
unfoldable pub ready_write : (order : ℕ) → FoodOrder → Action Db FoodOrder
unfolding get_order_or_404
ready_write k read = do
  set_order k (with_status FoodOrderStatus.ready)
  send (message read.customer_id Topic.ready k ∷ [])
  get_order_or_404 k

unfoldable pub mark_ready : (owner order : ℕ) → Action Db FoodOrder
unfolding get_owned_order_or_404 ready_write
mark_ready owner k = do
  o ← get_owned_order_or_404 owner k
  raise_if (not (is_accepted o.status)) bad_request
  ready_write k o

abbrev pub offered_to : ℕ → FoodOrder → FoodOrder
offered_to driver o = record o { status = FoodOrderStatus.matching; driver_id = some driver }

abbrev pub ready_again : FoodOrder → FoodOrder
ready_again o = record o { status = FoodOrderStatus.ready; driver_id = none }

offer_if_found : (order : ℕ) → Option ℕ → Action Db (Unit {0})
offer_if_found k none = pure tt
offer_if_found k (some driver) =
    set_order k (offered_to driver) >> send (message driver Topic.offer k ∷ [])

if_searching : (FoodOrder → Action Db (Unit {0})) → Option FoodOrder → Action Db (Unit {0})
if_searching f none = pure tt
if_searching f (some o) = if is_searching o.status then f o else pure tt

abbrev pub awaits : ℕ → FoodOrder → Bool
awaits driver o = is_matching o.status && is_some_of driver o.driver_id

if_awaits : (driver : ℕ) → Action Db (Unit {0}) → Option FoodOrder → Action Db (Unit {0})
if_awaits driver m none = pure tt
if_awaits driver m (some o) = if awaits driver o then m else pure tt

module _ (find_nearby : (job radius : ℕ) → (want_test_fleet : Bool) → Db → List Candidate) where
  match_order : (order : ℕ) → FoodOrder → Action Db (Unit {0})
  unfolding offer_if_found nearest
  match_order k o = do
    driver ← gets (nearest find_nearby MatchScope.food_order k o.customer_id search_radii)
    offer_if_found k driver

  unfoldable pub attempt_match : (order : ℕ) → Action Db (Unit {0})
  unfolding if_searching match_order
  attempt_match k = do o ← gets (λ db. find k db.food_orders); if_searching (match_order k) o

  -- `handleDeclineOrTimeout`: what follows the checks of the timer's handler and of `declineOffer`.
  unfoldable pub handle_decline_or_timeout : (order driver : ℕ) → Action Db (Unit {0})
  unfolding add attempt_match
  handle_decline_or_timeout k driver = do
    modify (λ db. record db { excluded = add MatchScope.food_order k driver db.excluded })
    set_order k ready_again
    attempt_match k

  -- The handler of the timer that `offerToDriver` starts.
  unfoldable pub offer_timeout : (order driver : ℕ) → Action Db (Unit {0})
  unfolding if_awaits handle_decline_or_timeout
  offer_timeout k driver = do
    o ← gets (λ db. find k db.food_orders)
    if_awaits driver (handle_decline_or_timeout k driver) o

  unfoldable pub decline_offer : (driver order : ℕ) → Action Db (Unit {0})
  unfolding get_order_or_404 handle_decline_or_timeout
  decline_offer driver k = do
    o ← get_order_or_404 k
    raise_if (not (awaits driver o)) forbidden
    handle_decline_or_timeout k driver

unfoldable pub accept_offer : (driver order : ℕ) → Action Db FoodOrder
unfolding claim_order get_order_or_404 clear
accept_offer driver k = do
  claimed ← claim_order k (awaits driver) (with_status FoodOrderStatus.assigned)
  raise_if (not claimed) forbidden
  o ← get_order_or_404 k
  modify (λ db. record db { excluded = clear MatchScope.food_order k db.excluded })
  send (message o.customer_id Topic.matched k ∷ [])
  pure o

-- What follows the checks of `markPickedUp`.
unfoldable pub pick_up_write : (order : ℕ) → FoodOrder → Action Db FoodOrder
unfolding get_order_or_404
pick_up_write k read = do
  set_order k (with_status FoodOrderStatus.picked_up)
  send (message read.customer_id Topic.picked_up k ∷ [])
  get_order_or_404 k

unfoldable pub mark_picked_up : (driver order : ℕ) → Action Db FoodOrder
unfolding get_order_or_404 assert_driver_owns_order pick_up_write
mark_picked_up driver k = do
  o ← get_order_or_404 k
  assert_driver_owns_order o driver is_assigned
  pick_up_write k o

abbrev pub may_deliver : FoodOrder → Bool
may_deliver o = is_picked_up o.status

-- `if (restaurant) { … }`
pay : (order driver now : ℕ) → FoodOrder → Option Restaurant → Action Db (Unit {0})
unfolding record_food_order_payouts
pay k driver now o none = pure tt
pay k driver now o (some r) = with_ledger (
    record_food_order_payouts driver r.owner_id k o.delivery_fee o.items_total r.commission_rate
      now)

-- What the call does that made the change.
settle : (order driver now : ℕ) → FoodOrder → Action Db FoodOrder
unfolding get_order_or_404 pay
settle k driver now read = do
  updated ← get_order_or_404 k
  send (message read.customer_id Topic.delivered k ∷ [])
  restaurant ← gets (λ db. find read.restaurant_id db.restaurants)
  pay k driver now read restaurant
  award_points read.customer_id points_per_delivery
  pure updated

if_claimed : (order driver now : ℕ) → FoodOrder → Bool → Action Db FoodOrder
unfolding settle get_order_or_404
if_claimed k driver now read true = settle k driver now read
if_claimed k driver now read false = get_order_or_404 k

-- What follows the checks of `markDelivered`.
unfoldable pub deliver_write : (order driver now : ℕ) → FoodOrder → Action Db FoodOrder
unfolding claim_order if_claimed
deliver_write k driver now read = do
  claimed ← claim_order k may_deliver (with_status FoodOrderStatus.delivered)
  if_claimed k driver now read claimed

unfoldable pub mark_delivered : (driver order now : ℕ) → Action Db FoodOrder
unfolding get_order_or_404 assert_driver_owns_order deliver_write
mark_delivered driver k now = do
  o ← get_order_or_404 k
  assert_driver_owns_order o driver is_picked_up
  deliver_write k driver now o

is_party : ℕ → FoodOrder → Option Restaurant → Bool
unfolding owned_by
is_party user o restaurant =
    o.customer_id == user || is_some_of user o.driver_id || owned_by user restaurant

-- What follows the checks of `cancelOrder`.
unfoldable pub cancel_write : (order : ℕ) → Action Db FoodOrder
unfolding get_order_or_404 clear
cancel_write k = do
  set_order k (with_status FoodOrderStatus.cancelled)
  updated ← get_order_or_404 k
  modify (λ db. record db { excluded = clear MatchScope.food_order k db.excluded })
  pure updated

unfoldable pub cancel_order : (order user : ℕ) → Action Db FoodOrder
unfolding get_order_or_404 is_party cancel_write
cancel_order k user = do
  o ← get_order_or_404 k
  restaurant ← gets (λ db. find o.restaurant_id db.restaurants)
  raise_if (not (is_party user o restaurant)) forbidden
  raise_if (not (is_cancellable o.status)) bad_request
  cancel_write k
