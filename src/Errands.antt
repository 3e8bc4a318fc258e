-- ===== src/Errands.antt =====
-- errands/errands.service.ts: an errand from the offer to one driver to its handing over.
-- `createErrand` is in Booking. The listings and the stamps of the times are left out.
--
-- `find_nearby` is the search of location/location.service.ts for drivers in the food and errand
-- mode. A timer's handler is an operation that may run at any later time. A method that checks a
-- row and then writes it by its identifier has the write as an operation of its own, since another
-- request may run between the two.
pub mod Booking
pub mod Lifecycle
pub mod Runs
pub mod Races
mod Tests
use novax_backend.Common.{
  ℕ, Bool, true, false, not, ◌&&◌, ◌||◌, ◌==◌, Option, none, some, List, [], ◌∷◌, has, is_some_of,
  if◌then◌else◌,
}
use novax_backend.Common.Action.{
  Action, Result, ok, err, not_found, forbidden, bad_request, pure, gets, or_raise, raise_if,
  modify, ◌>>=◌, ◌>>◌,
}
use novax_backend.Common.Table.{find, update}
use novax_backend.Schema.Enums.{ErrandStatus}
use novax_backend.Schema.Rows.{Errand}
use novax_backend.Schema.Db.{Db, MatchScope, Topic, Message, send, with_ledger}
use novax_backend.Excluded.{get_all, add, clear}
use novax_backend.Dispatch.{Candidate}
use novax_backend.Nearest.{search_radii, nearest}
use novax_backend.Ledger.{record_errand_payout}
use novax_backend.Loyalty.{award_points, points_per_delivery}

abbrev pub set_errand : ℕ → (Errand → Errand) → Action Db (Unit {0})
set_errand k f db = (ok tt, record db { errands = update k f db.errands })

abbrev pub with_status : ErrandStatus → Errand → Errand
with_status s e = record e { status = s }

-- `errand.updateMany({ where: { id, … }, data })`
unfoldable pub claim_errand : ℕ → (Errand → Bool) → (Errand → Errand) → Action Db Bool
claim_errand k guard f db = elim (find k db.errands) [
  | none ↦ (ok false, db)
  | some e ↦
      if guard e then (ok true, record db { errands = update k f db.errands }) else (ok false, db)
]

-- `getErrandOr404`
unfoldable pub get_errand_or_404 : ℕ → Action Db Errand
get_errand_or_404 k = do or_raise (← gets (λ db. find k db.errands)) not_found

abbrev pub is_matching : ErrandStatus → Bool
is_matching ErrandStatus.matching = true
is_matching _ = false

abbrev pub is_accepted : ErrandStatus → Bool
is_accepted ErrandStatus.accepted = true
is_accepted _ = false

abbrev pub is_shopping : ErrandStatus → Bool
is_shopping ErrandStatus.shopping = true
is_shopping _ = false

abbrev pub is_on_the_way : ErrandStatus → Bool
is_on_the_way ErrandStatus.on_the_way = true
is_on_the_way _ = false

abbrev pub is_searching : ErrandStatus → Bool
is_searching ErrandStatus.requested = true
is_searching ErrandStatus.matching = true
is_searching _ = false

-- `["REQUESTED", "MATCHING", "ACCEPTED"].includes(status)`
abbrev pub is_cancellable : ErrandStatus → Bool
is_cancellable ErrandStatus.accepted = true
is_cancellable status = is_searching status

-- `assertDriverOwnsErrand`
assert_driver_owns_errand : Errand → ℕ → (ErrandStatus → Bool) → Action Db (Unit {0})
assert_driver_owns_errand e driver allowed = do
  raise_if (not (is_some_of driver e.driver_id)) forbidden
  raise_if (not (allowed e.status)) bad_request

abbrev message : ℕ → Topic → ℕ → Message
message user topic errand = record {
  to = some user;
  topic = topic;
  scope = MatchScope.errand;
  job = errand;
}

abbrev pub offered_to : ℕ → Errand → Errand
offered_to driver e = record e { status = ErrandStatus.matching; driver_id = some driver }

abbrev pub requested_again : Errand → Errand
requested_again e = record e { status = ErrandStatus.requested; driver_id = none }

offer_if_found : (errand : ℕ) → Option ℕ → Action Db (Unit {0})
offer_if_found k none = pure tt
offer_if_found k (some driver) =
    set_errand k (offered_to driver) >> send (message driver Topic.offer k ∷ [])

if_searching : (Errand → Action Db (Unit {0})) → Option Errand → Action Db (Unit {0})
if_searching f none = pure tt
if_searching f (some e) = if is_searching e.status then f e else pure tt

abbrev pub awaits : ℕ → Errand → Bool
awaits driver e = is_matching e.status && is_some_of driver e.driver_id

if_awaits : (driver : ℕ) → Action Db (Unit {0}) → Option Errand → Action Db (Unit {0})
if_awaits driver m none = pure tt
if_awaits driver m (some e) = if awaits driver e then m else pure tt

module _ (find_nearby : (job radius : ℕ) → (want_test_fleet : Bool) → Db → List Candidate) where
  match_errand : (errand : ℕ) → Errand → Action Db (Unit {0})
  unfolding offer_if_found nearest
  match_errand k e = do
    driver ← gets (nearest find_nearby MatchScope.errand k e.requester_id search_radii)
    offer_if_found k driver

  unfoldable pub attempt_match : (errand : ℕ) → Action Db (Unit {0})
  unfolding if_searching match_errand
  attempt_match k = do e ← gets (λ db. find k db.errands); if_searching (match_errand k) e

  -- `handleDeclineOrTimeout`: what follows the checks of the timer's handler and of `declineOffer`.
  unfoldable pub handle_decline_or_timeout : (errand driver : ℕ) → Action Db (Unit {0})
  unfolding add attempt_match
  handle_decline_or_timeout k driver = do
    modify (λ db. record db { excluded = add MatchScope.errand k driver db.excluded })
    set_errand k requested_again
    attempt_match k

  -- The handler of the timer that `offerToDriver` starts.
  unfoldable pub offer_timeout : (errand driver : ℕ) → Action Db (Unit {0})
  unfolding if_awaits handle_decline_or_timeout
  offer_timeout k driver = do
    e ← gets (λ db. find k db.errands)
    if_awaits driver (handle_decline_or_timeout k driver) e

  unfoldable pub decline_offer : (driver errand : ℕ) → Action Db (Unit {0})
  unfolding get_errand_or_404 handle_decline_or_timeout
  decline_offer driver k = do
    e ← get_errand_or_404 k
    raise_if (not (awaits driver e)) forbidden
    handle_decline_or_timeout k driver

unfoldable pub accept_offer : (driver errand : ℕ) → Action Db Errand
unfolding claim_errand get_errand_or_404 clear
accept_offer driver k = do
  claimed ← claim_errand k (awaits driver) (with_status ErrandStatus.accepted)
  raise_if (not claimed) forbidden
  e ← get_errand_or_404 k
  modify (λ db. record db { excluded = clear MatchScope.errand k db.excluded })
  send (message e.requester_id Topic.matched k ∷ [])
  pure e

-- What follows the checks of `startShopping`, by the row `read` that they read; so below.
unfoldable pub shop_write : (errand : ℕ) → Errand → Action Db Errand
unfolding get_errand_or_404
shop_write k read = do
  set_errand k (with_status ErrandStatus.shopping)
  send (message read.requester_id Topic.shopping k ∷ [])
  get_errand_or_404 k

unfoldable pub start_shopping : (driver errand : ℕ) → Action Db Errand
unfolding get_errand_or_404 assert_driver_owns_errand shop_write
start_shopping driver k = do
  e ← get_errand_or_404 k
  assert_driver_owns_errand e driver is_accepted
  shop_write k e

abbrev pub on_the_way_with : ℕ → Errand → Errand
on_the_way_with spend e = record e { status = ErrandStatus.on_the_way; actual_spend = some spend }

-- What follows the checks of `markOnTheWay`.
unfoldable pub leave_write : (errand actual_spend : ℕ) → Errand → Action Db Errand
unfolding get_errand_or_404
leave_write k actual_spend read = do
  set_errand k (on_the_way_with actual_spend)
  send (message read.requester_id Topic.in_transit k ∷ [])
  get_errand_or_404 k

unfoldable pub mark_on_the_way : (driver errand actual_spend : ℕ) → Action Db Errand
unfolding get_errand_or_404 assert_driver_owns_errand leave_write
mark_on_the_way driver k actual_spend = do
  e ← get_errand_or_404 k
  assert_driver_owns_errand e driver is_shopping
  leave_write k actual_spend e

abbrev pub may_deliver : Errand → Bool
may_deliver e = is_on_the_way e.status

-- What the call does that made the change.
settle : (errand driver now : ℕ) → Errand → Action Db Errand
unfolding get_errand_or_404 record_errand_payout
settle k driver now read = do
  updated ← get_errand_or_404 k
  send (message read.requester_id Topic.delivered k ∷ [])
  with_ledger (record_errand_payout driver k read.service_fee now)
  award_points read.requester_id points_per_delivery
  pure updated

if_claimed : (errand driver now : ℕ) → Errand → Bool → Action Db Errand
unfolding settle get_errand_or_404
if_claimed k driver now read true = settle k driver now read
if_claimed k driver now read false = get_errand_or_404 k

-- What follows the checks of `markDelivered`.
unfoldable pub deliver_write : (errand driver now : ℕ) → Errand → Action Db Errand
unfolding claim_errand if_claimed
deliver_write k driver now read = do
  claimed ← claim_errand k may_deliver (with_status ErrandStatus.delivered)
  if_claimed k driver now read claimed

unfoldable pub mark_delivered : (driver errand now : ℕ) → Action Db Errand
unfolding get_errand_or_404 assert_driver_owns_errand deliver_write
mark_delivered driver k now = do
  e ← get_errand_or_404 k
  assert_driver_owns_errand e driver is_on_the_way
  deliver_write k driver now e

abbrev pub is_party : ℕ → Errand → Bool
is_party user e = e.requester_id == user || is_some_of user e.driver_id

-- What follows the checks of `cancelErrand`.
unfoldable pub cancel_write : (errand : ℕ) → Action Db Errand
unfolding get_errand_or_404 clear
cancel_write k = do
  set_errand k (with_status ErrandStatus.cancelled)
  updated ← get_errand_or_404 k
  modify (λ db. record db { excluded = clear MatchScope.errand k db.excluded })
  pure updated

unfoldable pub cancel_errand : (errand user : ℕ) → Action Db Errand
unfolding get_errand_or_404 cancel_write
cancel_errand k user = do
  e ← get_errand_or_404 k
  raise_if (not (is_party user e)) forbidden
  raise_if (not (is_cancellable e.status)) bad_request
  cancel_write k
