-- ===== src/FoodOrders/Runs.antt =====
-- Any methods of food-orders/food-orders.service.ts, one after another on one order.
use novax_backend.Common.{
  ℕ, ◌≡◌, refl, ◌⊎◌, inl, inr, arith, Bool, true, false, some, List, [], ◌∷◌,
}
use novax_backend.Common.Table.{find}
use novax_backend.Schema.Enums.{FoodOrderStatus}
use novax_backend.Schema.Rows.{FoodOrder}
use novax_backend.Schema.Db.{Db}
use novax_backend.Dispatch.{Candidate}
use novax_backend.FoodOrders.{
  accept_order, mark_ready, attempt_match, offer_timeout, decline_offer, accept_offer,
  mark_picked_up, mark_delivered, cancel_order,
}
use novax_backend.FoodOrders.Lifecycle.{
  Edge, Reach, Reach-trans, IsMoved, accept_order-IsMoved, mark_ready-IsMoved,
  attempt_match-IsMoved, offer_timeout-IsMoved, decline_offer-IsMoved, accept_offer-IsMoved,
  mark_picked_up-IsMoved, cancel_order-IsMoved,
}
use novax_backend.FoodOrders.Handover.{mark_delivered-IsMoved}

-- A call of a method, or a timer or a search that runs; the number is who calls.
pub data Call : Type 0 where
  restaurant_accepts restaurant_readies : ℕ → Call
  search_runs : Call
  offer_expires driver_declines driver_accepts driver_picks_up : ℕ → Call
  driver_delivers : (driver now : ℕ) → Call
  party_cancels : ℕ → Call

is_final : FoodOrderStatus → Bool
is_final FoodOrderStatus.delivered = true
is_final FoodOrderStatus.cancelled = true
is_final _ = false

Edge-is_final : {s e : FoodOrderStatus} → Edge s e → is_final s ≡ false
unfolding is_final
Edge-is_final Edge.accepts = refl
Edge-is_final Edge.readies = refl
Edge-is_final Edge.offers = refl
Edge-is_final Edge.offers_again = refl
Edge-is_final Edge.returns = refl
Edge-is_final Edge.assigns = refl
Edge-is_final Edge.picks_up = refl
Edge-is_final Edge.delivers = refl
Edge-is_final (Edge.cancels {s} c) = ground arith

final_stays : {s e : FoodOrderStatus} → is_final s ≡ true → Reach s e → e ≡ s
final_stays f Reach.stay = refl
final_stays f (Reach.step x p) = cc (f, Edge-is_final x)

final :
    (s : FoodOrderStatus)
    → (s ≡ FoodOrderStatus.delivered) ⊎ (s ≡ FoodOrderStatus.cancelled)
    → is_final s ≡ true
unfolding is_final
final s (inl e) = rw e refl
final s (inr e) = rw e refl

module _ (find_nearby : (job radius : ℕ) → (want_test_fleet : Bool) → Db → List Candidate) where
  unfoldable pub run : (order : ℕ) → Call → Db → Db
  run k (Call.restaurant_accepts owner) db = (accept_order owner k db).1
  run k (Call.restaurant_readies owner) db = (mark_ready owner k db).1
  run k Call.search_runs db = (attempt_match find_nearby k db).1
  run k (Call.offer_expires driver) db = (offer_timeout find_nearby k driver db).1
  run k (Call.driver_declines driver) db = (decline_offer find_nearby driver k db).1
  run k (Call.driver_accepts driver) db = (accept_offer driver k db).1
  run k (Call.driver_picks_up driver) db = (mark_picked_up driver k db).1
  run k (Call.driver_delivers driver now) db = (mark_delivered driver k now db).1
  run k (Call.party_cancels user) db = (cancel_order k user db).1

  unfoldable pub run_all : (order : ℕ) → List Call → Db → Db
  unfolding run
  run_all k [] db = db
  run_all k (c ∷ cs) db = run_all k cs (run k c db)

  run-IsMoved :
      (k : ℕ) (c : Call) (db : Db) (o : FoodOrder)
      → find k db.food_orders ≡ some o
      → IsMoved k o (run k c db)
  unfolding run
  run-IsMoved k (Call.restaurant_accepts owner) db o e = accept_order-IsMoved k db o e owner
  run-IsMoved k (Call.restaurant_readies owner) db o e = mark_ready-IsMoved k db o e owner
  run-IsMoved k Call.search_runs db o e = attempt_match-IsMoved find_nearby k db o e
  run-IsMoved k (Call.offer_expires driver) db o e =
      offer_timeout-IsMoved find_nearby k driver db o e
  run-IsMoved k (Call.driver_declines driver) db o e =
      decline_offer-IsMoved find_nearby k driver db o e
  run-IsMoved k (Call.driver_accepts driver) db o e = accept_offer-IsMoved k db o e driver
  run-IsMoved k (Call.driver_picks_up driver) db o e = mark_picked_up-IsMoved k db o e driver
  run-IsMoved k (Call.driver_delivers driver now) db o e =
      mark_delivered-IsMoved k db o e driver now
  run-IsMoved k (Call.party_cancels user) db o e = cancel_order-IsMoved k db o e user

  -- Whatever calls are made on an order one after another, each ending before the next begins, in
  -- whatever order and by whomever, the order is still there and its status is one that the steps
  -- of the lifecycle lead to from the status it had.
  pub run_all-IsMoved :
      (k : ℕ) (cs : List Call) (db : Db) (o : FoodOrder)
      → find k db.food_orders ≡ some o
      → IsMoved k o (run_all k cs db)
  unfolding run_all
  run_all-IsMoved k [] db o e = (o, e, Reach.stay)
  run_all-IsMoved k (c ∷ cs) db o e =
      let (o1, e1, path) = run-IsMoved k c db o e in
      let (o2, e2, further) = run_all-IsMoved k cs (run k c db) o1 e1 in
      (o2, e2, Reach-trans path further)

  -- An order that is delivered or cancelled stays so, whatever calls are made on it one after
  -- another.
  pub run_all_final :
      (k : ℕ) (cs : List Call) (db : Db) (o : FoodOrder)
      → find k db.food_orders ≡ some o
      → (o.status ≡ FoodOrderStatus.delivered) ⊎ (o.status ≡ FoodOrderStatus.cancelled)
      → (o' : FoodOrder) × (find k (run_all k cs db).food_orders ≡ some o') × (o'.status ≡ o.status)
  run_all_final k cs db o e f =
      let (o', e', path) = run_all-IsMoved k cs db o e in
      (o', e', final_stays (final o.status f) path)
