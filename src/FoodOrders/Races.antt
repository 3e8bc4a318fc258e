-- ===== src/FoodOrders/Races.antt =====
-- Interleavings of the requests of food-orders/food-orders.service.ts: a method reads an order,
-- checks it and writes it by its identifier, and another request runs in between.
use novax_backend.Common.{ℕ, ◌≡◌, refl, inl, inr, Bool, true, Option-cases, some, List, arith}
use novax_backend.Common.Action.{ok}
use novax_backend.Common.Table.{find, update, find-update_self}
use novax_backend.Schema.Enums.{FoodOrderStatus}
use novax_backend.Schema.Rows.{FoodOrder, Restaurant}
use novax_backend.Schema.Db.{Db, MatchScope}
use novax_backend.Excluded.{add}
use novax_backend.Dispatch.{Candidate}
use novax_backend.Nearest.{search_radii, nearest}
use novax_backend.FoodOrders.{
  with_status, offered_to, ready_again, is_searching, awaits, get_owned_order_or_404, accept_write,
  accept_order, offer_if_found, if_searching, match_order, attempt_match, handle_decline_or_timeout,
  if_awaits, offer_timeout, accept_offer, cancel_order,
}

module _ (k : ℕ) (db : Db) (o : FoodOrder) (at : find k db.food_orders ≡ some o) where
  set_row :
      (s : FoodOrderStatus)
      → find k (update k (with_status s) db.food_orders) ≡ some (with_status s o)
  set_row s = find-update_self k (with_status s) db.food_orders o at

  accept_offer_lem :
      (driver : ℕ)
      → awaits driver o ≡ true
      → let (r, db') = accept_offer driver k db in
        (r ≡ ok (with_status FoodOrderStatus.assigned o))
        × (find k db'.food_orders ≡ some (with_status FoodOrderStatus.assigned o))
  unfolding accept_offer
  accept_offer_lem driver a =
      let row = set_row FoodOrderStatus.assigned in
      (ground (arith, at, row), ground (arith, at, row))

  accept_write_lem :
      (read : FoodOrder)
      → let (r, db') = accept_write k read db in
        (r ≡ ok (with_status FoodOrderStatus.accepted o))
        × (find k db'.food_orders ≡ some (with_status FoodOrderStatus.accepted o))
  unfolding accept_write
  accept_write_lem read =
      let row = set_row FoodOrderStatus.accepted in
      (ground (arith, at, row), ground (arith, at, row))

  accept_passes :
      (owner : ℕ) (r : Restaurant)
      → o.status ≡ FoodOrderStatus.placed
      → find o.restaurant_id db.restaurants ≡ some r
      → r.owner_id ≡ owner
      → accept_order owner k db ≡ accept_write k o db
  unfolding accept_order get_owned_order_or_404
  accept_passes owner r p e own = ground (arith, at)

  cancel_lem :
      o.status ≡ FoodOrderStatus.placed
      → let (r, db') = cancel_order k o.customer_id db in
        (r ≡ ok (with_status FoodOrderStatus.cancelled o))
        × (find k db'.food_orders ≡ some (with_status FoodOrderStatus.cancelled o))
  unfolding cancel_order
  cancel_lem p =
      let row = set_row FoodOrderStatus.cancelled in
      (ground (arith, at, row), ground (arith, at, row))

-- Suppose the restaurant's `acceptOrder` has read a placed order and passed its checks, and the
-- customer calls the order off before it writes. Both are told that they succeeded, and the order
-- that was called off is accepted.
accept_revives_cancelled :
    (k owner : ℕ) (db : Db) (o : FoodOrder) (restaurant : Restaurant)
    → find k db.food_orders ≡ some o
    → o.status ≡ FoodOrderStatus.placed
    → find o.restaurant_id db.restaurants ≡ some restaurant
    → restaurant.owner_id ≡ owner
    → let (cancelling, db') = cancel_order k o.customer_id db in
      let (accepting, db'') = accept_write k o db' in
      (accept_order owner k db ≡ accept_write k o db)
      × (cancelling ≡ ok (with_status FoodOrderStatus.cancelled o))
      × (accepting ≡ ok (with_status FoodOrderStatus.accepted o))
      × (find k db''.food_orders ≡ some (with_status FoodOrderStatus.accepted o))
accept_revives_cancelled k owner db o restaurant at p e own =
    let (cancelling, off) = cancel_lem k db o at p in
    let db' : Db = (cancel_order k o.customer_id db).1 in
    let (accepting, on) = accept_write_lem k db' (with_status FoodOrderStatus.cancelled o) off o in
    (accept_passes k db o at owner restaurant p e own, cancelling, accepting, on)

module _ (find_nearby : (job radius : ℕ) → (want_test_fleet : Bool) → Db → List Candidate) where
  -- A search leaves an order that was looking looking, or being offered.
  still_searching :
      (k : ℕ) (db : Db) (o : FoodOrder)
      → find k db.food_orders ≡ some o
      → is_searching o.status ≡ true
      → (o' : FoodOrder) × (find k (attempt_match find_nearby k db).1.food_orders ≡ some o')
        × (is_searching o'.status ≡ true)
  unfolding attempt_match if_searching match_order offer_if_found
  still_searching k db o at s =
      elim (Option-cases
        (nearest find_nearby MatchScope.food_order k o.customer_id search_radii db)) [
          | inl n ↦ (o, rw (at, if_searching, s, n, offer_if_found) at, s)
          | inr (d, n) ↦ (
            offered_to d o,
            rw (at, if_searching, s, n, offer_if_found)
                (find-update_self k (offered_to d) db.food_orders o at),
            refl,
          )
        ]

  taken_back :
      (k d : ℕ) (db : Db) (o : FoodOrder)
      → find k db.food_orders ≡ some o
      → (o' : FoodOrder) × (find k (handle_decline_or_timeout find_nearby k d db).1.food_orders
          ≡ some o')
        × (is_searching o'.status ≡ true)
  unfolding handle_decline_or_timeout
  taken_back k d db o at =
      let db1 : Db = record db {
        excluded = add MatchScope.food_order k d db.excluded;
        food_orders = update k ready_again db.food_orders;
      } in
      still_searching k db1 (ready_again o) (find-update_self k ready_again db.food_orders o at)
        refl

  timer_passes :
      (k d : ℕ) (db : Db) (o : FoodOrder)
      → find k db.food_orders ≡ some o
      → awaits d o ≡ true
      → offer_timeout find_nearby k d db ≡ handle_decline_or_timeout find_nearby k d db
  unfolding offer_timeout if_awaits
  timer_passes k d db o at a = rw (at, if_awaits, a) refl

  -- Suppose the timer of an offer has found the order waiting for the driver, whose accept reaches
  -- the database before the timer writes. The driver is told that the order is theirs; yet once
  -- the timer is done the order is looking for a driver again.
  order_timeout_undoes_accept :
      (k d : ℕ) (db : Db) (o : FoodOrder)
      → find k db.food_orders ≡ some o
      → awaits d o ≡ true
      → let (accepting, db') = accept_offer d k db in
        let (_, db'') = handle_decline_or_timeout find_nearby k d db' in
        (offer_timeout find_nearby k d db ≡ handle_decline_or_timeout find_nearby k d db)
        × (accepting ≡ ok (with_status FoodOrderStatus.assigned o))
        × ((o' : FoodOrder) × (find k db''.food_orders ≡ some o') × (is_searching o'.status ≡ true))
  order_timeout_undoes_accept k d db o at a =
      let (accepting, row) = accept_offer_lem k db o at d a in
      let db' : Db = (accept_offer d k db).1 in
      (
        timer_passes k d db o at a,
        accepting,
        taken_back k d db' (with_status FoodOrderStatus.assigned o) row,
      )
