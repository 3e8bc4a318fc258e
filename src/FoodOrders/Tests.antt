-- ===== src/FoodOrders/Tests.antt =====
-- The lifecycle of a concrete food order.
use novax_backend.Common.{true, ℕ, ◌≡◌, refl, Bool, List, [], ◌∷◌, some}
use novax_backend.Common.Table.{find, update}
use novax_backend.Schema.Enums.{FoodOrderStatus}
use novax_backend.Schema.Rows.{FoodOrder, MenuItem}
use novax_backend.Schema.Db.{Db}
use novax_backend.Dispatch.{Candidate}
use novax_backend.Fixtures.{order, order_state, nearby}
use novax_backend.Ledger.{clashes, clashes_any}
use novax_backend.FoodOrders.{
  with_status, accept_order, mark_ready, decline_offer, accept_offer, mark_picked_up,
  mark_delivered,
}
use novax_backend.FoodOrders.Lifecycle.{IsMoved}
use novax_backend.FoodOrders.Booking.{CreateOrder, create_order}
use novax_backend.FoodOrders.Booking.Totals.{IsPlaced, create_order_totals}
use novax_backend.FoodOrders.Runs.{Call, run_all, run_all-IsMoved}

abbrev everywhere : (job radius : ℕ) → (want_test_fleet : Bool) → Db → List Candidate
everywhere job radius want_test_fleet db = nearby

-- From the restaurant's acceptance to the door, with one refusal on the way.
abbrev calls : List Call
calls =
    Call.restaurant_accepts 5
    ∷ Call.restaurant_readies 5
    ∷ Call.search_runs
    ∷ Call.driver_declines 2
    ∷ Call.driver_accepts 3
    ∷ Call.driver_picks_up 3
    ∷ Call.driver_delivers 3 1_500_000
    ∷ []

run_all-IsMoved_example : IsMoved 30 order (run_all everywhere 30 calls (order_state order))
unfolding find
run_all-IsMoved_example = run_all-IsMoved everywhere 30 calls (order_state order) order refl

abbrev delivered_order : FoodOrder
delivered_order = with_status FoodOrderStatus.delivered order

abbrev carried_order : FoodOrder
carried_order = record order { status = FoodOrderStatus.picked_up; driver_id = some 3 }

-- Driver 2 refuses, driver 3 delivers.
delivered :
    find 30 (run_all everywhere 30 calls (order_state order)).food_orders
    ≡ some (record order { status = FoodOrderStatus.delivered; driver_id = some 3 })
unfolding find update run_all accept_order mark_ready decline_offer accept_offer mark_picked_up
    mark_delivered clashes_any clashes
delivered = refl

abbrev karahi : MenuItem
karahi = record { restaurant_id = 4; price = 95_000; is_available = true }

-- Two lines of the same dish, four kilometres away.
abbrev basket : CreateOrder
basket = record {
  restaurant_id = 4;
  items =
      record { menu_item_id = 50; quantity = 2 } ∷ record { menu_item_id = 50; quantity = 1 } ∷ [];
  straight_line = 4000;
}

abbrev hungry : Db
hungry = record (order_state order) { menu_items = (50, karahi) ∷ [] }

create_order_totals_example : IsPlaced 31 1 basket hungry (create_order 31 1 basket hungry)
create_order_totals_example = create_order_totals 31 1 basket hungry
