-- ===== src/FoodOrders/Booking.antt =====
-- `createOrder` of food-orders/food-orders.service.ts: the basket and what it comes to.
--
-- Prices are whole paisa, as the column has them, so that no product needs rounding. The straight
-- line from the restaurant is a field of the request; the names on the menu and the notice to the
-- restaurant are left out.
pub mod Totals
use novax_backend.Common.{
  ℕ, ◌+◌, ◌*◌, Bool, true, false, not, ◌&&◌, ◌==◌, Option, none, some, List, [], ◌∷◌, length, has,
  map, if◌then◌else◌,
}
use novax_backend.Common.Action.{
  Action, Result, ok, err, not_found, bad_request, db_error, pure, gets, or_raise, raise, raise_if,
  modify, ◌>>=◌, ◌>>◌,
}
use novax_backend.Common.Table.{Table, find, find_many, create}
use novax_backend.Schema.Enums.{FoodOrderStatus, RestaurantStatus}
use novax_backend.Schema.Rows.{FoodOrder, FoodOrderItem, MenuItem, Restaurant}
use novax_backend.Schema.Db.{Db}
use novax_backend.Fare.{FareKind, estimate_fare}

-- `FoodOrderItemInputDto`
pub record Line : Type 0 where
  pub menu_item_id : ℕ
  pub quantity : ℕ

-- `CreateFoodOrderDto`
pub record CreateOrder : Type 0 where
  pub restaurant_id : ℕ
  pub items : List Line
  pub straight_line : ℕ

abbrev pub is_approved : Restaurant → Bool
is_approved r = elim r.status [ RestaurantStatus.approved ↦ true | _ ↦ false ]

abbrev pub ids_of : List Line → List ℕ
ids_of [] = []
ids_of (line ∷ lines) = line.menu_item_id ∷ ids_of lines

-- `new Set(ids).size`
unfoldable pub count_distinct : List ℕ → ℕ
count_distinct [] = 0
count_distinct (k ∷ ks) = (if has k ks then 0 else 1) + count_distinct ks

-- `{ id: { in: ids }, restaurantId }`
abbrev pub is_on_menu : List ℕ → (restaurant row : ℕ) → MenuItem → Bool
is_on_menu ids restaurant row m = has row ids && m.restaurant_id == restaurant

abbrev pub item_of : Line → MenuItem → FoodOrderItem
item_of line m = record {
  menu_item_id = line.menu_item_id;
  price_snapshot = m.price;
  quantity = line.quantity;
  subtotal = m.price * line.quantity;
}

-- One line: `menuItems.find(…)!`, which the check before has made sure of, and the test of the
-- item.
price_line : Line → Option MenuItem → Action Db FoodOrderItem
price_line line none = raise db_error
price_line line (some m) = do raise_if (not m.is_available) bad_request; pure (item_of line m)

-- `dto.items.map`
unfoldable pub price_lines : Table MenuItem → List Line → Action Db (List FoodOrderItem)
unfolding price_line
price_lines menu [] = pure []
price_lines menu (line ∷ lines) = do
  item ← price_line line (find line.menu_item_id menu)
  items ← price_lines menu lines
  pure (item ∷ items)

unfoldable pub items_total : List FoodOrderItem → ℕ
items_total [] = 0
items_total (item ∷ items) = item.subtotal + items_total items

-- The row; the fee is in paisa.
abbrev pub new_order : (customer : ℕ) → CreateOrder → List FoodOrderItem → FoodOrder
new_order customer dto items =
    let fee = estimate_fare FareKind.food dto.straight_line none * 100 in
    record {
      customer_id = customer;
      restaurant_id = dto.restaurant_id;
      driver_id = none;
      status = FoodOrderStatus.placed;
      items_total = items_total items;
      delivery_fee = fee;
      total = items_total items + fee;
      items = items;
    }

unfoldable pub create_order : (k customer : ℕ) → CreateOrder → Action Db FoodOrder
unfolding price_lines count_distinct
create_order k customer dto = do
  found ← gets (λ db. find dto.restaurant_id db.restaurants)
  restaurant ← or_raise found not_found
  raise_if (not (is_approved restaurant)) not_found
  raise_if (not restaurant.is_open) bad_request
  menu ← gets (λ db. find_many (is_on_menu (ids_of dto.items) dto.restaurant_id) db.menu_items)
  raise_if (not (length menu == count_distinct (ids_of dto.items))) bad_request
  items ← price_lines menu dto.items
  modify (λ db. record db { food_orders = create k (new_order customer dto items) db.food_orders })
  pure (new_order customer dto items)
