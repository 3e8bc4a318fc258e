-- ===== src/Restaurants.antt =====
-- restaurants/restaurants.service.ts: a restaurant's account and its menu. Names, addresses, hours
-- and pictures are left out, and with them `updateMyRestaurant`, whose request names no column
-- that is modelled, and the listings. An owner has one row at most, by a unique key.
pub mod Opening
mod Tests
use novax_backend.Common.{
  ℕ, Bool, true, false, not, ◌==◌, Option, none, some, if◌then◌else◌, is_none, or_else,
}
use novax_backend.Common.Action.{
  Action, Result, ok, err, not_found, forbidden, bad_request, pure, gets, or_raise, raise_if,
  modify, ◌>>=◌, ◌>>◌,
}
use novax_backend.Common.Table.{find, find_first, create, update}
use novax_backend.Schema.Enums.{RestaurantStatus}
use novax_backend.Schema.Rows.{Restaurant, MenuItem}
use novax_backend.Schema.Db.{Db}

abbrev pub owned_by : (owner row : ℕ) → Restaurant → Bool
owned_by owner _ r = r.owner_id == owner

-- A row with the schema's defaults; the commission is in hundredths of a per cent.
abbrev pub default_restaurant : (owner : ℕ) → Restaurant
default_restaurant owner = record {
  owner_id = owner;
  status = RestaurantStatus.pending;
  is_open = false;
  commission_rate = 2000;
}

abbrev pub set_restaurant : ℕ → (Restaurant → Restaurant) → Action Db (Unit {0})
set_restaurant k f db = (ok tt, record db { restaurants = update k f db.restaurants })

unfoldable pub create_restaurant : (k owner : ℕ) → Action Db (Unit {0})
create_restaurant k owner = do
  existing ← gets (λ db. find_first (owned_by owner) db.restaurants)
  raise_if (not (is_none existing)) bad_request
  modify (λ db. record db { restaurants = create k (default_restaurant owner) db.restaurants })

-- `getMyRestaurant`
unfoldable pub get_my_restaurant : (owner : ℕ) → Action Db (ℕ × Restaurant)
get_my_restaurant owner = do
  or_raise (← gets (λ db. find_first (owned_by owner) db.restaurants)) not_found

abbrev pub is_pending : RestaurantStatus → Bool
is_pending RestaurantStatus.pending = true
is_pending _ = false

abbrev pub is_suspended : RestaurantStatus → Bool
is_suspended RestaurantStatus.suspended = true
is_suspended _ = false

abbrev pub toggled : (is_open : Bool) → Restaurant → Restaurant
toggled is_open r = record r { is_open = is_open }

-- The update of `toggleOpen`, of the row that was read.
unfoldable pub toggle_write : ℕ → Restaurant → Action Db (Unit {0})
toggle_write k read = set_restaurant k (toggled (not read.is_open))

unfoldable pub toggle_open : (owner : ℕ) → Action Db (Unit {0})
unfolding get_my_restaurant toggle_write
toggle_open owner = do
  mine ← get_my_restaurant owner
  raise_if (is_pending mine.1.status) forbidden
  raise_if (is_suspended mine.1.status) forbidden
  toggle_write mine.0 mine.1

abbrev pub with_status : RestaurantStatus → Restaurant → Restaurant
with_status status r = record r { status = status }

abbrev pub shut_down : Restaurant → Restaurant
shut_down r = record r { status = RestaurantStatus.suspended; is_open = false }

unfoldable pub approve : ℕ → Action Db (Unit {0})
approve k = set_restaurant k (with_status RestaurantStatus.approved)

unfoldable pub suspend : ℕ → Action Db (Unit {0})
suspend k = set_restaurant k shut_down

-- `UpsertMenuItemDto`; availability is optional
pub record UpsertMenuItem : Type 0 where
  pub price : ℕ
  pub is_available : Option Bool

abbrev pub edited : UpsertMenuItem → MenuItem → MenuItem
edited dto m = record m {
  price = dto.price;
  is_available = or_else dto.is_available m.is_available;
}

abbrev pub taken_off : MenuItem → MenuItem
taken_off m = record m { is_available = false }

unfoldable pub add_menu_item : (k owner : ℕ) → UpsertMenuItem → Action Db (Unit {0})
unfolding get_my_restaurant
add_menu_item k owner dto = do
  mine ← get_my_restaurant owner
  modify (λ db. record db {
    menu_items =
        create k
          (record {
            restaurant_id = mine.0;
            price = dto.price;
            is_available = or_else dto.is_available true;
          })
          db.menu_items;
  })

-- `!restaurant || restaurant.ownerId !== ownerId`
abbrev pub is_not_owner : (owner : ℕ) → Option Restaurant → Bool
is_not_owner owner none = true
is_not_owner owner (some r) = not (r.owner_id == owner)

-- `getOwnedMenuItemOr404`
unfoldable pub get_owned_menu_item_or_404 : (owner item : ℕ) → Action Db MenuItem
get_owned_menu_item_or_404 owner item = do
  found ← gets (λ db. find item db.menu_items)
  m ← or_raise found not_found
  restaurant ← gets (λ db. find m.restaurant_id db.restaurants)
  raise_if (is_not_owner owner restaurant) forbidden
  pure m

abbrev pub set_menu_item : ℕ → (MenuItem → MenuItem) → Action Db (Unit {0})
set_menu_item k f db = (ok tt, record db { menu_items = update k f db.menu_items })

unfoldable pub update_menu_item : (owner item : ℕ) → UpsertMenuItem → Action Db (Unit {0})
unfolding get_owned_menu_item_or_404
update_menu_item owner item dto =
    get_owned_menu_item_or_404 owner item >> set_menu_item item (edited dto)

unfoldable pub archive_menu_item : (owner item : ℕ) → Action Db (Unit {0})
unfolding get_owned_menu_item_or_404
archive_menu_item owner item = get_owned_menu_item_or_404 owner item >> set_menu_item item taken_off
