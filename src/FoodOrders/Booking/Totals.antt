-- ===== src/FoodOrders/Booking/Totals.antt =====
-- What an order that is placed comes to, and that a refused one leaves nothing.
use novax_backend.Common.{
  ℕ, ◌+◌, ◌*◌, ◌≡◌, refl, ap, sym, ◌∙◌, ◌⊎◌, inl, inr, Bool, true, false, ◌&&◌, Bool-cases,
  Option-cases, none, some, List, [], ◌∷◌, length, arith, ◌==◌,
}
use novax_backend.Common.Action.{ok, err, Error, db_error, not_found, bad_request, Result}
use novax_backend.Common.Table.{Table, find, find_many, find-create_self}
use novax_backend.Schema.Rows.{FoodOrder, FoodOrderItem, MenuItem, Restaurant}
use novax_backend.Schema.Db.{Db}
use novax_backend.Fare.{FareKind, estimate_fare}
use novax_backend.FoodOrders.Booking.{
  Line, CreateOrder, is_approved, ids_of, count_distinct, is_on_menu, item_of, price_line,
  price_lines, items_total, new_order, create_order,
}

-- Every line has its item, at the price on the menu.
abbrev pub ArePriced : Table MenuItem → (restaurant : ℕ) → List Line → List FoodOrderItem → Type 0
ArePriced menu restaurant [] [] = Unit
ArePriced menu restaurant [] (_ ∷ _) = ⊥
ArePriced menu restaurant (_ ∷ _) [] = ⊥
ArePriced menu restaurant (line ∷ lines) (item ∷ items) =
    ((m : MenuItem) × (find line.menu_item_id menu ≡ some m)
      × (m.restaurant_id ≡ restaurant)
      × (m.is_available ≡ true)
      × (item ≡ item_of line m))
    × ArePriced menu restaurant lines items

-- The sum of price and quantity over the basket.
abbrev pub basket_total : List FoodOrderItem → ℕ
basket_total [] = 0
basket_total (item ∷ items) = item.price_snapshot * item.quantity + basket_total items

find-find_many :
    (p : ℕ → MenuItem → Bool) (k : ℕ) (menu : Table MenuItem) (m : MenuItem)
    → find k (find_many p menu) ≡ some m
    → p k m ≡ true
unfolding find find_many
find-find_many p k [] m h = cc
find-find_many p k ((i, q) ∷ menu) m h = elim (Bool-cases (p i q)) [
  | inl e ↦ elim (Bool-cases (i == k)) [
    | inl s ↦ let found : some q ≡ some m = rw (e, s) at h in ground arith
    | inr s ↦ find-find_many p k menu m (rw (e, s) at h)
  ]
  | inr e ↦ find-find_many p k menu m (rw e at h)
]

module _ (ids : List ℕ) (restaurant : ℕ) (items : Table MenuItem) where
  abbrev menu : Table MenuItem
  menu = find_many (is_on_menu ids restaurant) items

  abbrev Priced : List Line → Db → Type 0
  Priced lines db =
      ((priced : List FoodOrderItem) × (price_lines menu lines db ≡ (ok priced, db))
        × ArePriced menu restaurant lines priced)
      ⊎ ((x : Error) × (price_lines menu lines db ≡ (err x, db)))

  line_priced :
      (line : Line) (db : Db)
      → ((item : FoodOrderItem) × (m : MenuItem) × (price_line line (find line.menu_item_id menu) db
            ≡ (ok item, db))
          × (find line.menu_item_id menu ≡ some m)
          × (m.restaurant_id ≡ restaurant)
          × (m.is_available ≡ true)
          × (item ≡ item_of line m))
        ⊎ ((x : Error) × (price_line line (find line.menu_item_id menu) db ≡ (err x, db)))
  unfolding price_line
  line_priced line db = elim (Option-cases (find line.menu_item_id menu)) [
    | inl e ↦ inr (db_error, rw e refl)
    | inr (m, e) ↦
        let listed = find-find_many (is_on_menu ids restaurant) line.menu_item_id items m e in
        elim (Bool-cases m.is_available) [
          | inl a ↦ inl (item_of line m, m, rw (e, a) refl, e, ground (arith, listed), a, refl)
          | inr a ↦ inr (bad_request, rw (e, a) refl)
        ]
  ]

  lines-Priced : (lines : List Line) (db : Db) → Priced lines db
  unfolding price_lines
  lines-Priced [] db = inl ([], refl, tt)
  lines-Priced (line ∷ lines) db = elim (line_priced line db) [
    | inr (x, e) ↦ inr (x, ground (arith, e))
    | inl (item, m, e, f, r, a, i) ↦ elim (lines-Priced lines db) [
      | inr (x, e') ↦ inr (x, ground (arith, e, e'))
      | inl (priced, e', all) ↦ inl (item ∷ priced, ground (arith, e, e'), ((m, f, r, a, i), all))
    ]
  ]

  -- The stored total is the sum over the basket.
  totals :
      (lines : List Line) (priced : List FoodOrderItem)
      → ArePriced menu restaurant lines priced
      → items_total priced ≡ basket_total priced
  unfolding items_total
  totals [] [] h = refl
  totals [] (_ ∷ _) h = absurd h
  totals (_ ∷ _) [] h = absurd h
  totals (line ∷ lines) (item ∷ items) ((m, f, r, a, i), all) =
      let one : item.subtotal ≡ item.price_snapshot * item.quantity =
        ap (λ (x : FoodOrderItem). x.subtotal) i
        ∙ sym (ap (λ (x : FoodOrderItem). x.price_snapshot * x.quantity) i) in
      omega (arith, one, totals lines items all)

module _ (k customer : ℕ) (dto : CreateOrder) (db : Db) where
  abbrev pub offered : Table MenuItem
  offered = find_many (is_on_menu (ids_of dto.items) dto.restaurant_id) db.menu_items

  -- Why an order is refused.
  abbrev pub IsRefused : Type 0
  IsRefused =
      (find dto.restaurant_id db.restaurants ≡ none)
      ⊎ ((r : Restaurant) × (find dto.restaurant_id db.restaurants ≡ some r)
          × ((is_approved r && r.is_open) ≡ false))
      ⊎ ((length offered == count_distinct (ids_of dto.items)) ≡ false)
      ⊎ ((x : Error) × (price_lines offered dto.items db ≡ (err x, db)))

  -- The outcomes of `createOrder`.
  abbrev pub IsPlaced : Result FoodOrder × Db → Type 0
  IsPlaced (answer, db') =
      ((r : Restaurant) × (items : List FoodOrderItem) × (find dto.restaurant_id db.restaurants
          ≡ some r)
        × (is_approved r ≡ true)
        × (r.is_open ≡ true)
        × ArePriced offered dto.restaurant_id dto.items items
        × (answer ≡ ok (new_order customer dto items))
        × (find k db'.food_orders ≡ some (new_order customer dto items))
        × ((new_order customer dto items).total
            ≡ basket_total items + estimate_fare FareKind.food dto.straight_line none * 100))
      ⊎ IsRefused × ((x : Error) × (answer ≡ err x)) × (db' ≡ db)

  from_restaurant :
      (r : Restaurant)
      → find dto.restaurant_id db.restaurants ≡ some r
      → is_approved r ≡ true
      → r.is_open ≡ true
      → IsPlaced (create_order k customer dto db)
  unfolding create_order
  from_restaurant r e a o =
      elim (Bool-cases (length offered == count_distinct (ids_of dto.items))) [
        | inr c ↦ inr (inr (inr (inl c)), (bad_request, rw (e, a, o, c) refl), rw (e, a, o, c) refl)
        | inl c ↦
            elim (lines-Priced (ids_of dto.items) dto.restaurant_id db.menu_items dto.items db) [
              | inr (x, p) ↦ inr (
                inr (inr (inr (x, p))),
                (x, rw (e, a, o, c) (ground (arith, p))),
                rw (e, a, o, c) (ground (arith, p)),
              )
              | inl (items, p, all) ↦ inl (
                r,
                items,
                e,
                a,
                o,
                all,
                rw (e, a, o, c) (ground (arith, p)),
                rw (e, a, o, c)
                    (ground
                      (arith, p, find-create_self k (new_order customer dto items) db.food_orders)),
                ap (λ (n : ℕ). n + estimate_fare FareKind.food dto.straight_line none * 100)
                    (totals (ids_of dto.items) dto.restaurant_id db.menu_items dto.items items all),
              )
            ]
      ]

  -- An order that is placed is from a restaurant that is approved and open. Every line of the
  -- basket has an available item of that restaurant's, at the price on the menu, and the total is
  -- the sum of price times quantity over the basket and the delivery fee. Any other order is
  -- refused, for one of the reasons that the code gives, and changes nothing.
  pub create_order_totals : IsPlaced (create_order k customer dto db)
  create_order_totals = elim (Option-cases (find dto.restaurant_id db.restaurants)) [
    | inl e ↦
        let missing : create_order k customer dto db ≡ (err not_found, db) =
          unfold create_order in rw e refl in
        rw missing (inr (inl e, (not_found, refl), refl))
    | inr (r, e) ↦ elim (Bool-cases (is_approved r)) [
      | inr a ↦
          let unapproved : create_order k customer dto db ≡ (err not_found, db) =
            unfold create_order in rw (e, a) refl in
          rw unapproved (inr (inr (inl (r, e, rw a refl)), (not_found, refl), refl))
      | inl a ↦ elim (Bool-cases r.is_open) [
        | inr o ↦
            let closed : create_order k customer dto db ≡ (err bad_request, db) =
              unfold create_order in rw (e, a, o) refl in
            rw closed (inr (inr (inl (r, e, rw (a, o) refl)), (bad_request, refl), refl))
        | inl o ↦ from_restaurant r e a o
      ]
    ]
  ]
