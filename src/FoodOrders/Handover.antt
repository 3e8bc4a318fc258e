-- ===== src/FoodOrders/Handover.antt =====
-- The handing over of a food order: `markDelivered` of food-orders/food-orders.service.ts.
use novax_backend.Common.{
  ℕ, ◌≡◌, refl, ap, ◌∙◌, ◌⊎◌, inl, inr, true, false, Bool-cases, Option, Option-cases, none, some,
  ◌∷◌, arith,
}
use novax_backend.Common.Action.{Action, pure, bind-Keeps, ◌>>◌}
use novax_backend.Common.Table.{find, update, find-update_self}
use novax_backend.Schema.Enums.{FoodOrderStatus}
use novax_backend.Schema.Rows.{FoodOrder, Restaurant}
use novax_backend.Schema.Db.{Db, Topic}
use novax_backend.Loyalty.{award_points, points_per_delivery}
use novax_backend.FoodOrders.{
  with_status, may_deliver, message, pay, settle, if_claimed, deliver_write, mark_delivered,
}
use novax_backend.FoodOrders.Lifecycle.{Edge, IsMoved, moved}

pay-keeps :
    (k driver now : ℕ) (read : FoodOrder) (r : Option Restaurant) (db : Db)
    → (pay k driver now read r db).1.food_orders ≡ db.food_orders
unfolding pay
pay-keeps k driver now read none db = refl
pay-keeps k driver now read (some r) db = refl

-- The books of an order, and its answer.
abbrev closing :
    (k driver now : ℕ) → FoodOrder → Option Restaurant → FoodOrder → Action Db FoodOrder
closing k driver now read r updated =
    pay k driver now read r >> (award_points read.customer_id points_per_delivery >> pure updated)

closing-keeps :
    (k driver now : ℕ) (read : FoodOrder) (r : Option Restaurant) (updated : FoodOrder) (db : Db)
    → (closing k driver now read r updated db).1.food_orders ≡ db.food_orders
closing-keeps k driver now read r updated =
    let points = award_points read.customer_id points_per_delivery in
    bind-Keeps (λ (db : Db). db.food_orders) (pay k driver now read r) (λ _. points >> pure updated)
      (pay-keeps k driver now read r) (λ _ db. refl)

-- A call that finds the order picked up.
deliver_lem :
    (k driver now : ℕ) (read o : FoodOrder) (db : Db)
    → find k db.food_orders ≡ some o
    → may_deliver o ≡ true
    → deliver_write k driver now read db
      ≡ closing k driver now read
          (find read.restaurant_id db.restaurants)
          (with_status FoodOrderStatus.delivered o)
          (record db {
            food_orders = update k (with_status FoodOrderStatus.delivered) db.food_orders;
            sent = message read.customer_id Topic.delivered k ∷ db.sent;
          })
unfolding deliver_write if_claimed settle
deliver_lem k driver now read o db e m =
    let e1 = find-update_self k (with_status FoodOrderStatus.delivered) db.food_orders o e in
    ground (arith, e, e1)

deliver_lost :
    (k driver now : ℕ) (read : FoodOrder) (db : Db)
    → (find k db.food_orders ≡ none)
      ⊎ ((o : FoodOrder) × (find k db.food_orders ≡ some o) × (may_deliver o ≡ false))
    → (deliver_write k driver now read db).1 ≡ db
unfolding deliver_write if_claimed
deliver_lost k driver now read db (inl e) = ground arith
deliver_lost k driver now read db (inr (o, e, m)) = ground arith

deliver_row :
    (k driver now : ℕ) (read o : FoodOrder) (db : Db)
    → find k db.food_orders ≡ some o
    → may_deliver o ≡ true
    → find k (deliver_write k driver now read db).1.food_orders
      ≡ some (with_status FoodOrderStatus.delivered o)
deliver_row k driver now read o db e m = rw (deliver_lem k driver now read o db e m) (
    ap (find k) (
      closing-keeps k driver now read (find read.restaurant_id db.restaurants)
        (with_status FoodOrderStatus.delivered o) _)
    ∙ find-update_self k (with_status FoodOrderStatus.delivered) db.food_orders o e)

-- Of two calls that pass the checks of `markDelivered` before either writes, the second changes
-- nothing, so that the driver, the restaurant and the customer get theirs once.
pub order_delivered_once :
    (k driver driver' now now' : ℕ) (read read' : FoodOrder) (db : Db)
    → let db' = (deliver_write k driver now read db).1 in
      (deliver_write k driver' now' read' db').1 ≡ db'
order_delivered_once k driver driver' now now' read read' db =
    elim (Option-cases (find k db.food_orders)) [
      | inl e ↦
          rw (deliver_lost k driver now read db (inl e))
            (deliver_lost k driver' now' read' db (inl e))
      | inr (o, e) ↦ elim (Bool-cases (may_deliver o)) [
        | inl m ↦
            deliver_lost k driver' now' read' _
              (inr (_, deliver_row k driver now read o db e m, refl))
        | inr m ↦
            rw (deliver_lost k driver now read db (inr (o, e, m)))
              (deliver_lost k driver' now' read' db (inr (o, e, m)))
      ]
    ]

mark_delivered-cases :
    (k driver now : ℕ) (db : Db) (o : FoodOrder)
    → find k db.food_orders ≡ some o
    → (mark_delivered driver k now db ≡ deliver_write k driver now o db) × (may_deliver o ≡ true)
      ⊎ ((mark_delivered driver k now db).1 ≡ db)
unfolding mark_delivered
mark_delivered-cases k driver now db o e = ground (arith, e)

pub mark_delivered-IsMoved :
    (k : ℕ) (db : Db) (o : FoodOrder)
    → find k db.food_orders ≡ some o
    → (driver now : ℕ) → IsMoved k o (mark_delivered driver k now db).1
mark_delivered-IsMoved k db o e driver now =
    let after = (mark_delivered driver k now db).1 in
    elim (mark_delivered-cases k driver now db o e) [
      | inl (same, m) ↦
          moved k o after (with_status FoodOrderStatus.delivered o) Edge.delivers refl
            (inr (ground arith, rw same (deliver_row k driver now o o db e m)))
      | inr same ↦
          moved k o after (with_status FoodOrderStatus.delivered o) Edge.delivers refl
            (inl (rw same e))
    ]
