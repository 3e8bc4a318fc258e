-- ===== src/Desk/Waiting.antt =====
-- The jobs that wait for a driver, and the update that gives one away.
use novax_backend.Common.{
  ℕ, ◌≡◌, ◌⊎◌, inl, inr, true, false, Bool-cases, Option-cases, some, List, arith,
}
use novax_backend.Common.Action.{ok}
use novax_backend.Common.Table.{find, find-update_self}
use novax_backend.Schema.Rows.{Trip, Delivery, FoodOrder, Errand}
use novax_backend.Schema.Db.{Db, MatchScope, Message}
use novax_backend.Trips
use novax_backend.Trips.{claim}
use novax_backend.Trips.Rides.{matched_by}
use novax_backend.Deliveries
use novax_backend.Deliveries.{claim_delivery}
use novax_backend.FoodOrders
use novax_backend.FoodOrders.{claim_order}
use novax_backend.Errands
use novax_backend.Errands.{claim_errand}
use novax_backend.Desk.{matched_to, assigned_to, accepted_for, assign}

-- A job that waited for a driver now has this one, in the status that an accepted offer gives it.
abbrev pub IsAssigned : MatchScope → (job driver now : ℕ) → (before after : Db) → Type 0
IsAssigned MatchScope.trip k driver now db db' =
    (t : Trip) × (find k db.trips ≡ some t)
    × (Trips.is_searching t.status ≡ true)
    × (find k db'.trips ≡ some (matched_by driver now t))
IsAssigned MatchScope.delivery k driver now db db' =
    (x : Delivery) × (find k db.deliveries ≡ some x)
    × (Deliveries.is_searching x.status ≡ true)
    × (find k db'.deliveries ≡ some (matched_to driver now x))
IsAssigned MatchScope.food_order k driver now db db' =
    (o : FoodOrder) × (find k db.food_orders ≡ some o)
    × (FoodOrders.is_searching o.status ≡ true)
    × (find k db'.food_orders ≡ some (assigned_to driver o))
IsAssigned MatchScope.errand k driver now db db' =
    (e : Errand) × (find k db.errands ≡ some e)
    × (Errands.is_searching e.status ≡ true)
    × (find k db'.errands ≡ some (accepted_for driver e))

-- A job that waits for a driver.
abbrev pub IsWaiting : MatchScope → (job : ℕ) → Db → Type 0
IsWaiting MatchScope.trip k db =
    (t : Trip) × (find k db.trips ≡ some t) × (Trips.is_searching t.status ≡ true)
IsWaiting MatchScope.delivery k db =
    (x : Delivery) × (find k db.deliveries ≡ some x) × (Deliveries.is_searching x.status ≡ true)
IsWaiting MatchScope.food_order k db =
    (o : FoodOrder) × (find k db.food_orders ≡ some o) × (FoodOrders.is_searching o.status ≡ true)
IsWaiting MatchScope.errand k db =
    (e : Errand) × (find k db.errands ≡ some e) × (Errands.is_searching e.status ≡ true)

abbrev pub Outcome : MatchScope → (job driver now : ℕ) → Db → Type 0
Outcome scope k driver now db =
    ((assign scope k driver now db).0 ≡ ok true)
      × IsAssigned scope k driver now db (assign scope k driver now db).1
    ⊎ (assign scope k driver now db ≡ (ok false, db)) × (¬ IsWaiting scope k db)

module _ (k driver now : ℕ) (db : Db) where
  trip_cases : Outcome MatchScope.trip k driver now db
  unfolding assign claim
  trip_cases = elim (Option-cases (find k db.trips)) [
    | inl e ↦ inr (ground arith, λ w. cc (w.1))
    | inr (row, e) ↦ elim (Bool-cases (Trips.is_searching row.status)) [
      | inl s ↦
          let e' = find-update_self k (matched_by driver now) db.trips row e in
          inl (ground arith, (row, e, s, ground (arith, e')))
      | inr s ↦ inr (ground arith, λ w. ground arith)
    ]
  ]

  delivery_cases : Outcome MatchScope.delivery k driver now db
  unfolding assign claim_delivery
  delivery_cases = elim (Option-cases (find k db.deliveries)) [
    | inl e ↦ inr (ground arith, λ w. cc (w.1))
    | inr (row, e) ↦ elim (Bool-cases (Deliveries.is_searching row.status)) [
      | inl s ↦
          let e' = find-update_self k (matched_to driver now) db.deliveries row e in
          inl (ground arith, (row, e, s, ground (arith, e')))
      | inr s ↦ inr (ground arith, λ w. ground arith)
    ]
  ]

  food_order_cases : Outcome MatchScope.food_order k driver now db
  unfolding assign claim_order
  food_order_cases = elim (Option-cases (find k db.food_orders)) [
    | inl e ↦ inr (ground arith, λ w. cc (w.1))
    | inr (row, e) ↦ elim (Bool-cases (FoodOrders.is_searching row.status)) [
      | inl s ↦
          let e' = find-update_self k (assigned_to driver) db.food_orders row e in
          inl (ground arith, (row, e, s, ground (arith, e')))
      | inr s ↦ inr (ground arith, λ w. ground arith)
    ]
  ]

  errand_cases : Outcome MatchScope.errand k driver now db
  unfolding assign claim_errand
  errand_cases = elim (Option-cases (find k db.errands)) [
    | inl e ↦ inr (ground arith, λ w. cc (w.1))
    | inr (row, e) ↦ elim (Bool-cases (Errands.is_searching row.status)) [
      | inl s ↦
          let e' = find-update_self k (accepted_for driver) db.errands row e in
          inl (ground arith, (row, e, s, ground (arith, e')))
      | inr s ↦ inr (ground arith, λ w. ground arith)
    ]
  ]

  pub assign-cases : (scope : MatchScope) → Outcome scope k driver now db
  assign-cases MatchScope.trip = trip_cases
  assign-cases MatchScope.delivery = delivery_cases
  assign-cases MatchScope.food_order = food_order_cases
  assign-cases MatchScope.errand = errand_cases

-- What is sent does not matter.
pub IsAssigned-sent :
    (scope : MatchScope) (k driver now : ℕ) (db db' : Db) (ms : List Message)
    → IsAssigned scope k driver now db db'
    → IsAssigned scope k driver now db (record db' { sent = ms })
IsAssigned-sent MatchScope.trip k driver now db db' ms h = h
IsAssigned-sent MatchScope.delivery k driver now db db' ms h = h
IsAssigned-sent MatchScope.food_order k driver now db db' ms h = h
IsAssigned-sent MatchScope.errand k driver now db db' ms h = h
