-- ===== src/Users/Mode.antt =====
-- When a driver may change queues.
use novax_backend.Common.{
  ℕ, ◌+◌, ap, ◌∙◌, ◌≡◌, ◌≢◌, refl, ◌⊎◌, inl, inr, Bool, true, false, ◌&&◌, ◌||◌, Bool-cases,
  Option-cases, some, [], ◌∷◌, ltb, arith, is_some_of,
}
use novax_backend.Common.Action.{ok, err, bad_request}
use novax_backend.Common.Table.{
  Table, find, find-create_self, find-update_self, find-create_ne, find-update_ne,
}
use novax_backend.Schema.Enums.{
  DriverMode, TripStatus, DeliveryStatus, FoodOrderStatus, ErrandStatus,
}
use novax_backend.Schema.Rows.{DriverProfile, Trip, Delivery, FoodOrder, Errand}
use novax_backend.Schema.Db.{Db}
use novax_backend.Accounts.Signup.{default_profile, no_documents}
use novax_backend.Location.{
  on_a_job, any_row, occupies_trip, occupies_delivery, occupies_food_order, occupies_errand,
}
use novax_backend.Users.{
  count_rows, count_active, upsert_profile, set_active_mode, in_queue, is_trip_active,
  is_delivery_active, is_food_order_active, is_errand_active,
}

trips_agree : (s : TripStatus) → is_trip_active s ≡ occupies_trip s
unfolding occupies_trip
trips_agree TripStatus.requested = refl
trips_agree TripStatus.matching = refl
trips_agree TripStatus.matched = refl
trips_agree TripStatus.in_progress = refl
trips_agree TripStatus.completed = refl
trips_agree TripStatus.cancelled = refl

deliveries_agree : (s : DeliveryStatus) → is_delivery_active s ≡ occupies_delivery s
unfolding occupies_delivery
deliveries_agree DeliveryStatus.requested = refl
deliveries_agree DeliveryStatus.matching = refl
deliveries_agree DeliveryStatus.matched = refl
deliveries_agree DeliveryStatus.picked_up = refl
deliveries_agree DeliveryStatus.in_transit = refl
deliveries_agree DeliveryStatus.delivered = refl
deliveries_agree DeliveryStatus.cancelled = refl

food_orders_agree : (s : FoodOrderStatus) → is_food_order_active s ≡ occupies_food_order s
unfolding occupies_food_order
food_orders_agree FoodOrderStatus.placed = refl
food_orders_agree FoodOrderStatus.accepted = refl
food_orders_agree FoodOrderStatus.ready = refl
food_orders_agree FoodOrderStatus.matching = refl
food_orders_agree FoodOrderStatus.assigned = refl
food_orders_agree FoodOrderStatus.picked_up = refl
food_orders_agree FoodOrderStatus.delivered = refl
food_orders_agree FoodOrderStatus.cancelled = refl

errands_agree : (s : ErrandStatus) → is_errand_active s ≡ occupies_errand s
unfolding occupies_errand
errands_agree ErrandStatus.requested = refl
errands_agree ErrandStatus.matching = refl
errands_agree ErrandStatus.accepted = refl
errands_agree ErrandStatus.shopping = refl
errands_agree ErrandStatus.on_the_way = refl
errands_agree ErrandStatus.delivered = refl
errands_agree ErrandStatus.cancelled = refl

-- The counts are above zero where a row passes the test.
module _ {R : Type 0} (p q : R → Bool) (agree : (r : R) → p r ≡ q r) where
  count_any : (rows : Table R) → ltb 0 (count_rows p rows) ≡ any_row q rows
  unfolding count_rows any_row
  count_any [] = refl
  count_any ((i, r) ∷ rows) = ground (arith, agree r, count_any rows)

-- A sum of counts is above zero where one of them is.
any_of_sum : (a b c d : ℕ) → ltb 0 (a + b + c + d) ≡ (ltb 0 a || ltb 0 b || ltb 0 c || ltb 0 d)
any_of_sum a b c d = ground arith

active-on_a_job : (d : ℕ) (db : Db) → ltb 0 (count_active d db) ≡ on_a_job db d
unfolding count_active on_a_job
active-on_a_job d db =
    let trips =
      count_any (λ (t : Trip). is_some_of d t.driver_id && is_trip_active t.status)
        (λ (t : Trip). is_some_of d t.driver_id && occupies_trip t.status)
        (λ t. ap (λ b. is_some_of d t.driver_id && b) (trips_agree t.status)) db.trips in
    let deliveries =
      count_any (λ (x : Delivery). is_some_of d x.driver_id && is_delivery_active x.status)
        (λ (x : Delivery). is_some_of d x.driver_id && occupies_delivery x.status)
        (λ x. ap (λ b. is_some_of d x.driver_id && b) (deliveries_agree x.status)) db.deliveries in
    let orders =
      count_any (λ (o : FoodOrder). is_some_of d o.driver_id && is_food_order_active o.status)
        (λ (o : FoodOrder). is_some_of d o.driver_id && occupies_food_order o.status)
        (λ o. ap (λ b. is_some_of d o.driver_id && b) (food_orders_agree o.status))
        db.food_orders in
    let errands =
      count_any (λ (e : Errand). is_some_of d e.driver_id && is_errand_active e.status)
        (λ (e : Errand). is_some_of d e.driver_id && occupies_errand e.status)
        (λ e. ap (λ b. is_some_of d e.driver_id && b) (errands_agree e.status)) db.errands in
    any_of_sum _ _ _ _ ∙ rw (trips, deliveries, orders, errands) refl

upsert_queues :
    (user other : ℕ) (mode : DriverMode) (db : Db)
    → let (answer, db') =
        upsert_profile user (in_queue mode (default_profile no_documents)) (in_queue mode) db in
      (answer ≡ ok tt)
      × ((p : DriverProfile) × (find user db'.profiles ≡ some p) × (p.active_mode ≡ mode))
      × (other ≢ user → find other db'.profiles ≡ find other db.profiles)
unfolding upsert_profile
upsert_queues user other mode db = elim (Option-cases (find user db.profiles)) [
  | inl e ↦ rw e (
    refl,
    (
      in_queue mode (default_profile no_documents),
      find-create_self user (in_queue mode (default_profile no_documents)) db.profiles,
      refl,
    ),
    find-create_ne user other (in_queue mode (default_profile no_documents)) db.profiles,
  )
  | inr (p, e) ↦ rw e (
    refl,
    (in_queue mode p, find-update_self user (in_queue mode) db.profiles p e, refl),
    find-update_ne user other (in_queue mode) db.profiles,
  )
]

-- A driver changes queues exactly when matching counts nothing as a job of theirs: then the
-- profile, which is made if there is none, is in the queue that was asked for, and nobody else's
-- changes. A driver who has a job in hand is refused, and nothing changes.
pub set_active_mode-on_a_job :
    (user other : ℕ) (mode : DriverMode) (db : Db)
    → let (answer, db') = set_active_mode user mode db in
      (on_a_job db user ≡ true) × (answer ≡ err bad_request) × (db' ≡ db)
      ⊎ (on_a_job db user ≡ false)
        × (answer ≡ ok tt)
        × ((p : DriverProfile) × (find user db'.profiles ≡ some p) × (p.active_mode ≡ mode))
        × (other ≢ user → find other db'.profiles ≡ find other db.profiles)
unfolding set_active_mode
set_active_mode-on_a_job user other mode db = elim (Bool-cases (on_a_job db user)) [
  | inl busy ↦
      let counted : ltb 0 (count_active user db) ≡ true = active-on_a_job user db ∙ busy in
      inl (busy, rw counted refl, rw counted refl)
  | inr free ↦
      let counted : ltb 0 (count_active user db) ≡ false = active-on_a_job user db ∙ free in
      let (done, mine, others) = upsert_queues user other mode db in
      inr (free, rw counted done, rw counted mine, rw counted others)
]
