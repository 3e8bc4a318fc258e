-- ===== src/FoodOrders/Lifecycle.antt =====
-- The states of a food order of food-orders/food-orders.service.ts, and the moves of each method.
use novax_backend.Common.{
  ℕ, ◌≡◌, refl, ap, ◌∙◌, ◌⊎◌, inl, inr, Bool, true, false, Bool-cases, Option-cases, some, List,
  arith,
}
use novax_backend.Common.Action.{err, forbidden}
use novax_backend.Common.Table.{find, update, find-update_self}
use novax_backend.Schema.Enums.{FoodOrderStatus}
use novax_backend.Schema.Rows.{FoodOrder}
use novax_backend.Schema.Db.{Db, MatchScope}
use novax_backend.Excluded.{add}
use novax_backend.Dispatch.{Candidate}
use novax_backend.Nearest.{search_radii, nearest}
use novax_backend.FoodOrders.{
  with_status, offered_to, ready_again, is_searching, is_cancellable, awaits,
  get_owned_order_or_404, accept_order, mark_ready, offer_if_found, if_searching, match_order,
  attempt_match, handle_decline_or_timeout, if_awaits, offer_timeout, decline_offer, accept_offer,
  mark_picked_up, cancel_order,
}

-- One step of an order.
pub data Edge : FoodOrderStatus → FoodOrderStatus → Type 0 where
  accepts : Edge FoodOrderStatus.placed FoodOrderStatus.accepted
  readies : Edge FoodOrderStatus.accepted FoodOrderStatus.ready
  offers : Edge FoodOrderStatus.ready FoodOrderStatus.matching
  offers_again : Edge FoodOrderStatus.matching FoodOrderStatus.matching
  returns : Edge FoodOrderStatus.matching FoodOrderStatus.ready
  assigns : Edge FoodOrderStatus.matching FoodOrderStatus.assigned
  picks_up : Edge FoodOrderStatus.assigned FoodOrderStatus.picked_up
  delivers : Edge FoodOrderStatus.picked_up FoodOrderStatus.delivered
  cancels : {s : FoodOrderStatus} → is_cancellable s ≡ true → Edge s FoodOrderStatus.cancelled

-- Any number of steps.
pub data Reach : FoodOrderStatus → FoodOrderStatus → Type 0 where
  stay : {s : FoodOrderStatus} → Reach s s
  step : {s m e : FoodOrderStatus} → Edge s m → Reach m e → Reach s e

pub Reach-trans : {s m e : FoodOrderStatus} → Reach s m → Reach m e → Reach s e
Reach-trans stay q = q
Reach-trans (step x p) q = step x (Reach-trans p q)

-- The row of order `k` in `db'` has moved from `o`.
abbrev pub IsMoved : ℕ → FoodOrder → Db → Type 0
IsMoved k o db' = (o' : FoodOrder) × (find k db'.food_orders ≡ some o') × Reach o.status o'.status

-- A method that leaves the row or, from the status `s`, takes one step.
pub moved :
    (k : ℕ) (o : FoodOrder) (db' : Db) {s e : FoodOrderStatus} (o' : FoodOrder)
    → Edge s e
    → o'.status ≡ e
    → (find k db'.food_orders ≡ some o) ⊎ (o.status ≡ s) × (find k db'.food_orders ≡ some o')
    → IsMoved k o db'
moved k o db' o' x h (inl same) = (o, same, stay)
moved k o db' {s} {e} o' x h (inr (from, row)) = (o', row, rw (from, h) (step x stay))

searching :
    (s : FoodOrderStatus)
    → is_searching s ≡ true
    → (s ≡ FoodOrderStatus.ready) ⊎ (s ≡ FoodOrderStatus.matching)
searching FoodOrderStatus.ready h = inl refl
searching FoodOrderStatus.matching h = inr refl
searching FoodOrderStatus.placed h = cc
searching FoodOrderStatus.accepted h = cc
searching FoodOrderStatus.assigned h = cc
searching FoodOrderStatus.picked_up h = cc
searching FoodOrderStatus.delivered h = cc
searching FoodOrderStatus.cancelled h = cc

module _ (k : ℕ) (db : Db) (o : FoodOrder) (at : find k db.food_orders ≡ some o) where
  set_row :
      (s : FoodOrderStatus)
      → find k (update k (with_status s) db.food_orders) ≡ some (with_status s o)
  set_row s = find-update_self k (with_status s) db.food_orders o at

  pub accept_order-IsMoved : (owner : ℕ) → IsMoved k o (accept_order owner k db).1
  unfolding accept_order get_owned_order_or_404
  accept_order-IsMoved owner =
      moved k o (accept_order owner k db).1 (with_status FoodOrderStatus.accepted o) Edge.accepts
        refl (ground (arith, at, set_row FoodOrderStatus.accepted))

  pub mark_ready-IsMoved : (owner : ℕ) → IsMoved k o (mark_ready owner k db).1
  unfolding mark_ready get_owned_order_or_404
  mark_ready-IsMoved owner =
      moved k o (mark_ready owner k db).1 (with_status FoodOrderStatus.ready o) Edge.readies refl
        (ground (arith, at, set_row FoodOrderStatus.ready))

  pub accept_offer-IsMoved : (driver : ℕ) → IsMoved k o (accept_offer driver k db).1
  unfolding accept_offer
  accept_offer-IsMoved driver =
      moved k o (accept_offer driver k db).1 (with_status FoodOrderStatus.assigned o) Edge.assigns
        refl (ground (arith, at, set_row FoodOrderStatus.assigned))

  pub mark_picked_up-IsMoved : (driver : ℕ) → IsMoved k o (mark_picked_up driver k db).1
  unfolding mark_picked_up
  mark_picked_up-IsMoved driver =
      moved k o (mark_picked_up driver k db).1 (with_status FoodOrderStatus.picked_up o)
        Edge.picks_up refl (ground (arith, at, set_row FoodOrderStatus.picked_up))

  pub cancel_order-IsMoved : (user : ℕ) → IsMoved k o (cancel_order k user db).1
  unfolding cancel_order
  cancel_order-IsMoved user = elim (Bool-cases (is_cancellable o.status)) [
    | inl c ↦
        moved k o (cancel_order k user db).1 (with_status FoodOrderStatus.cancelled o)
          (Edge.cancels {s = o.status} c) refl
          (ground (arith, at, set_row FoodOrderStatus.cancelled))
    | inr c ↦ (o, ground (arith, at), stay)
  ]

  -- Offering to a driver who is found.
  offered-IsMoved :
      (driver : ℕ) (db' : Db)
      → is_searching o.status ≡ true
      → find k db'.food_orders ≡ some (offered_to driver o)
      → IsMoved k o db'
  offered-IsMoved driver db' s row = elim (searching o.status s) [
    | inl e ↦ moved k o db' (offered_to driver o) Edge.offers refl (inr (e, row))
    | inr e ↦ moved k o db' (offered_to driver o) Edge.offers_again refl (inr (e, row))
  ]

module _ (find_nearby : (job radius : ℕ) → (want_test_fleet : Bool) → Db → List Candidate) where
  pub attempt_match-IsMoved :
      (k : ℕ) (db : Db) (o : FoodOrder)
      → find k db.food_orders ≡ some o
      → IsMoved k o (attempt_match find_nearby k db).1
  unfolding attempt_match if_searching match_order offer_if_found
  attempt_match-IsMoved k db o at = elim (Bool-cases (is_searching o.status)) [
    | inl s ↦
        elim (Option-cases
          (nearest find_nearby MatchScope.food_order k o.customer_id search_radii db)) [
            | inl n ↦ (o, rw (at, if_searching, s, n, offer_if_found) at, stay)
            | inr (d, n) ↦ offered-IsMoved k db o at d (attempt_match find_nearby k db).1 s (
                rw (at, if_searching, s, n, offer_if_found)
                  (find-update_self k (offered_to d) db.food_orders o at))
          ]
    | inr s ↦ (o, rw (at, if_searching, s) at, stay)
  ]

  -- Taking the order back from a driver, and searching again.
  handle_decline_or_timeout-IsMoved :
      (k d : ℕ) (db : Db) (o : FoodOrder)
      → find k db.food_orders ≡ some o
      → awaits d o ≡ true
      → IsMoved k o (handle_decline_or_timeout find_nearby k d db).1
  unfolding handle_decline_or_timeout
  handle_decline_or_timeout-IsMoved k d db o at a =
      let db1 : Db = record db {
        excluded = add MatchScope.food_order k d db.excluded;
        food_orders = update k ready_again db.food_orders;
      } in
      let (o', row, path) =
        attempt_match-IsMoved k db1 (ready_again o)
          (find-update_self k ready_again db.food_orders o at) in
      let was : o.status ≡ FoodOrderStatus.matching = ground arith in
      (o', row, rw was (step Edge.returns path))

  pub offer_timeout-IsMoved :
      (k d : ℕ) (db : Db) (o : FoodOrder)
      → find k db.food_orders ≡ some o
      → IsMoved k o (offer_timeout find_nearby k d db).1
  unfolding offer_timeout if_awaits
  offer_timeout-IsMoved k d db o at = elim (Bool-cases (awaits d o)) [
    | inl a ↦ rw (at, if_awaits, a) (handle_decline_or_timeout-IsMoved k d db o at a)
    | inr a ↦ (o, rw (at, if_awaits, a) at, stay)
  ]

  declined :
      (k d : ℕ) (db : Db) (o : FoodOrder)
      → find k db.food_orders ≡ some o
      → ((awaits d o ≡ true)
          → decline_offer find_nearby d k db ≡ handle_decline_or_timeout find_nearby k d db)
        × ((awaits d o ≡ false) → decline_offer find_nearby d k db ≡ (err forbidden, db))
  unfolding decline_offer
  declined k d db o at = (λ a. ground (arith, at), λ a. ground (arith, at))

  pub decline_offer-IsMoved :
      (k d : ℕ) (db : Db) (o : FoodOrder)
      → find k db.food_orders ≡ some o
      → IsMoved k o (decline_offer find_nearby d k db).1
  decline_offer-IsMoved k d db o at = elim (Bool-cases (awaits d o)) [
    | inl a ↦ rw ((declined k d db o at).0 a) (handle_decline_or_timeout-IsMoved k d db o at a)
    | inr a ↦ (o, ap (λ p. find k p.1.food_orders) ((declined k d db o at).1 a) ∙ at, stay)
  ]
