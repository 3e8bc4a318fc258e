-- ===== src/Deliveries/Handover/Once.antt =====
-- What the handing over of a parcel leaves: `markDelivered` of delivery/delivery.service.ts.
use mathlib.Core.Path.{subst}
use mathlib.Core.Option.{some-injective}
use novax_backend.Common.{
  ℕ, ◌≡◌, refl, ap, ◌∙◌, ◌⊎◌, inl, inr, true, false, Bool-cases, Option-cases, Option, none, some,
  ◌∷◌, arith,
}
use novax_backend.Common.Int.{ℤ, pos, ◌+ℤ◌, ◌-ℤ◌}
use novax_backend.Common.Action.{pure, bind-Keeps, ◌>>◌}
use novax_backend.Common.Table.{find, update, find-update_self}
use novax_backend.Schema.Rows.{Delivery}
use novax_backend.Schema.Db.{Db, Topic}
use novax_backend.Ledger.{split_fare, default_rate, or_zero, record_delivery_payout}
use novax_backend.Ledger.Payouts.{share, credit, record_delivery_payout-Moves}
use novax_backend.Books.{IsPaid, payout-IsPaid, answer-IsPaid}
use novax_backend.Loyalty.{award_points, points_per_delivery}
use novax_backend.Deliveries.{is_carried, message}
use novax_backend.Deliveries.Handover.{
  may_deliver, delivered_at_time, pay, close, settle, if_claimed, deliver_write, mark_delivered,
}

-- What a parcel moves: the driver's net fare less the cash on delivery, and the sender's cash.
abbrev pub delivery_shares : (driver fare : ℕ) → Delivery → ℕ → ℤ
delivery_shares driver fare x u =
    share driver ((split_fare fare default_rate).net_amount -ℤ pos (or_zero x.cod_amount)) u
    +ℤ credit (some x.sender_id) (or_zero x.cod_amount) u

pay-keeps :
    (k driver now : ℕ) (read : Delivery) (fare : Option ℕ) (db : Db)
    → (pay k driver now read fare db).1.deliveries ≡ db.deliveries
unfolding pay
pay-keeps k driver now read none db = refl
pay-keeps k driver now read (some fare) db = refl

close-keeps :
    (k driver now : ℕ) (read updated : Delivery) (db : Db)
    → ((close k driver now read >> pure updated) db).1.deliveries ≡ db.deliveries
unfolding close
close-keeps k driver now read updated =
    let table = λ (db : Db). db.deliveries in
    bind-Keeps table (close k driver now read) (λ _. pure updated)
      (bind-Keeps table (pay k driver now read read.fare)
        (λ _. award_points read.sender_id points_per_delivery)
        (pay-keeps k driver now read read.fare) (λ _ db. refl))
      (λ _ db. refl)

-- The answer and the state of a call that finds the parcel carried.
deliver_lem :
    (k driver now : ℕ) (read x : Delivery) (db : Db)
    → find k db.deliveries ≡ some x
    → may_deliver x ≡ true
    → deliver_write k driver now read db
      ≡ (close k driver now read >> pure (delivered_at_time now x)) (record db {
        deliveries = update k (delivered_at_time now) db.deliveries;
        sent = message read.sender_id Topic.delivered k ∷ db.sent;
      })
unfolding deliver_write if_claimed settle
deliver_lem k driver now read x db e m =
    let e1 = find-update_self k (delivered_at_time now) db.deliveries x e in ground (arith, e, e1)

deliver_lost :
    (k driver now : ℕ) (read : Delivery) (db : Db)
    → (find k db.deliveries ≡ none)
      ⊎ ((x : Delivery) × (find k db.deliveries ≡ some x) × (may_deliver x ≡ false))
    → (deliver_write k driver now read db).1 ≡ db
unfolding deliver_write if_claimed
deliver_lost k driver now read db (inl e) = ground arith
deliver_lost k driver now read db (inr (x, e, m)) = ground arith

deliver_row :
    (k driver now : ℕ) (read x : Delivery) (db : Db)
    → find k db.deliveries ≡ some x
    → may_deliver x ≡ true
    → find k (deliver_write k driver now read db).1.deliveries ≡ some (delivered_at_time now x)
deliver_row k driver now read x db e m = rw (deliver_lem k driver now read x db e m) (
    ap (find k) (close-keeps k driver now read (delivered_at_time now x) _)
    ∙ find-update_self k (delivered_at_time now) db.deliveries x e)

-- Of two calls that pass the checks of `markDelivered` before either writes, the second changes
-- nothing, whatever rows they read and whoever makes them: not the parcel, the ledger or the
-- points.
pub deliver_write_once :
    (k driver driver' now now' : ℕ) (read read' : Delivery) (db : Db)
    → let db' = (deliver_write k driver now read db).1 in
      (deliver_write k driver' now' read' db').1 ≡ db'
deliver_write_once k driver driver' now now' read read' db =
    elim (Option-cases (find k db.deliveries)) [
      | inl e ↦
          rw (deliver_lost k driver now read db (inl e))
            (deliver_lost k driver' now' read' db (inl e))
      | inr (x, e) ↦ elim (Bool-cases (may_deliver x)) [
        | inl m ↦
            deliver_lost k driver' now' read' _
              (inr (_, deliver_row k driver now read x db e m, refl))
        | inr m ↦
            rw (deliver_lost k driver now read db (inr (x, e, m)))
              (deliver_lost k driver' now' read' db (inr (x, e, m)))
      ]
    ]

IsPaid-books :
    (k driver now fare : ℕ) (read : Delivery) (fare_or_none : Option ℕ) (db : Db)
    → fare_or_none ≡ some fare
    → IsPaid
        (delivery_shares driver fare read)
        read.sender_id
        points_per_delivery
        db
        tt
        ((pay k driver now read fare_or_none >> award_points read.sender_id points_per_delivery) db)
unfolding pay
IsPaid-books k driver now fare read none db f = cc
IsPaid-books k driver now fare read (some other) db f =
    subst
      (λ n. IsPaid (delivery_shares driver n read) read.sender_id points_per_delivery db tt (
        (pay k driver now read (some other) >> award_points read.sender_id points_per_delivery) db))
      (some-injective other fare f)
      (payout-IsPaid (delivery_shares driver other read) read.sender_id points_per_delivery db
        (record_delivery_payout driver k other read.cod_amount (some read.sender_id) now db.ledger)
        (record_delivery_payout-Moves driver k other read.cod_amount (some read.sender_id) now
          db.ledger))

carried_lem :
    (k driver now : ℕ) (db : Db) (x : Delivery)
    → find k db.deliveries ≡ some x
    → x.driver_id ≡ some driver
    → is_carried x.status ≡ true
    → mark_delivered k driver now db ≡ deliver_write k driver now x db
unfolding mark_delivered
carried_lem k driver now db x e d c = ground arith

-- When the driver who carries a parcel with a fare hands it over, it is delivered, and the
-- driver's balance moves by the net fare less the cash on delivery, the sender's by the cash on
-- delivery and no other balance, and the sender has the points of a parcel; or the database
-- refuses the payout, the call fails, and neither a balance nor a point has moved.
pub mark_delivered-IsPaid :
    (k driver now fare : ℕ) (db : Db) (x : Delivery)
    → find k db.deliveries ≡ some x
    → x.driver_id ≡ some driver
    → is_carried x.status ≡ true
    → x.fare ≡ some fare
    → let (r, db') = mark_delivered k driver now db in
      (find k db'.deliveries ≡ some (delivered_at_time now x))
      × IsPaid
          (delivery_shares driver fare x)
          x.sender_id
          points_per_delivery
          db
          (delivered_at_time now x)
          (r, db')
unfolding close
mark_delivered-IsPaid k driver now fare db x e d c f =
    let write = carried_lem k driver now db x e d c in
    let db1 : Db = record db {
      deliveries = update k (delivered_at_time now) db.deliveries;
      sent = message x.sender_id Topic.delivered k ∷ db.sent;
    } in
    (
      rw write (deliver_row k driver now x x db e c),
      rw (write, deliver_lem k driver now x x db e c)
          (answer-IsPaid (delivery_shares driver fare x) x.sender_id points_per_delivery db1
            (delivered_at_time now x) (close k driver now x db1)
            (IsPaid-books k driver now fare x x.fare db1 f)),
    )
