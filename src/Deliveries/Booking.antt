-- ===== src/Deliveries/Booking.antt =====
-- `createDelivery` of delivery/delivery.service.ts, up to the search that it starts. The straight
-- line between the ends and the pickup's distance from the centre of the zone are fields of the
-- request.
use novax_backend.Common.{
  ℕ, ◌*◌, ◌≡◌, refl, ◌⊎◌, inl, inr, true, false, Bool-cases, Option, none, some,
}
use novax_backend.Common.Action.{Action, ok, err, bad_request, pure, raise_if, modify, ◌>>◌}
use novax_backend.Common.Table.{find, create, find-create_self}
use novax_backend.Schema.Enums.{DeliveryStatus}
use novax_backend.Schema.Rows.{Delivery}
use novax_backend.Schema.Db.{Db}
use novax_backend.Fare.{FareKind, estimate_fare}
use novax_backend.Launch.{Policy, outside_zone}

-- `CreateDeliveryDto`
pub record CreateDelivery : Type 0 where
  pub straight_line : ℕ
  pub from_centre : ℕ
  pub cod_amount : Option ℕ

-- The fare is in paisa.
abbrev pub new_delivery : (sender : ℕ) → CreateDelivery → Delivery
new_delivery sender dto = record {
  sender_id = sender;
  driver_id = none;
  status = DeliveryStatus.requested;
  distance = dto.straight_line;
  fare = some (estimate_fare FareKind.parcel dto.straight_line none * 100);
  cod_amount = dto.cod_amount;
  matched_at = none;
  picked_up_at = none;
  delivered_at = none;
  cancelled_at = none;
}

unfoldable pub create_delivery : Policy → (k sender : ℕ) → CreateDelivery → Action Db Delivery
create_delivery policy k sender dto = do
  raise_if (outside_zone policy dto.from_centre) bad_request
  modify (λ db. record db { deliveries = create k (new_delivery sender dto) db.deliveries })
  pure (new_delivery sender dto)

-- A parcel is booked exactly when its pickup lies in the zone. It is then the sender's, waits for
-- a driver, and is priced at the price list's parcel fare of the straight line; a parcel from
-- outside is refused and changes nothing.
pub create_delivery_books :
    (policy : Policy) (k sender : ℕ) (dto : CreateDelivery) (db : Db)
    → let (answer, db') = create_delivery policy k sender dto db in
      (outside_zone policy dto.from_centre ≡ false)
        × (answer ≡ ok (new_delivery sender dto))
        × (find k db'.deliveries ≡ some (new_delivery sender dto))
      ⊎ (outside_zone policy dto.from_centre ≡ true) × (answer ≡ err bad_request) × (db' ≡ db)
unfolding create_delivery
create_delivery_books policy k sender dto db =
    elim (Bool-cases (outside_zone policy dto.from_centre)) [
      | inl out ↦ inr (out, rw out refl, rw out refl)
      | inr within ↦ inl (
        within,
        rw within refl,
        rw within (find-create_self k (new_delivery sender dto) db.deliveries),
      )
    ]
