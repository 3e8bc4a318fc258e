-- ===== src/Errands/Booking.antt =====
-- `createErrand` of errands/errands.service.ts, up to the search that it starts. The straight line
-- from the shop to the door and the shop's distance from the centre of the zone are fields of the
-- request; the budget is left out.
use novax_backend.Common.{ℕ, ◌*◌, ◌≡◌, refl, ◌⊎◌, inl, inr, true, false, Bool-cases, none, some}
use novax_backend.Common.Action.{Action, ok, err, bad_request, pure, raise_if, modify, ◌>>◌}
use novax_backend.Common.Table.{find, create, find-create_self}
use novax_backend.Schema.Enums.{ErrandStatus}
use novax_backend.Schema.Rows.{Errand}
use novax_backend.Schema.Db.{Db}
use novax_backend.Fare.{FareKind, estimate_fare}
use novax_backend.Launch.{Policy, outside_zone}

-- `CreateErrandDto`
pub record CreateErrand : Type 0 where
  pub straight_line : ℕ
  pub from_centre : ℕ

-- The fee is in paisa.
abbrev pub new_errand : (requester : ℕ) → CreateErrand → Errand
new_errand requester dto = record {
  requester_id = requester;
  driver_id = none;
  status = ErrandStatus.requested;
  service_fee = estimate_fare FareKind.errand dto.straight_line none * 100;
  actual_spend = none;
}

unfoldable pub create_errand : Policy → (k requester : ℕ) → CreateErrand → Action Db Errand
create_errand policy k requester dto = do
  raise_if (outside_zone policy dto.from_centre) bad_request
  modify (λ db. record db { errands = create k (new_errand requester dto) db.errands })
  pure (new_errand requester dto)

-- An errand is taken exactly when the shop lies in the zone. It is then the requester's, waits for
-- a driver, and has the price list's errand fee; one from outside is refused and changes nothing.
pub create_errand_books :
    (policy : Policy) (k requester : ℕ) (dto : CreateErrand) (db : Db)
    → let (answer, db') = create_errand policy k requester dto db in
      (outside_zone policy dto.from_centre ≡ false)
        × (answer ≡ ok (new_errand requester dto))
        × (find k db'.errands ≡ some (new_errand requester dto))
      ⊎ (outside_zone policy dto.from_centre ≡ true) × (answer ≡ err bad_request) × (db' ≡ db)
unfolding create_errand
create_errand_books policy k requester dto db =
    elim (Bool-cases (outside_zone policy dto.from_centre)) [
      | inl out ↦ inr (out, rw out refl, rw out refl)
      | inr within ↦ inl (
        within,
        rw within refl,
        rw within (find-create_self k (new_errand requester dto) db.errands),
      )
    ]
