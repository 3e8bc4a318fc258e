-- ===== src/Deliveries/Tests.antt =====
-- The operations of deliveries at a concrete parcel.
use novax_backend.Common.{ℕ, ◌≡◌, refl, Bool, some, List}
use novax_backend.Common.Table.{find}
use novax_backend.Schema.Db.{Db}
use novax_backend.Dispatch.{Candidate}
use novax_backend.Books.{IsPaid}
use novax_backend.Loyalty.{points_per_delivery}
use novax_backend.Fixtures.{carried_parcel, parcel_state, nearby}
use novax_backend.Deliveries.Handover.{delivered_at_time, mark_delivered}
use novax_backend.Deliveries.Handover.Once.{delivery_shares, mark_delivered-IsPaid}

abbrev everywhere : (job radius : ℕ) → (want_test_fleet : Bool) → Db → List Candidate
everywhere job radius want_test_fleet db = nearby

mark_delivered-IsPaid_example :
    let (r, db') = mark_delivered 20 2 1_500_000 (parcel_state carried_parcel) in
    (find 20 db'.deliveries ≡ some (delivered_at_time 1_500_000 carried_parcel))
    × IsPaid
        (delivery_shares 2 21_500 carried_parcel)
        1
        points_per_delivery
        (parcel_state carried_parcel)
        (delivered_at_time 1_500_000 carried_parcel)
        (r, db')
unfolding find
mark_delivered-IsPaid_example =
    mark_delivered-IsPaid 20 2 1_500_000 21_500 (parcel_state carried_parcel) carried_parcel refl
      refl refl refl
