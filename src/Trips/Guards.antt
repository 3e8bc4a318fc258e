-- ===== src/Trips/Guards.antt =====
-- Who may move a ride on, and when: `assertDriverOwnsTrip` as `markArrived`, `startTrip` and
-- `completeTrip` of trips/trips.service.ts use it.
use novax_backend.Common.{ℕ, ◌≡◌, Bool, true, false, some, arith, is_some_of}
use novax_backend.Common.Action.{Result, err, forbidden, bad_request}
use novax_backend.Common.Table.{find}
use novax_backend.Schema.Enums.{TripStatus}
use novax_backend.Schema.Rows.{Trip}
use novax_backend.Schema.Db.{Db}
use novax_backend.Trips.{is_matched, is_in_progress, assert_driver_owns_trip}
use novax_backend.Trips.Rides.{mark_arrived, start_trip}
use novax_backend.Trips.Completion.{complete_trip}

-- Any driver but the trip's own is forbidden, and the own one is refused in a status that is not
-- allowed; a refusal changes nothing.
abbrev pub IsGuarded :
    {A : Type 0} → (driver : ℕ) → (TripStatus → Bool) → Trip → Db → Result A × Db → Type 0
IsGuarded driver allowed t db answer =
    (is_some_of driver t.driver_id ≡ false → answer ≡ (err forbidden, db))
    × (is_some_of driver t.driver_id ≡ true
        → allowed t.status ≡ false
        → answer ≡ (err bad_request, db))

-- Arriving and starting are for the trip's own driver while it is matched, and ending it for the
-- own driver while it is in progress: any other driver is forbidden, the own driver in another
-- status is refused, and neither changes anything.
pub driver_methods-IsGuarded :
    (k driver now : ℕ) (db : Db) (t : Trip)
    → find k db.trips ≡ some t
    → IsGuarded driver is_matched t db (mark_arrived k driver db)
      × IsGuarded driver is_matched t db (start_trip k driver now db)
      × IsGuarded driver is_in_progress t db (complete_trip k driver now db)
unfolding mark_arrived start_trip complete_trip assert_driver_owns_trip
driver_methods-IsGuarded k driver now db t e = (
  (λ other. ground (arith, e), λ own status. ground (arith, e)),
  (λ other. ground (arith, e), λ own status. ground (arith, e)),
  (λ other. ground (arith, e), λ own status. ground (arith, e)),
)
