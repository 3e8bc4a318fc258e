-- ===== src/Ratings/Tests.antt =====
-- Ratings at concrete inputs.
use novax_backend.Common.{ℕ, ◌≡◌, refl, [], ◌∷◌}
use novax_backend.Common.Action.{err, Error}
use novax_backend.Common.Table.{find}
use novax_backend.Schema.Enums.{TripStatus}
use novax_backend.Schema.Rows.{Trip}
use novax_backend.Schema.Db.{Db}
use novax_backend.Fixtures.{started_ride, state}
use novax_backend.Trips.{get_trip_or_404}
use novax_backend.Ratings.{clashes_any, trip_rating, rate_trip}
use novax_backend.Ratings.Jobs.{IsRateable, rate_trip_once}

abbrev over : Db
over = state (record started_ride { status = TripStatus.completed })

-- An earlier ride of the driver's got three stars.
abbrev rated_before : Db
rated_before = record over { ratings = (50, trip_rating 9 1 2 3) ∷ [] }

rate_trip_once_example :
    let db' = (rate_trip 51 10 1 4 rated_before).1 in
    ((t : Trip) × (driver : ℕ) × IsRateable 10 1 rated_before t driver)
    × ((x : Error) × (rate_trip 52 10 1 5 db' ≡ (err x, db')))
unfolding rate_trip get_trip_or_404 find clashes_any
rate_trip_once_example = rate_trip_once 51 52 10 1 1 4 5 rated_before refl
