-- ===== src/Ratings/Jobs.antt =====
-- One rating for a ride, by its rider, once it is over.
use novax_backend.Common.{
  ℕ, ◌≡◌, ◌≢◌, refl, ap, ◌∙◌, ◌⊎◌, inl, inr, true, Bool-cases, Option-cases, some, arith, ◌==◌,
}
use novax_backend.Common.Action.{ok, err, Error, bad_request, forbidden, not_found, Result}
use novax_backend.Common.Table.{Table, find, create}
use novax_backend.Schema.Rows.{Trip, Rating}
use novax_backend.Schema.Db.{Db}
use novax_backend.Ratings.{
  clashes_any, recalculate_average, rate, trip_rating, is_completed, rate_trip,
}

-- What a rating is that goes through.
abbrev pub IsRateable : (trip rater : ℕ) → Db → Trip → (driver : ℕ) → Type 0
IsRateable k rater db t driver =
    (find k db.trips ≡ some t)
    × (t.rider_id ≡ rater)
    × (is_completed t.status ≡ true)
    × (t.driver_id ≡ some driver)

refused-ne-ok : (x : Error) (db : Db) (p : Result (Unit {0}) × Db) → p ≡ (err x, db) → p.0 ≢ ok tt
refused-ne-ok x db p e h = cc (ap (λ (q : Result (Unit {0}) × Db). q.0) e, h)

module _ (row k rater score : ℕ) (db : Db) where
  -- The guards in their order.
  guards :
      ((x : Error) × (rate_trip row k rater score db ≡ (err x, db)))
      ⊎ ((t : Trip) × (driver : ℕ) × IsRateable k rater db t driver
          × (rate_trip row k rater score db ≡ rate row (trip_rating k rater driver score) db))
  unfolding rate_trip
  guards = elim (Option-cases (find k db.trips)) [
    | inl e ↦ inl (not_found, ground (arith, e))
    | inr (t, e) ↦ elim (Bool-cases (t.rider_id == rater)) [
      | inr a ↦ inl (forbidden, ground (arith, e))
      | inl a ↦ elim (Bool-cases (is_completed t.status)) [
        | inr b ↦ inl (bad_request, ground (arith, e))
        | inl b ↦ elim (Option-cases t.driver_id) [
          | inl c ↦ inl (bad_request, ground (arith, e))
          | inr (driver, c) ↦ inr (t, driver, (e, ground arith, b, c), ground (arith, e, c))
        ]
      ]
    ]
  ]

rate_taken :
    (row : ℕ) (a : Rating) (db : Db)
    → clashes_any a db.ratings ≡ true
    → rate row a db ≡ (err bad_request, db)
unfolding rate
rate_taken row a db taken = elim (Bool-cases (a.rater_id == a.ratee_id)) [
  | inl same ↦ rw same refl
  | inr other ↦ rw (other, taken) refl
]

rate-ok :
    (row : ℕ) (a : Rating) (db : Db)
    → (rate row a db).0 ≡ ok tt
    → (rate row a db).1.ratings ≡ create row a db.ratings
unfolding rate recalculate_average
rate-ok row a db h = elim (Bool-cases (a.rater_id == a.ratee_id)) [
  | inl same ↦ cc (rw same at h)
  | inr other ↦ elim (Bool-cases (clashes_any a db.ratings)) [
    | inl taken ↦ cc (rw (other, taken) at h)
    | inr free ↦ rw (other, free) refl
  ]
]

same_trip :
    (row k rater ratee score other driver score' : ℕ) (rows : Table Rating)
    → clashes_any
        (trip_rating k other driver score')
        (create row (trip_rating k rater ratee score) rows)
      ≡ true
unfolding clashes_any create
same_trip row k rater ratee score other driver score' rows = ground arith

-- A rating of a ride that goes through is its rider's, of a ride that is completed and had a
-- driver; after it, no further rating of the ride goes through or changes anything, whoever gives
-- it and whatever the score.
pub rate_trip_once :
    (row row' k rater other score score' : ℕ) (db : Db)
    → (rate_trip row k rater score db).0 ≡ ok tt
    → let db' = (rate_trip row k rater score db).1 in
      ((t : Trip) × (driver : ℕ) × IsRateable k rater db t driver)
      × ((x : Error) × (rate_trip row' k other score' db' ≡ (err x, db')))
rate_trip_once row row' k rater other score score' db h = elim (guards row k rater score db) [
  | inl no_rating ↦ absurd (refused-ne-ok no_rating.0 db _ no_rating.1 h)
  | inr (t, driver, may, same) ↦
      let rated = rate-ok row (trip_rating k rater driver score) db (rw same at h) in
      let db' : Db = (rate_trip row k rater score db).1 in
      let taken = λ (driver' : ℕ).
        rate_taken row' (trip_rating k other driver' score') db'
          (rw (same, rated) (same_trip row k rater driver score other driver' score' db.ratings)) in
      (
        (t, driver, may),
        elim (guards row' k other score' db') [
          | inl refused ↦ refused
          | inr (t', driver', may', same') ↦ (bad_request, same' ∙ taken driver')
        ],
      )
]
