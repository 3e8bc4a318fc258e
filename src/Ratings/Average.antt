-- ===== src/Ratings/Average.antt =====
-- The average of a driver's ratings: what it is, and where it lies.
use novax_backend.Common.{
  ℕ, ◌+◌, ◌*◌, ◌≤◌, ◌<◌, ◌≡◌, ◌≢◌, refl, ◌⊎◌, inl, inr, true, false, Bool-cases, some, [], ◌∷◌,
  arith, ◌==◌, ==_iff, All,
}
use native.Mathlib.Nat.{le-div_iff_mul-le, div-lt_iff_lt-mul, mul-div-le, lt-mul-div-succ}
use novax_backend.Common.Action.{ok, err, bad_request, Result}
use novax_backend.Common.Table.{Table, find, create, find-update_self}
use novax_backend.Schema.Rows.{User, Rating}
use novax_backend.Schema.Db.{Db}
use novax_backend.Ratings.{
  clashes_any, total_score, count_ratings, average_of, rated, recalculate_average, rate,
}

-- Scores are from one to five stars.
abbrev pub HasStars : Table Rating → Type 0
HasStars rows = All (λ (row : ℕ × Rating). (1 ≤ row.1.score) × (row.1.score ≤ 5)) rows

total_bounds :
    (ratee : ℕ) (rows : Table Rating)
    → HasStars rows
    → (count_ratings ratee rows ≤ total_score ratee rows)
      × (total_score ratee rows ≤ 5 * count_ratings ratee rows)
unfolding total_score count_ratings
total_bounds ratee [] h = (omega arith, omega arith)
total_bounds ratee ((i, r) ∷ rows) (stars, h) =
    let (low, high) = total_bounds ratee rows h in
    elim (Bool-cases (r.ratee_id == ratee)) [
      | inl e ↦ rw e (omega arith, omega arith)
      | inr e ↦ rw e (omega arith, omega arith)
    ]

-- The nearest hundredth.
average_bounds :
    (total count : ℕ)
    → 0 < count
    → count ≤ total
    → total ≤ 5 * count
    → (100 ≤ average_of total count)
      × (average_of total count ≤ 500)
      × (200 * total < (2 * average_of total count + 1) * count)
      × (2 * average_of total count * count ≤ 200 * total + count)
unfolding average_of
average_bounds total count pos low high =
    let k = 2 * count in
    let n = 200 * total + count in
    let positive : 0 < 2 * count = omega arith in
    let some_count : (count == 0) ≡ false = ground arith in
    let least =
      (le-div_iff_mul-le {k = 2 * count} {x = 100} {y = 200 * total + count} positive).1
        (omega arith) in
    let most =
      (div-lt_iff_lt-mul {k = 2 * count} {x = 200 * total + count} {y = 501} positive).1
        (omega arith) in
    let below = mul-div-le (200 * total + count) (2 * count) in
    let above = lt-mul-div-succ (200 * total + count) positive in
    rw some_count (least, omega (arith, most), grind arith, grind arith)

module _ (row : ℕ) (input : Rating) (db : Db) (u : User) where
  -- The rows after the rating.
  abbrev pub with_rating : Table Rating
  with_rating = create row input db.ratings

  abbrev pub new_average : ℕ
  new_average =
      average_of (total_score input.ratee_id with_rating) (count_ratings input.ratee_id with_rating)

  -- The outcomes of `rate`.
  abbrev pub IsRated : Result (Unit {0}) × Db → Type 0
  IsRated (answer, db') =
      ((input.rater_id ≡ input.ratee_id) ⊎ (clashes_any input db.ratings ≡ true))
        × (answer ≡ err bad_request)
        × (db' ≡ db)
      ⊎ (input.rater_id ≢ input.ratee_id)
        × (clashes_any input db.ratings ≡ false)
        × (answer ≡ ok tt)
        × (db'.ratings ≡ with_rating)
        × (find input.ratee_id db'.users ≡ some (rated new_average u))

  rate-cases : find input.ratee_id db.users ≡ some u → IsRated (rate row input db)
  unfolding rate recalculate_average
  rate-cases e = elim (Bool-cases (input.rater_id == input.ratee_id)) [
    | inl same ↦
        inl (inl ((==_iff input.rater_id input.ratee_id).0 same), rw same refl, rw same refl)
    | inr other ↦ elim (Bool-cases (clashes_any input db.ratings)) [
      | inl taken ↦ inl (inr taken, rw (other, taken) refl, rw (other, taken) refl)
      | inr free ↦ inr (
        ground arith,
        free,
        rw (other, free) refl,
        rw (other, free) refl,
        rw (other, free) (find-update_self input.ratee_id (rated new_average) db.users u e),
      )
    ]
  ]

  new_average_bounds :
      HasStars db.ratings
      → (1 ≤ input.score) × (input.score ≤ 5)
      → let count = count_ratings input.ratee_id with_rating in
        let total = total_score input.ratee_id with_rating in
        (100 ≤ new_average)
        × (new_average ≤ 500)
        × (200 * total < (2 * new_average + 1) * count)
        × (2 * new_average * count ≤ 200 * total + count)
  new_average_bounds stars score =
      let count = count_ratings input.ratee_id with_rating in
      let total = total_score input.ratee_id with_rating in
      let (low, high) = total_bounds input.ratee_id with_rating (unfold create in (score, stars)) in
      average_bounds total count (unfold create count_ratings in ground arith) low high

  -- A rating of oneself, or of a job that is rated already, is refused and changes nothing. Any
  -- other is recorded, and the rating of the person who is rated is the average of all their
  -- scores to the nearest hundredth, which lies between one star and five if the scores do.
  pub rate_answers :
      find input.ratee_id db.users ≡ some u
      → HasStars db.ratings
      → 1 ≤ input.score
      → input.score ≤ 5
      → let count = count_ratings input.ratee_id with_rating in
        let total = total_score input.ratee_id with_rating in
        IsRated (rate row input db)
        × (100 ≤ new_average)
        × (new_average ≤ 500)
        × (200 * total < (2 * new_average + 1) * count)
        × (2 * new_average * count ≤ 200 * total + count)
  rate_answers e stars low high =
      let (a, b, c, d) = new_average_bounds stars (low, high) in (rate-cases e, a, b, c, d)
