-- ===== src/Trips/Rides/Claims.antt =====
-- The accepts of the drivers that see an offer: `acceptTrip` of trips/trips.service.ts.
use novax_backend.Common.{
  ℕ, ◌+◌, ◌≡◌, refl, ◌⊎◌, inl, inr, true, false, Bool-cases, none, some, Option-cases, List, [],
  ◌∷◌, arith,
}
use novax_backend.Common.Action.{Result, ok, err, conflict}
use novax_backend.Common.Table.{find, find-update_self}
use novax_backend.Schema.Enums.{TripStatus}
use novax_backend.Schema.Rows.{Trip}
use novax_backend.Schema.Db.{Db, MatchScope}
use novax_backend.Excluded.{get_all}
use novax_backend.Excluded.Laws.{get_all-clear}
use novax_backend.Trips.{claim}
use novax_backend.Trips.Rides.{is_unclaimed, matched_by, accept_trip}

-- The driver `driver` has taken the trip, whose row was `t`.
pub record IsTaken (k driver now : ℕ) (t : Trip) (r : Result Trip) (db' : Db) : Type 0 where
  pub answer : r ≡ ok (matched_by driver now t)
  pub row : find k db'.trips ≡ some (matched_by driver now t)
  pub nobody_excluded : get_all MatchScope.trip k db'.excluded ≡ []

pub accept_won :
    (k driver now : ℕ) (db : Db) (t : Trip)
    → find k db.trips ≡ some t
    → is_unclaimed t ≡ true
    → let (r, db') = accept_trip k driver now db in IsTaken k driver now t r db'
unfolding accept_trip
accept_won k driver now db t e u =
    let e' = find-update_self k (matched_by driver now) db.trips t e in
    record {
      answer = ground (arith, e');
      row = ground (arith, e');
      nobody_excluded = ground (arith, e', get_all-clear MatchScope.trip k db.excluded);
    }

pub accept_lost :
    (k driver now : ℕ) (db : Db)
    → (find k db.trips ≡ none)
      ⊎ ((t : Trip) × (find k db.trips ≡ some t) × (is_unclaimed t ≡ false))
    → accept_trip k driver now db ≡ (err conflict, db)
unfolding accept_trip claim
accept_lost k driver now db (inl e) = ground arith
accept_lost k driver now db (inr (t, e, u)) = ground arith

-- The trip is being offered and nobody has it.
abbrev pub IsOpen : ℕ → Db → Trip → Type 0
IsOpen k db t = (find k db.trips ≡ some t) × (t.status ≡ TripStatus.matching) × (t.driver_id ≡ none)

-- An accept succeeds exactly when the trip is being offered and nobody has it: the trip is then
-- matched to the driver, who gets it back so, and the drivers excluded from it are forgotten. Any
-- other accept is answered with a conflict and changes nothing at all.
pub accept_trip_claims :
    (k driver now : ℕ) (db : Db)
    → let (r, db') = accept_trip k driver now db in
      ((t : Trip) × IsOpen k db t × IsTaken k driver now t r db')
      ⊎ (¬ ((t : Trip) × IsOpen k db t)) × (r ≡ err conflict) × (db' ≡ db)
accept_trip_claims k driver now db = elim (Option-cases (find k db.trips)) [
  | inl e ↦
      let lost = accept_lost k driver now db (inl e) in inr (λ o. cc ((o.1).0), rw lost, rw lost)
  | inr (t, e) ↦ elim (Bool-cases (is_unclaimed t)) [
    | inl u ↦ inl (t, (e, ground arith, ground arith), accept_won k driver now db t e u)
    | inr u ↦
        let lost = accept_lost k driver now db (inr (t, e, u)) in
        inr (λ o. ground arith, rw lost, rw lost)
  ]
]

-- The accepts of several drivers in the order in which they reach the database.
pub accept_all : (trip : ℕ) → List ℕ → (now : ℕ) → Db → List (Result Trip) × Db
accept_all k [] now db = ([], db)
accept_all k (d ∷ ds) now db =
    let (r, db') = accept_trip k d now db in
    let (rs, db'') = accept_all k ds now db' in (r ∷ rs, db'')

abbrev pub winners : List (Result Trip) → ℕ
winners [] = 0
winners (ok _ ∷ rs) = winners rs + 1
winners (err _ ∷ rs) = winners rs

pub no_winner :
    (k : ℕ) (ds : List ℕ) (now : ℕ) (db : Db) (t : Trip)
    → find k db.trips ≡ some t
    → is_unclaimed t ≡ false
    → (winners (accept_all k ds now db).0 ≡ 0) × ((accept_all k ds now db).1 ≡ db)
unfolding accept_all
no_winner k [] now db t e u = (refl, refl)
no_winner k (d ∷ ds) now db t e u =
    rw (accept_lost k d now db (inr (t, e, u))) (no_winner k ds now db t e u)

-- However many drivers accept an offered trip, exactly one of them gets it, the first to reach the
-- database, and the trip stays as that accept left it.
pub accept_all_one_winner :
    (k d : ℕ) (ds : List ℕ) (now : ℕ) (db : Db) (t : Trip)
    → IsOpen k db t
    → let (rs, db') = accept_all k (d ∷ ds) now db in
      (winners rs ≡ 1) × (find k db'.trips ≡ some (matched_by d now t))
unfolding accept_all
accept_all_one_winner k d ds now db t o =
    let won = accept_won k d now db t (o.0) (rw (o.1, o.2)) in
    let (none_left, same) =
      no_winner k ds now (accept_trip k d now db).1 (matched_by d now t) won.row refl in
    (rw won.answer (omega (arith, none_left)), rw same won.row)
