-- ===== src/Trips/Cancelling/Answers.antt =====
-- Who may call a ride off, when, and what it costs: `cancelTrip`.
use novax_backend.Common.{ℕ, ◌≡◌, ap, ◌⊎◌, inl, inr, true, false, ◌==◌, Bool-cases, some, [], arith}
use novax_backend.Common.Action.{Result, ok, err, forbidden, bad_request}
use novax_backend.Common.Table.{find, update, find-update_self}
use novax_backend.Schema.Enums.{TripStatus}
use novax_backend.Schema.Rows.{Trip}
use novax_backend.Schema.Db.{Db, MatchScope}
use novax_backend.Excluded.{get_all}
use novax_backend.Excluded.Laws.{get_all-clear}
use novax_backend.Trips.{is_cancellable, is_matched}
use novax_backend.Trips.Cancelling.{
  is_party, outcome_of, cancelled_row, one_more_cancelled, cancel_trip,
}

-- A ride called off by one of its parties.
pub record IsCancelled (k user now : ℕ) (t : Trip) (db : Db) (r : Result Trip) (db' : Db)
    : Type 0 where
  pub answer : r ≡ ok (cancelled_row user now t t)
  pub row : find k db'.trips ≡ some (cancelled_row user now t t)
  pub free : (outcome_of user now t).fee ≡ 0
  pub nobody_excluded : get_all MatchScope.trip k db'.excluded ≡ []
  pub no_money : (db'.ledger ≡ db.ledger) × (db'.users ≡ db.users)
  pub counted :
      (d : ℕ)
      → t.driver_id ≡ some d
      → t.status ≡ TripStatus.matched
      → t.is_test ≡ false
      → (t.rider_id == user) ≡ false
      → db'.profiles ≡ update d one_more_cancelled db.profiles
  pub not_counted :
      ((t.rider_id == user) ≡ true) ⊎ (t.is_test ≡ true) ⊎ (is_matched t.status ≡ false)
      → db'.profiles ≡ db.profiles

pub cancel_trip_lem :
    (k user now : ℕ) (db : Db) (t : Trip)
    → find k db.trips ≡ some t
    → is_party user t ≡ true
    → is_cancellable t.status ≡ true
    → let (r, db') = cancel_trip k user now db in IsCancelled k user now t db r db'
unfolding cancel_trip
cancel_trip_lem k user now db t e p c =
    let e' = find-update_self k (cancelled_row user now t) db.trips t e in
    record {
      answer = ground (arith, e, e');
      row = ground (arith, e, e');
      free = ground arith;
      nobody_excluded = ground (arith, e, e', get_all-clear MatchScope.trip k db.excluded);
      no_money = ground (arith, e, e');
      counted = λ d f m n s. ground (arith, e, e');
      not_counted = λ s. ground (arith, e, e');
    }

refused :
    (k user now : ℕ) (db : Db) (t : Trip)
    → find k db.trips ≡ some t
    → ((is_party user t ≡ false) → cancel_trip k user now db ≡ (err forbidden, db))
      × (is_party user t ≡ true
          → is_cancellable t.status ≡ false
          → cancel_trip k user now db ≡ (err bad_request, db))
unfolding cancel_trip
refused k user now db t e = (λ p. ground arith, λ p c. ground arith)

-- A ride can be called off by its rider or its driver, before it has started. It is then cancelled,
-- at no fee, nobody stays excluded from it and no money or points move; it counts against the
-- driver's reliability exactly when the driver, and not the rider, called off a ride that was
-- matched and is no test. A stranger, and a party too late, are refused and nothing changes.
pub cancel_trip_answers :
    (k user now : ℕ) (db : Db) (t : Trip)
    → find k db.trips ≡ some t
    → let (r, db') = cancel_trip k user now db in
      (is_party user t ≡ true)
        × (is_cancellable t.status ≡ true)
        × IsCancelled k user now t db r db'
      ⊎ (is_party user t ≡ false) × (r ≡ err forbidden) × (db' ≡ db)
      ⊎ (is_party user t ≡ true)
        × (is_cancellable t.status ≡ false)
        × (r ≡ err bad_request)
        × (db' ≡ db)
cancel_trip_answers k user now db t e = elim (Bool-cases (is_party user t)) [
  | inl p ↦ elim (Bool-cases (is_cancellable t.status)) [
    | inl c ↦ inl (p, c, cancel_trip_lem k user now db t e p c)
    | inr c ↦
        let no = (refused k user now db t e).1 p c in
        inr (inr (p, c, ap (λ x. x.0) no, ap (λ x. x.1) no))
  ]
  | inr p ↦
      let no = (refused k user now db t e).0 p in inr (inl (p, ap (λ x. x.0) no, ap (λ x. x.1) no))
]
