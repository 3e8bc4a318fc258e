-- ===== src/Trips/Matching/Offers.antt =====
-- Whom a trip is offered to: `attemptMatch` and `offerToDrivers`.
use novax_backend.Common.{
  ℕ, ◌≤◌, ◌≡◌, refl, ◌↔◌, inl, inr, Bool, true, false, not, Option, none, some, List, [], ◌∷◌,
  arith, length, take, has, All, All-take, All-keep, length-take, List-cases,
}
use mathlib.Core.Path.{subst}
use novax_backend.Common.Action.{Result, ok, ◌>>◌}
use novax_backend.Common.Table.{find, update, find-update_self}
use novax_backend.Schema.Rows.{Trip}
use novax_backend.Schema.Db.{Db, MatchScope}
use novax_backend.Excluded.{get_all}
use novax_backend.Dispatch.{Candidate, rank_candidates}
use novax_backend.Dispatch.Ranking.{rank_candidates-All, rank_candidates-cons}
use novax_backend.Trips.{is_searching}
use novax_backend.Trips.Rides.{is_unclaimed}
use novax_backend.Trips.Rides.Claims.{IsOpen}
use novax_backend.Trips.Matching.Ladder.{escalate-ok, escalate_if_stuck-IsLadderStep}
use novax_backend.Trips.Matching.{
  escalate_if_stuck, timeout_write, offer_timeout, if_unclaimed, eligible, best_of, chosen,
  attempt_match, offer_to_drivers, offered, search_radii, dispatch_shortlist, reputation_in,
  if_searching, match_trip, offer_or_give_up, give_up, no_driver_at, record_first_no_driver,
}

-- A driver who has not been excluded from the trip.
abbrev pub IsFree : ℕ → Db → ℕ → Type 0
IsFree k db d = has d (get_all MatchScope.trip k db.excluded) ≡ false

All-eligible :
    (k : ℕ) (db : Db) (cs : List Candidate)
    → All
        (λ (c : Candidate). not (has c.driver_id (get_all MatchScope.trip k db.excluded)) ≡ true)
        cs
    → All (λ (c : Candidate). IsFree k db c.driver_id) cs
All-eligible k db [] all = tt
All-eligible k db (c ∷ cs) all = (ground arith, All-eligible k db cs all.1)

module _ (find_nearby : (job radius : ℕ) → (want_test_fleet : Bool) → Db → List Candidate) where
  eligible-IsFree :
      (k : ℕ) (t : Trip) (radius : ℕ) (db : Db)
      → All (λ (c : Candidate). IsFree k db c.driver_id) (eligible find_nearby k t radius db)
  unfolding eligible
  eligible-IsFree k t radius db = All-eligible k db _ (
      All-keep (λ (c : Candidate). not (has c.driver_id (get_all MatchScope.trip k db.excluded)))
        (find_nearby k radius t.is_test db))

  -- The trip is offered to three drivers at most, none of whom has been excluded from it, and to
  -- nobody exactly when no driver who is not excluded is found at any of the radii.
  pub chosen-IsBroadcast :
      (k : ℕ) (t : Trip) (radii : List ℕ) (now : ℕ) (db : Db)
      → let drivers = chosen find_nearby k t radii now db in
        (length drivers ≤ 3)
        × All (IsFree k db) drivers
        × (drivers ≡ [] ↔ All (λ radius. eligible find_nearby k t radius db ≡ []) radii)
  unfolding chosen best_of
  chosen-IsBroadcast k t [] now db = (omega arith, tt, (λ _. tt, λ _. refl))
  chosen-IsBroadcast k t (radius ∷ wider) now db =
      let rest = chosen-IsBroadcast k t wider now db in
      elim (List-cases (eligible find_nearby k t radius db)) [
        | inl e ↦
            rw (e, best_of) (rest.0, rest.1, (λ h. (refl, (rest.2).0 h), λ all. (rest.2).1 all.1))
        | inr (c, cs, e) ↦
            let short : List Candidate = take dispatch_shortlist (c ∷ cs) in
            let free =
              subst (All (λ (c : Candidate). IsFree k db c.driver_id)) e
                (eligible-IsFree k t radius db) in
            let (d, ds, r) = rank_candidates-cons now (reputation_in db) c (take 7 cs) in
            rw (e, best_of)
              (
                length-take 3 (rank_candidates now (reputation_in db) short),
                All-take (IsFree k db) 3 _ (
                    rank_candidates-All now (reputation_in db) (IsFree k db) short
                      (All-take (λ (c : Candidate). IsFree k db c.driver_id) 8 (c ∷ cs) free)),
                (λ h. cc (rw r at h), λ all. cc (all.0)),
              )
      ]

  -- The row's status after giving up or offering, and that nothing is thrown.
  abbrev IsStill : ℕ → Trip → Result (Unit {0}) × Db → Type 0
  IsStill k t (r, db') =
      (r ≡ ok tt) × ((t' : Trip) × (find k db'.trips ≡ some t') × (t'.status ≡ t.status))

  escalate-IsStill :
      (k now : ℕ) (db : Db) (t : Trip)
      → find k db.trips ≡ some t
      → IsStill k t (escalate_if_stuck k now db)
  escalate-IsStill k now db t e =
      let (t', e', step) = escalate_if_stuck-IsLadderStep k now db t e in
      (escalate-ok k now db, (t', e', step.rest_kept.0))

  record-IsStill :
      (k now : ℕ) (o : Option ℕ) (db : Db) (t : Trip)
      → find k db.trips ≡ some t
      → IsStill k t ((record_first_no_driver k o >> escalate_if_stuck k now) db)
  unfolding record_first_no_driver
  record-IsStill k now none db t e = escalate-IsStill k now _ t e
  record-IsStill k now (some first) db t e = escalate-IsStill k now db t e

  give_up-IsStill :
      (k now : ℕ) (db : Db) (t : Trip)
      → find k db.trips ≡ some t
      → IsStill k (no_driver_at now t) (give_up find_nearby k now t db)
  unfolding give_up
  give_up-IsStill k now db t e =
      record-IsStill k now t.no_driver_found_at
        (record db { trips = update k (no_driver_at now) db.trips }) (no_driver_at now t)
        (find-update_self k (no_driver_at now) db.trips t e)

  -- A search leaves a trip that was looking looking, or being offered, and never throws.
  pub attempt_match-searching :
      (k now : ℕ) (db : Db) (t : Trip)
      → find k db.trips ≡ some t
      → is_searching t.status ≡ true
      → let (r, db') = attempt_match find_nearby k now db in
        (r ≡ ok tt) × ((t' : Trip) × (find k db'.trips ≡ some t') × (is_searching t'.status ≡ true))
  unfolding attempt_match match_trip if_searching offer_or_give_up offer_to_drivers
  attempt_match-searching k now db t e s =
      elim (List-cases (chosen find_nearby k t search_radii now db)) [
        | inl c ↦
            let (fine, (t', e', same)) = give_up-IsStill k now db t e in
            rw (e, if_searching, s, c, offer_or_give_up) (fine, (t', e', rw same s))
        | inr (d, ds, c) ↦
            rw (e, if_searching, s, c, offer_or_give_up)
              (refl, (offered t, find-update_self k offered db.trips t e, refl))
      ]

  -- The handler of the timer acts when it finds the trip unclaimed.
  pub offer_timeout_fires :
      (k : ℕ) (drivers : List ℕ) (later : ℕ) (db : Db) (t : Trip)
      → IsOpen k db t
      → offer_timeout find_nearby k drivers later db ≡ timeout_write find_nearby k drivers later db
  unfolding offer_timeout
  offer_timeout_fires k drivers later db t o =
      let u : is_unclaimed t ≡ true = rw (o.1, o.2) refl in rw (o.0, if_unclaimed, u)
