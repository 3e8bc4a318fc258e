-- ===== src/Errands/Races.antt =====
-- Interleavings of the requests of errands/errands.service.ts: a method reads an errand,
-- checks it and writes it by its identifier, and another request runs in between.
use novax_backend.Common.{ℕ, ◌≡◌, refl, inl, inr, Bool, true, Option-cases, some, List, arith}
use novax_backend.Common.Action.{ok}
use novax_backend.Common.Table.{find, update, find-update_self}
use novax_backend.Schema.Enums.{ErrandStatus}
use novax_backend.Schema.Rows.{Errand}
use novax_backend.Schema.Db.{Db, MatchScope}
use novax_backend.Excluded.{add}
use novax_backend.Dispatch.{Candidate}
use novax_backend.Nearest.{search_radii, nearest}
use novax_backend.Errands.{
  with_status, offered_to, requested_again, is_searching, awaits, shop_write, start_shopping,
  offer_if_found, if_searching, match_errand, attempt_match, handle_decline_or_timeout, if_awaits,
  offer_timeout, accept_offer, cancel_errand,
}

module _ (k : ℕ) (db : Db) (o : Errand) (at : find k db.errands ≡ some o) where
  set_row :
      (s : ErrandStatus) → find k (update k (with_status s) db.errands) ≡ some (with_status s o)
  set_row s = find-update_self k (with_status s) db.errands o at

  accept_offer_lem :
      (driver : ℕ)
      → awaits driver o ≡ true
      → let (r, db') = accept_offer driver k db in
        (r ≡ ok (with_status ErrandStatus.accepted o))
        × (find k db'.errands ≡ some (with_status ErrandStatus.accepted o))
  unfolding accept_offer
  accept_offer_lem driver a =
      let row = set_row ErrandStatus.accepted in (ground (arith, at, row), ground (arith, at, row))

  shop_write_lem :
      (read : Errand)
      → let (r, db') = shop_write k read db in
        (r ≡ ok (with_status ErrandStatus.shopping o))
        × (find k db'.errands ≡ some (with_status ErrandStatus.shopping o))
  unfolding shop_write
  shop_write_lem read =
      let row = set_row ErrandStatus.shopping in (ground (arith, at, row), ground (arith, at, row))

  shopping_passes :
      (driver : ℕ)
      → o.status ≡ ErrandStatus.accepted
      → o.driver_id ≡ some driver
      → start_shopping driver k db ≡ shop_write k o db
  unfolding start_shopping
  shopping_passes driver p own = ground (arith, at)

  cancel_lem :
      o.status ≡ ErrandStatus.accepted
      → let (r, db') = cancel_errand k o.requester_id db in
        (r ≡ ok (with_status ErrandStatus.cancelled o))
        × (find k db'.errands ≡ some (with_status ErrandStatus.cancelled o))
  unfolding cancel_errand
  cancel_lem p =
      let row = set_row ErrandStatus.cancelled in (ground (arith, at, row), ground (arith, at, row))

-- Suppose `startShopping` has read an accepted errand and passed its checks, and the requester
-- calls the errand off before it writes. Both are told that they succeeded, and the driver is
-- shopping for an errand that was called off.
start_shopping_revives_cancelled :
    (k driver : ℕ) (db : Db) (o : Errand)
    → find k db.errands ≡ some o
    → o.status ≡ ErrandStatus.accepted
    → o.driver_id ≡ some driver
    → let (cancelling, db') = cancel_errand k o.requester_id db in
      let (starting, db'') = shop_write k o db' in
      (start_shopping driver k db ≡ shop_write k o db)
      × (cancelling ≡ ok (with_status ErrandStatus.cancelled o))
      × (starting ≡ ok (with_status ErrandStatus.shopping o))
      × (find k db''.errands ≡ some (with_status ErrandStatus.shopping o))
start_shopping_revives_cancelled k driver db o at p own =
    let (cancelling, off) = cancel_lem k db o at p in
    let db' : Db = (cancel_errand k o.requester_id db).1 in
    let (starting, on) = shop_write_lem k db' (with_status ErrandStatus.cancelled o) off o in
    (shopping_passes k db o at driver p own, cancelling, starting, on)

module _ (find_nearby : (job radius : ℕ) → (want_test_fleet : Bool) → Db → List Candidate) where
  -- A search leaves an errand that was looking looking, or being offered.
  still_searching :
      (k : ℕ) (db : Db) (o : Errand)
      → find k db.errands ≡ some o
      → is_searching o.status ≡ true
      → (o' : Errand) × (find k (attempt_match find_nearby k db).1.errands ≡ some o')
        × (is_searching o'.status ≡ true)
  unfolding attempt_match if_searching match_errand offer_if_found
  still_searching k db o at s =
      elim (Option-cases (nearest find_nearby MatchScope.errand k o.requester_id search_radii db)) [
        | inl n ↦ (o, rw (at, if_searching, s, n, offer_if_found) at, s)
        | inr (d, n) ↦ (
          offered_to d o,
          rw (at, if_searching, s, n, offer_if_found)
              (find-update_self k (offered_to d) db.errands o at),
          refl,
        )
      ]

  taken_back :
      (k d : ℕ) (db : Db) (o : Errand)
      → find k db.errands ≡ some o
      → (o' : Errand) × (find k (handle_decline_or_timeout find_nearby k d db).1.errands ≡ some o')
        × (is_searching o'.status ≡ true)
  unfolding handle_decline_or_timeout
  taken_back k d db o at =
      let db1 : Db = record db {
        excluded = add MatchScope.errand k d db.excluded;
        errands = update k requested_again db.errands;
      } in
      still_searching k db1 (requested_again o) (find-update_self k requested_again db.errands o at)
        refl

  timer_passes :
      (k d : ℕ) (db : Db) (o : Errand)
      → find k db.errands ≡ some o
      → awaits d o ≡ true
      → offer_timeout find_nearby k d db ≡ handle_decline_or_timeout find_nearby k d db
  unfolding offer_timeout if_awaits
  timer_passes k d db o at a = rw (at, if_awaits, a) refl

  -- Suppose the timer of an offer has found the errand waiting for the driver, whose accept reaches
  -- the database before the timer writes. The driver is told that the errand is theirs; yet once
  -- the timer is done the errand is looking for a driver again.
  errand_timeout_undoes_accept :
      (k d : ℕ) (db : Db) (o : Errand)
      → find k db.errands ≡ some o
      → awaits d o ≡ true
      → let (accepting, db') = accept_offer d k db in
        let (_, db'') = handle_decline_or_timeout find_nearby k d db' in
        (offer_timeout find_nearby k d db ≡ handle_decline_or_timeout find_nearby k d db)
        × (accepting ≡ ok (with_status ErrandStatus.accepted o))
        × ((o' : Errand) × (find k db''.errands ≡ some o') × (is_searching o'.status ≡ true))
  errand_timeout_undoes_accept k d db o at a =
      let (accepting, row) = accept_offer_lem k db o at d a in
      let db' : Db = (accept_offer d k db).1 in
      (
        timer_passes k d db o at a,
        accepting,
        taken_back k d db' (with_status ErrandStatus.accepted o) row,
      )
