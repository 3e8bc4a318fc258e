-- ===== src/Deliveries/Offers.antt =====
-- Whom a parcel is offered to, and after a refusal to whom next: `attemptMatch` and
-- `handleDeclineOrTimeout` of delivery/delivery.service.ts.

use novax_backend.Common.{
  ℕ, ◌≡◌, refl, ap, ◌∙◌, ◌⊎◌, inl, inr, Bool, true, false, ◌==◌, Bool-cases, Option-cases, none,
  some, List, arith, has,
}
use novax_backend.Common.Action.{Result, ok, err, forbidden}
use novax_backend.Common.Table.{find, update, find-update_self}
use novax_backend.Schema.Rows.{Delivery}
use novax_backend.Schema.Db.{Db, MatchScope}
use novax_backend.Excluded.{get_all, add}
use novax_backend.Excluded.Laws.{has-add}
use novax_backend.Dispatch.{Candidate}
use novax_backend.Nearest.{search_radii, nearest, nearest-has}
use novax_backend.Deliveries.{
  is_searching, requested_again, offered_to, awaits, if_searching, match_delivery, offer_if_found,
  offer_to_driver, attempt_match, handle_decline_or_timeout, decline_delivery, get_delivery_or_404,
}

awaits-other :
    (d e : ℕ) (x : Delivery) (ds : List ℕ)
    → has d ds ≡ true
    → has e ds ≡ false
    → awaits d (offered_to e x) ≡ false
awaits-other d e x ds h g = elim (Bool-cases (e == d)) [
  | inl q ↦ let p : e ≡ d = ground arith in cc (ap (λ j. has j ds) p, h, g)
  | inr q ↦ q
]

module _ (find_nearby : (job radius : ℕ) → (want_test_fleet : Bool) → Db → List Candidate) where
  -- The row after a search.
  abbrev IsSearched : ℕ → Delivery → Db → Result (Unit {0}) × Db → Type 0
  IsSearched k x db (r, db') =
      (r ≡ ok tt)
      × ((nearest find_nearby MatchScope.delivery k x.sender_id search_radii db ≡ none)
            × (find k db'.deliveries ≡ some x)
          ⊎ (d : ℕ) × (nearest find_nearby MatchScope.delivery k x.sender_id search_radii db
              ≡ some d)
            × (find k db'.deliveries ≡ some (offered_to d x)))

  -- A parcel that is looking for a driver is offered to the nearest one who has not been excluded
  -- from it, or stays as it is when there is none.
  pub attempt_match-IsSearched :
      (k : ℕ) (db : Db) (x : Delivery)
      → find k db.deliveries ≡ some x
      → is_searching x.status ≡ true
      → IsSearched k x db (attempt_match find_nearby k db)
  unfolding attempt_match if_searching match_delivery offer_if_found offer_to_driver
  attempt_match-IsSearched k db x e s =
      elim (Option-cases (nearest find_nearby MatchScope.delivery k x.sender_id search_radii db)) [
        | inl n ↦ rw (e, if_searching, s, n, offer_if_found) (refl, inl (refl, e))
        | inr (d, n) ↦
            rw (e, if_searching, s, n, offer_if_found)
              (refl, inr (d, refl, find-update_self k (offered_to d) db.deliveries x e))
      ]

  abbrev declined : ℕ → ℕ → Db → Db
  declined k d db = record db {
    excluded = add MatchScope.delivery k d db.excluded;
    deliveries = update k requested_again db.deliveries;
  }

  decline_delivery_lem :
      (k d : ℕ) (db : Db) (x : Delivery)
      → find k db.deliveries ≡ some x
      → awaits d x ≡ true
      → decline_delivery find_nearby k d db ≡ attempt_match find_nearby k (declined k d db)
  unfolding decline_delivery handle_decline_or_timeout get_delivery_or_404
  decline_delivery_lem k d db x e a = ground (arith, e)

  decline_refused :
      (k d : ℕ) (db : Db) (x : Delivery)
      → find k db.deliveries ≡ some x
      → awaits d x ≡ false
      → decline_delivery find_nearby k d db ≡ (err forbidden, db)
  unfolding decline_delivery get_delivery_or_404
  decline_refused k d db x e a = ground (arith, e)

  excluded_now :
      (k d : ℕ) (db : Db) → has d (get_all MatchScope.delivery k (declined k d db).excluded) ≡ true
  excluded_now k d db = has-add MatchScope.delivery k d d db.excluded ∙ ground arith

  moves_on :
      (k d : ℕ) (db : Db) (x : Delivery) (p : Result (Unit {0}) × Db)
      → IsSearched k (requested_again x) (declined k d db) p
      → (p.0 ≡ ok tt)
        × ((x' : Delivery) × (find k p.1.deliveries ≡ some x') × (awaits d x' ≡ false))
  moves_on k d db x p (fine, inl (n, row)) = (fine, (requested_again x, row, refl))
  moves_on k d db x p (fine, inr (j, n, row)) =
      let free =
        nearest-has find_nearby MatchScope.delivery k x.sender_id search_radii (declined k d db) j
          n in
      (
        fine,
        (
          offered_to j (requested_again x),
          row,
          awaits-other d j (requested_again x) _ (excluded_now k d db) free,
        ),
      )

  -- When the driver to whom a parcel is offered declines, the call succeeds, and the parcel awaits
  -- another driver or none, never that one; a driver to whom it is not offered is refused and
  -- changes nothing.
  pub decline_delivery_moves_on :
      (k d : ℕ) (db : Db) (x : Delivery)
      → find k db.deliveries ≡ some x
      → let (r, db') = decline_delivery find_nearby k d db in
        (awaits d x ≡ true)
          × (r ≡ ok tt)
          × ((x' : Delivery) × (find k db'.deliveries ≡ some x') × (awaits d x' ≡ false))
        ⊎ (awaits d x ≡ false) × (r ≡ err forbidden) × (db' ≡ db)
  decline_delivery_moves_on k d db x e = elim (Bool-cases (awaits d x)) [
    | inl a ↦
        let e1 = find-update_self k requested_again db.deliveries x e in
        let next =
          moves_on k d db x (attempt_match find_nearby k (declined k d db))
            (attempt_match-IsSearched k (declined k d db) (requested_again x) e1 refl) in
        let same = decline_delivery_lem k d db x e a in inl (a, rw same next.0, rw same next.1)
    | inr a ↦ let no = decline_refused k d db x e a in inr (a, ap (λ p. p.0) no, ap (λ p. p.1) no)
  ]
