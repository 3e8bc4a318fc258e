-- ===== src/Errands/Lifecycle.antt =====
-- The states of a food errand of errands/errands.service.ts, and the moves of each method.
use novax_backend.Common.{
  ℕ, ◌≡◌, refl, ap, ◌∙◌, ◌⊎◌, inl, inr, Bool, true, false, Bool-cases, Option-cases, some, List,
  arith,
}
use novax_backend.Common.Action.{err, forbidden}
use novax_backend.Common.Table.{find, update, find-update_self}
use novax_backend.Schema.Enums.{ErrandStatus}
use novax_backend.Schema.Rows.{Errand}
use novax_backend.Schema.Db.{Db, MatchScope}
use novax_backend.Excluded.{add}
use novax_backend.Dispatch.{Candidate}
use novax_backend.Nearest.{search_radii, nearest}
use novax_backend.Errands.{
  with_status, offered_to, requested_again, on_the_way_with, is_searching, is_cancellable,
  may_deliver, awaits, offer_if_found, if_searching, match_errand, attempt_match,
  handle_decline_or_timeout, if_awaits, offer_timeout, decline_offer, accept_offer, start_shopping,
  mark_on_the_way, settle, if_claimed, deliver_write, mark_delivered, cancel_errand,
}

-- One step of an errand.
pub data Edge : ErrandStatus → ErrandStatus → Type 0 where
  offers : Edge ErrandStatus.requested ErrandStatus.matching
  offers_again : Edge ErrandStatus.matching ErrandStatus.matching
  returns : Edge ErrandStatus.matching ErrandStatus.requested
  accepts : Edge ErrandStatus.matching ErrandStatus.accepted
  shops : Edge ErrandStatus.accepted ErrandStatus.shopping
  leaves : Edge ErrandStatus.shopping ErrandStatus.on_the_way
  delivers : Edge ErrandStatus.on_the_way ErrandStatus.delivered
  cancels : {s : ErrandStatus} → is_cancellable s ≡ true → Edge s ErrandStatus.cancelled

-- Any number of steps.
pub data Reach : ErrandStatus → ErrandStatus → Type 0 where
  stay : {s : ErrandStatus} → Reach s s
  step : {s m e : ErrandStatus} → Edge s m → Reach m e → Reach s e

pub Reach-trans : {s m e : ErrandStatus} → Reach s m → Reach m e → Reach s e
Reach-trans stay q = q
Reach-trans (step x p) q = step x (Reach-trans p q)

-- The row of errand `k` in `db'` has moved from `o`.
abbrev pub IsMoved : ℕ → Errand → Db → Type 0
IsMoved k o db' = (o' : Errand) × (find k db'.errands ≡ some o') × Reach o.status o'.status

-- A method that leaves the row or, from the status `s`, takes one step.
pub moved :
    (k : ℕ) (o : Errand) (db' : Db) {s e : ErrandStatus} (o' : Errand)
    → Edge s e
    → o'.status ≡ e
    → (find k db'.errands ≡ some o) ⊎ (o.status ≡ s) × (find k db'.errands ≡ some o')
    → IsMoved k o db'
moved k o db' o' x h (inl same) = (o, same, stay)
moved k o db' {s} {e} o' x h (inr (from, row)) = (o', row, rw (from, h) (step x stay))

searching :
    (s : ErrandStatus)
    → is_searching s ≡ true
    → (s ≡ ErrandStatus.requested) ⊎ (s ≡ ErrandStatus.matching)
searching ErrandStatus.requested h = inl refl
searching ErrandStatus.matching h = inr refl
searching ErrandStatus.accepted h = cc
searching ErrandStatus.shopping h = cc
searching ErrandStatus.on_the_way h = cc
searching ErrandStatus.delivered h = cc
searching ErrandStatus.cancelled h = cc

module _ (k : ℕ) (db : Db) (o : Errand) (at : find k db.errands ≡ some o) where
  set_row :
      (s : ErrandStatus) → find k (update k (with_status s) db.errands) ≡ some (with_status s o)
  set_row s = find-update_self k (with_status s) db.errands o at

  pub accept_offer-IsMoved : (driver : ℕ) → IsMoved k o (accept_offer driver k db).1
  unfolding accept_offer
  accept_offer-IsMoved driver =
      moved k o (accept_offer driver k db).1 (with_status ErrandStatus.accepted o) Edge.accepts refl
        (ground (arith, at, set_row ErrandStatus.accepted))

  pub start_shopping-IsMoved : (driver : ℕ) → IsMoved k o (start_shopping driver k db).1
  unfolding start_shopping
  start_shopping-IsMoved driver =
      moved k o (start_shopping driver k db).1 (with_status ErrandStatus.shopping o) Edge.shops refl
        (ground (arith, at, set_row ErrandStatus.shopping))

  pub mark_on_the_way-IsMoved :
      (driver spend : ℕ) → IsMoved k o (mark_on_the_way driver k spend db).1
  unfolding mark_on_the_way
  mark_on_the_way-IsMoved driver spend =
      moved k o (mark_on_the_way driver k spend db).1 (on_the_way_with spend o) Edge.leaves refl
        (ground (arith, at, find-update_self k (on_the_way_with spend) db.errands o at))

  pub cancel_errand-IsMoved : (user : ℕ) → IsMoved k o (cancel_errand k user db).1
  unfolding cancel_errand
  cancel_errand-IsMoved user = elim (Bool-cases (is_cancellable o.status)) [
    | inl c ↦
        moved k o (cancel_errand k user db).1 (with_status ErrandStatus.cancelled o)
          (Edge.cancels {s = o.status} c) refl (ground (arith, at, set_row ErrandStatus.cancelled))
    | inr c ↦ (o, ground (arith, at), stay)
  ]

  -- Offering to a driver who is found.
  offered-IsMoved :
      (driver : ℕ) (db' : Db)
      → is_searching o.status ≡ true
      → find k db'.errands ≡ some (offered_to driver o)
      → IsMoved k o db'
  offered-IsMoved driver db' s row = elim (searching o.status s) [
    | inl e ↦ moved k o db' (offered_to driver o) Edge.offers refl (inr (e, row))
    | inr e ↦ moved k o db' (offered_to driver o) Edge.offers_again refl (inr (e, row))
  ]

module _ (find_nearby : (job radius : ℕ) → (want_test_fleet : Bool) → Db → List Candidate) where
  pub attempt_match-IsMoved :
      (k : ℕ) (db : Db) (o : Errand)
      → find k db.errands ≡ some o
      → IsMoved k o (attempt_match find_nearby k db).1
  unfolding attempt_match if_searching match_errand offer_if_found
  attempt_match-IsMoved k db o at = elim (Bool-cases (is_searching o.status)) [
    | inl s ↦
        elim (Option-cases
          (nearest find_nearby MatchScope.errand k o.requester_id search_radii db)) [
            | inl n ↦ (o, rw (at, if_searching, s, n, offer_if_found) at, stay)
            | inr (d, n) ↦ offered-IsMoved k db o at d (attempt_match find_nearby k db).1 s (
                rw (at, if_searching, s, n, offer_if_found)
                  (find-update_self k (offered_to d) db.errands o at))
          ]
    | inr s ↦ (o, rw (at, if_searching, s) at, stay)
  ]

  -- Taking the errand back from a driver, and searching again.
  handle_decline_or_timeout-IsMoved :
      (k d : ℕ) (db : Db) (o : Errand)
      → find k db.errands ≡ some o
      → awaits d o ≡ true
      → IsMoved k o (handle_decline_or_timeout find_nearby k d db).1
  unfolding handle_decline_or_timeout
  handle_decline_or_timeout-IsMoved k d db o at a =
      let db1 : Db = record db {
        excluded = add MatchScope.errand k d db.excluded;
        errands = update k requested_again db.errands;
      } in
      let (o', row, path) =
        attempt_match-IsMoved k db1 (requested_again o)
          (find-update_self k requested_again db.errands o at) in
      let was : o.status ≡ ErrandStatus.matching = ground arith in
      (o', row, rw was (step Edge.returns path))

  pub offer_timeout-IsMoved :
      (k d : ℕ) (db : Db) (o : Errand)
      → find k db.errands ≡ some o
      → IsMoved k o (offer_timeout find_nearby k d db).1
  unfolding offer_timeout if_awaits
  offer_timeout-IsMoved k d db o at = elim (Bool-cases (awaits d o)) [
    | inl a ↦ rw (at, if_awaits, a) (handle_decline_or_timeout-IsMoved k d db o at a)
    | inr a ↦ (o, rw (at, if_awaits, a) at, stay)
  ]

  declined :
      (k d : ℕ) (db : Db) (o : Errand)
      → find k db.errands ≡ some o
      → ((awaits d o ≡ true)
          → decline_offer find_nearby d k db ≡ handle_decline_or_timeout find_nearby k d db)
        × ((awaits d o ≡ false) → decline_offer find_nearby d k db ≡ (err forbidden, db))
  unfolding decline_offer
  declined k d db o at = (λ a. ground (arith, at), λ a. ground (arith, at))

  pub decline_offer-IsMoved :
      (k d : ℕ) (db : Db) (o : Errand)
      → find k db.errands ≡ some o
      → IsMoved k o (decline_offer find_nearby d k db).1
  decline_offer-IsMoved k d db o at = elim (Bool-cases (awaits d o)) [
    | inl a ↦ rw ((declined k d db o at).0 a) (handle_decline_or_timeout-IsMoved k d db o at a)
    | inr a ↦ (o, ap (λ p. find k p.1.errands) ((declined k d db o at).1 a) ∙ at, stay)
  ]

deliver_row :
    (k driver now : ℕ) (read o : Errand) (db : Db)
    → find k db.errands ≡ some o
    → may_deliver o ≡ true
    → find k (deliver_write k driver now read db).1.errands
      ≡ some (with_status ErrandStatus.delivered o)
unfolding deliver_write if_claimed settle
deliver_row k driver now read o db e m =
    ground (arith, e, find-update_self k (with_status ErrandStatus.delivered) db.errands o e)

mark_delivered-cases :
    (k driver now : ℕ) (db : Db) (o : Errand)
    → find k db.errands ≡ some o
    → (mark_delivered driver k now db ≡ deliver_write k driver now o db) × (may_deliver o ≡ true)
      ⊎ ((mark_delivered driver k now db).1 ≡ db)
unfolding mark_delivered
mark_delivered-cases k driver now db o e = ground (arith, e)

pub mark_delivered-IsMoved :
    (k : ℕ) (db : Db) (o : Errand)
    → find k db.errands ≡ some o
    → (driver now : ℕ) → IsMoved k o (mark_delivered driver k now db).1
mark_delivered-IsMoved k db o e driver now =
    let after = (mark_delivered driver k now db).1 in
    elim (mark_delivered-cases k driver now db o e) [
      | inl (same, m) ↦
          moved k o after (with_status ErrandStatus.delivered o) Edge.delivers refl
            (inr (ground arith, rw same (deliver_row k driver now o o db e m)))
      | inr same ↦
          moved k o after (with_status ErrandStatus.delivered o) Edge.delivers refl
            (inl (rw same e))
    ]
