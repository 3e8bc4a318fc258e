-- ===== src/Errands/Runs.antt =====
-- Any methods of errands/errands.service.ts, one after another on one errand.
use novax_backend.Common.{
  ℕ, ◌≡◌, refl, ◌⊎◌, inl, inr, arith, Bool, true, false, some, List, [], ◌∷◌,
}
use novax_backend.Common.Table.{find}
use novax_backend.Schema.Enums.{ErrandStatus}
use novax_backend.Schema.Rows.{Errand}
use novax_backend.Schema.Db.{Db}
use novax_backend.Dispatch.{Candidate}
use novax_backend.Errands.{
  attempt_match, offer_timeout, decline_offer, accept_offer, start_shopping, mark_on_the_way,
  mark_delivered, cancel_errand,
}
use novax_backend.Errands.Lifecycle.{
  Edge, Reach, Reach-trans, IsMoved, attempt_match-IsMoved, offer_timeout-IsMoved,
  decline_offer-IsMoved, accept_offer-IsMoved, start_shopping-IsMoved, mark_on_the_way-IsMoved,
  mark_delivered-IsMoved, cancel_errand-IsMoved,
}

-- A call of a method, or a timer or a search that runs; the first number is who calls.
pub data Call : Type 0 where
  search_runs : Call
  offer_expires driver_declines driver_accepts driver_shops : ℕ → Call
  driver_leaves : (driver actual_spend : ℕ) → Call
  driver_delivers : (driver now : ℕ) → Call
  party_cancels : ℕ → Call

is_final : ErrandStatus → Bool
is_final ErrandStatus.delivered = true
is_final ErrandStatus.cancelled = true
is_final _ = false

Edge-is_final : {s e : ErrandStatus} → Edge s e → is_final s ≡ false
unfolding is_final
Edge-is_final Edge.offers = refl
Edge-is_final Edge.offers_again = refl
Edge-is_final Edge.returns = refl
Edge-is_final Edge.accepts = refl
Edge-is_final Edge.shops = refl
Edge-is_final Edge.leaves = refl
Edge-is_final Edge.delivers = refl
Edge-is_final (Edge.cancels {s} c) = ground arith

final_stays : {s e : ErrandStatus} → is_final s ≡ true → Reach s e → e ≡ s
final_stays f Reach.stay = refl
final_stays f (Reach.step x p) = cc (f, Edge-is_final x)

final :
    (s : ErrandStatus)
    → (s ≡ ErrandStatus.delivered) ⊎ (s ≡ ErrandStatus.cancelled)
    → is_final s ≡ true
unfolding is_final
final s (inl e) = rw e refl
final s (inr e) = rw e refl

module _ (find_nearby : (job radius : ℕ) → (want_test_fleet : Bool) → Db → List Candidate) where
  unfoldable pub run_call : (errand : ℕ) → Call → Db → Db
  run_call k Call.search_runs db = (attempt_match find_nearby k db).1
  run_call k (Call.offer_expires driver) db = (offer_timeout find_nearby k driver db).1
  run_call k (Call.driver_declines driver) db = (decline_offer find_nearby driver k db).1
  run_call k (Call.driver_accepts driver) db = (accept_offer driver k db).1
  run_call k (Call.driver_shops driver) db = (start_shopping driver k db).1
  run_call k (Call.driver_leaves driver actual_spend) db =
      (mark_on_the_way driver k actual_spend db).1
  run_call k (Call.driver_delivers driver now) db = (mark_delivered driver k now db).1
  run_call k (Call.party_cancels user) db = (cancel_errand k user db).1

  unfoldable pub run_calls : (errand : ℕ) → List Call → Db → Db
  unfolding run_call
  run_calls k [] db = db
  run_calls k (c ∷ cs) db = run_calls k cs (run_call k c db)

  run_call-IsMoved :
      (k : ℕ) (c : Call) (db : Db) (o : Errand)
      → find k db.errands ≡ some o
      → IsMoved k o (run_call k c db)
  unfolding run_call
  run_call-IsMoved k Call.search_runs db o e = attempt_match-IsMoved find_nearby k db o e
  run_call-IsMoved k (Call.offer_expires driver) db o e =
      offer_timeout-IsMoved find_nearby k driver db o e
  run_call-IsMoved k (Call.driver_declines driver) db o e =
      decline_offer-IsMoved find_nearby k driver db o e
  run_call-IsMoved k (Call.driver_accepts driver) db o e = accept_offer-IsMoved k db o e driver
  run_call-IsMoved k (Call.driver_shops driver) db o e = start_shopping-IsMoved k db o e driver
  run_call-IsMoved k (Call.driver_leaves driver spend) db o e =
      mark_on_the_way-IsMoved k db o e driver spend
  run_call-IsMoved k (Call.driver_delivers driver now) db o e =
      mark_delivered-IsMoved k db o e driver now
  run_call-IsMoved k (Call.party_cancels user) db o e = cancel_errand-IsMoved k db o e user

  moves :
      (k : ℕ) (cs : List Call) (db : Db) (o : Errand)
      → find k db.errands ≡ some o
      → IsMoved k o (run_calls k cs db)
  unfolding run_calls
  moves k [] db o e = (o, e, Reach.stay)
  moves k (c ∷ cs) db o e =
      let (o1, e1, path) = run_call-IsMoved k c db o e in
      let (o2, e2, further) = moves k cs (run_call k c db) o1 e1 in
      (o2, e2, Reach-trans path further)

  -- Whatever calls are made on an errand one after another, each ending before the next begins, in
  -- whatever order and by whomever, the errand is still there and its status is one that the steps
  -- of the lifecycle lead to from the status it had; delivered and cancelled are the end of it.
  pub run_calls-IsMoved :
      (k : ℕ) (cs : List Call) (db : Db) (o : Errand)
      → find k db.errands ≡ some o
      → (o' : Errand) × (find k (run_calls k cs db).errands ≡ some o')
        × Reach o.status o'.status
        × ((o.status ≡ ErrandStatus.delivered) ⊎ (o.status ≡ ErrandStatus.cancelled)
            → o'.status ≡ o.status)
  run_calls-IsMoved k cs db o e =
      let (o', e', path) = moves k cs db o e in
      (o', e', path, λ f. final_stays (final o.status f) path)
