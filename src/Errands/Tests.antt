-- ===== src/Errands/Tests.antt =====
-- The lifecycle of a concrete errand.
use novax_backend.Common.{ℕ, ◌≡◌, refl, ◌⊎◌, Bool, List, [], ◌∷◌, some}
use novax_backend.Common.Table.{find, update}
use novax_backend.Schema.Enums.{ErrandStatus}
use novax_backend.Schema.Rows.{Errand}
use novax_backend.Schema.Db.{Db}
use novax_backend.Dispatch.{Candidate}
use novax_backend.Fixtures.{errand, errand_state, nearby}
use novax_backend.Ledger.{clashes, clashes_any}
use novax_backend.Errands.{
  decline_offer, accept_offer, start_shopping, mark_on_the_way, mark_delivered,
}
use novax_backend.Errands.Lifecycle.{Reach}
use novax_backend.Errands.Runs.{Call, run_calls, run_calls-IsMoved}

abbrev everywhere : (job radius : ℕ) → (want_test_fleet : Bool) → Db → List Candidate
everywhere job radius want_test_fleet db = nearby

-- From the first offer to the door, with one refusal on the way.
abbrev calls : List Call
calls =
    Call.search_runs
    ∷ Call.driver_declines 2
    ∷ Call.driver_accepts 3
    ∷ Call.driver_shops 3
    ∷ Call.driver_leaves 3 45_000
    ∷ Call.driver_delivers 3 1_500_000
    ∷ []

run_calls-IsMoved_example :
    (e : Errand) × (find 40 (run_calls everywhere 40 calls (errand_state errand)).errands ≡ some e)
    × Reach ErrandStatus.requested e.status
    × ((ErrandStatus.requested ≡ ErrandStatus.delivered)
          ⊎ (ErrandStatus.requested ≡ ErrandStatus.cancelled)
        → e.status ≡ ErrandStatus.requested)
unfolding find
run_calls-IsMoved_example = run_calls-IsMoved everywhere 40 calls (errand_state errand) errand refl

delivered :
    find 40 (run_calls everywhere 40 calls (errand_state errand)).errands
    ≡ some (record errand {
      status = ErrandStatus.delivered;
      driver_id = some 3;
      actual_spend = some 45_000;
    })
unfolding find update run_calls decline_offer accept_offer start_shopping mark_on_the_way
    mark_delivered clashes_any clashes
delivered = refl
