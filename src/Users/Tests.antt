-- ===== src/Users/Tests.antt =====
-- Accounts and applications at concrete inputs.
use novax_backend.Common.{
  ℕ, ◌≡◌, ◌≢◌, refl, ◌⊎◌, true, false, not, ◌&&◌, some, none, List, [], ◌∷◌, arith,
}
use novax_backend.Common.Action.{ok, err, bad_request}
use novax_backend.Common.Table.{find, update}
use novax_backend.Common.Text.{codes, text_eq}
use novax_backend.Schema.Enums.{Role, KycStatus, DriverMode}
use novax_backend.Schema.Rows.{User, DriverProfile}
use novax_backend.Schema.Db.{Db}
use novax_backend.Fixtures.{rider, driver, documents, profile, ride, matched_ride, state}
use novax_backend.Accounts.Sessions.{Bcrypt, Jwt}
use novax_backend.Accounts.Signup.{Register}
use novax_backend.Location.{on_a_job, over_credit_limit, passes}
use novax_backend.Users.{with_kyc, set_active_mode, approve_driver_kyc}
use novax_backend.Users.Emails.{AreDistinct}
use novax_backend.Users.Emails.Runs.{Call, run_all, run_all-AreDistinct}
use novax_backend.Users.Mode.{set_active_mode-on_a_job}
use novax_backend.Users.Onboarding.{Paper, queued_at, submit_for_review}
use novax_backend.Users.Onboarding.Approval.{complete_driver_is_allowed}
use novax_backend.Users.Onboarding.Review.{IsComplete, IsReady, submit_for_review_answers}

-- Driver 2 is on the ride.
set_active_mode-on_a_job_example :
    let (answer, db') = set_active_mode 2 DriverMode.food_errand (state matched_ride) in
    (on_a_job (state matched_ride) 2 ≡ true)
      × (answer ≡ err bad_request)
      × (db' ≡ state matched_ride)
    ⊎ (on_a_job (state matched_ride) 2 ≡ false)
      × (answer ≡ ok tt)
      × ((p : DriverProfile) × (find 2 db'.profiles ≡ some p)
          × (p.active_mode ≡ DriverMode.food_errand))
      × (◌≢◌ {A = ℕ} 3 2 → find 3 db'.profiles ≡ find 3 (state matched_ride).profiles)
set_active_mode-on_a_job_example =
    set_active_mode-on_a_job 2 3 DriverMode.food_errand (state matched_ride)

-- A driver with every paper, who is not approved yet.
abbrev applicant : User
applicant = record driver { kyc_status = KycStatus.pending }

abbrev all_papers : DriverProfile
all_papers = record profile {
  documents = record documents {
    cnic_front_url = some (codes "cnic.jpg");
    license_doc_url = some (codes "licence.jpg");
    vehicle_photo_url = some (codes "bike.jpg");
    service_zone = some (codes "DHA");
    emergency_contact_name = some (codes "Fatima");
    emergency_contact_phone = some (codes "+923001112223");
  };
}

abbrev applying : Db
applying = record (state ride) { users = (2, applicant) ∷ []; profiles = (2, all_papers) ∷ [] }

all_papers-IsComplete : IsComplete applicant all_papers
all_papers-IsComplete Paper.full_name = refl
all_papers-IsComplete Paper.vehicle_type = refl
all_papers-IsComplete Paper.vehicle_plate = refl
all_papers-IsComplete Paper.cnic_number = refl
all_papers-IsComplete Paper.cnic_front_url = refl
all_papers-IsComplete Paper.license_doc_url = refl
all_papers-IsComplete Paper.vehicle_photo_url = refl
all_papers-IsComplete Paper.service_zone = refl
all_papers-IsComplete Paper.emergency_contact_name = refl
all_papers-IsComplete Paper.emergency_contact_phone = refl

submit_for_review_answers_example :
    let (answer, db') = submit_for_review 2 1_000_000 applying in
    ((p : DriverProfile) × IsReady applicant (find 2 applying.profiles) p
      × (answer ≡ ok tt)
      × (find 2 db'.profiles ≡ some (queued_at 1_000_000 p))
      × (db'.users ≡ applying.users))
    ⊎ (¬ ((p : DriverProfile) × IsReady applicant (find 2 applying.profiles) p))
      × (answer ≡ err bad_request)
      × (db' ≡ applying)
unfolding find
submit_for_review_answers_example = submit_for_review_answers 2 1_000_000 applying applicant refl

abbrev applied : Db
applied = (submit_for_review 2 1_000_000 applying).1

abbrev working : Db
working = (approve_driver_kyc 2 applied).1

complete_driver_is_allowed_example :
    let (submitted, db1) = submit_for_review 2 1_000_000 applying in
    let (approved, db2) = approve_driver_kyc 2 db1 in
    (submitted ≡ ok tt)
    × (approved ≡ ok tt)
    × (find 2 db2.users ≡ some (with_kyc KycStatus.approved applicant))
    × (passes 200_000 false working 2
        ≡ (true && not (on_a_job working 2) && not (over_credit_limit 200_000 working.ledger 2)))
    × (passes 200_000 true working 2 ≡ false)
unfolding find submit_for_review approve_driver_kyc update
complete_driver_is_allowed_example =
    complete_driver_is_allowed 200_000 2 1_000_000 applying working applicant all_papers
      (queued_at 1_000_000 all_papers) refl refl refl (refl, all_papers-IsComplete, refl) refl refl

abbrev plain_hash : Bcrypt
plain_hash = record { hash = λ salt p. p; compare = text_eq }

abbrev plain_token : Jwt
plain_token = record { sign_refresh = λ user now. user ∷ now ∷ []; verify = λ token now. none }

abbrev newcomer : Register
newcomer = record {
  phone = codes "0333 765 4321";
  email = codes "Sana@example.com";
  first_name = codes "Sana";
  last_name = codes "Khan";
  address = none;
  password = codes "correct horse";
  role = Role.rider;
  license_front_url = none;
  license_back_url = none;
}

-- A second account asks for the first one's address.
abbrev calls : List Call
calls =
    Call.registers (record newcomer { email = codes "b@example.com" }) 9
      (record { row = 70; salt = 7; now = 1_000_000 })
    ∷ Call.edits_profile 9
        (record { name = none; last_name = none; email = some (codes "Sana@example.com") })
    ∷ []

abbrev one_account : Db
one_account = record (state ride) { users = (1, rider) ∷ []; profiles = [] }

one_account-AreDistinct : AreDistinct one_account.users
unfolding find
one_account-AreDistinct i j u v s ei ej hu hv = ground arith

run_all-AreDistinct_example : AreDistinct (run_all plain_hash plain_token calls one_account).users
run_all-AreDistinct_example =
    run_all-AreDistinct plain_hash plain_token calls one_account one_account-AreDistinct
