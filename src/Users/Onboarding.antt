-- ===== src/Users/Onboarding.antt =====
-- `saveOnboarding`, `getOnboardingStatus` and `submitForReview` of users/users.service.ts. The
-- method of payout, a free choice of three, is left out.
pub mod Review
pub mod Approval
use novax_backend.Common.{
  ℕ, Bool, true, false, not, Option, none, some, List, [], ◌∷◌, keep, if◌then◌else◌,
}
use novax_backend.Common.Action.{
  Action, Result, ok, err, bad_request, not_found, pure, gets, or_raise, raise_if, ◌>>=◌, ◌>>◌,
}
use novax_backend.Common.Table.{find}
use novax_backend.Common.Text.{Text, codes}
use novax_backend.Schema.Enums.{KycStatus}
use novax_backend.Schema.Rows.{User, Documents, DriverProfile}
use novax_backend.Schema.Db.{Db, set_profile}
use novax_backend.Accounts.Signup.{no_documents, default_profile}
use novax_backend.Users.{is_truthy, given_or, upsert_profile}

-- `DriverOnboardingDto`
pub record DriverOnboarding : Type 0 where
  pub vehicle_type : Option Text
  pub vehicle_plate : Option Text
  pub cnic_number : Option Text
  pub cnic_front_url : Option Text
  pub cnic_back_url : Option Text
  pub license_doc_url : Option Text
  pub license_front_url : Option Text
  pub license_back_url : Option Text
  pub vehicle_doc_url : Option Text
  pub vehicle_photo_url : Option Text
  pub service_zone : Option Text
  pub payout_account_name : Option Text
  pub payout_account_number : Option Text
  pub emergency_contact_name : Option Text
  pub emergency_contact_phone : Option Text

-- `vehicleType ?? "bike"` for a new row
abbrev pub type_or : Option Text → Text → Text
type_or none old = old
type_or (some s) old = s

-- `vehicleType ? { vehicleType } : {}` for an old one
abbrev pub truthy_type_or : Option Text → Text → Text
truthy_type_or none old = old
truthy_type_or (some s) old = elim s [ [] ↦ old | c ∷ t ↦ c ∷ t ]

-- `...rest`
unfoldable pub with_papers : DriverOnboarding → Documents → Documents
with_papers dto d = record d {
  vehicle_plate = given_or dto.vehicle_plate d.vehicle_plate;
  cnic_number = given_or dto.cnic_number d.cnic_number;
  cnic_front_url = given_or dto.cnic_front_url d.cnic_front_url;
  cnic_back_url = given_or dto.cnic_back_url d.cnic_back_url;
  license_doc_url = given_or dto.license_doc_url d.license_doc_url;
  license_front_url = given_or dto.license_front_url d.license_front_url;
  license_back_url = given_or dto.license_back_url d.license_back_url;
  vehicle_doc_url = given_or dto.vehicle_doc_url d.vehicle_doc_url;
  vehicle_photo_url = given_or dto.vehicle_photo_url d.vehicle_photo_url;
  service_zone = given_or dto.service_zone d.service_zone;
  payout_account_name = given_or dto.payout_account_name d.payout_account_name;
  payout_account_number = given_or dto.payout_account_number d.payout_account_number;
  emergency_contact_name = given_or dto.emergency_contact_name d.emergency_contact_name;
  emergency_contact_phone = given_or dto.emergency_contact_phone d.emergency_contact_phone;
}

abbrev pub first_papers : DriverOnboarding → Documents
first_papers dto = record (with_papers dto no_documents) {
  vehicle_type = type_or dto.vehicle_type (codes "bike");
}

abbrev pub more_papers : DriverOnboarding → Documents → Documents
more_papers dto d = record (with_papers dto d) {
  vehicle_type = truthy_type_or dto.vehicle_type d.vehicle_type;
}

unfoldable pub save_onboarding : (user : ℕ) → DriverOnboarding → Action Db (Unit {0})
unfolding upsert_profile with_papers
save_onboarding user dto =
    upsert_profile user (default_profile (first_papers dto))
      (λ p. record p { documents = more_papers dto p.documents })

-- What a reviewer needs: the name, and `REQUIRED_FOR_REVIEW`.
pub data Paper : Type 0 where
  full_name vehicle_type vehicle_plate cnic_number cnic_front_url license_doc_url : Paper
  vehicle_photo_url service_zone emergency_contact_name emergency_contact_phone : Paper

abbrev pub required_for_review : List Paper
required_for_review =
    Paper.vehicle_type ∷ Paper.vehicle_plate ∷ Paper.cnic_number ∷ Paper.cnic_front_url
    ∷ Paper.license_doc_url ∷ Paper.vehicle_photo_url ∷ Paper.service_zone
    ∷ Paper.emergency_contact_name ∷ Paper.emergency_contact_phone ∷ []

-- The column of a paper.
abbrev pub column : User → Documents → Paper → Option Text
column u d Paper.full_name = u.name
column u d Paper.vehicle_type = some d.vehicle_type
column u d Paper.vehicle_plate = d.vehicle_plate
column u d Paper.cnic_number = d.cnic_number
column u d Paper.cnic_front_url = d.cnic_front_url
column u d Paper.license_doc_url = d.license_doc_url
column u d Paper.vehicle_photo_url = d.vehicle_photo_url
column u d Paper.service_zone = d.service_zone
column u d Paper.emergency_contact_name = d.emergency_contact_name
column u d Paper.emergency_contact_phone = d.emergency_contact_phone

-- `!profile || !profile[f.key]`
abbrev pub is_missing : User → Option DriverProfile → Paper → Bool
is_missing u none paper = true
is_missing u (some p) paper = not (is_truthy (column u p.documents paper))

unfoldable pub missing_papers : User → Option DriverProfile → List Paper
missing_papers u profile =
    let papers = keep (is_missing u profile) required_for_review in
    if is_truthy u.name then papers else Paper.full_name ∷ papers

pub record OnboardingStatus : Type 0 where
  pub kyc_status : KycStatus
  pub submitted_for_review_at : Option ℕ
  pub missing : List Paper
  pub can_submit : Bool

abbrev pub submitted_at : Option DriverProfile → Option ℕ
submitted_at none = none
submitted_at (some p) = p.submitted_for_review_at

-- `missing.length === 0`
abbrev pub is_empty : List Paper → Bool
is_empty [] = true
is_empty (_ ∷ _) = false

unfoldable pub get_onboarding_status : (user : ℕ) → Action Db OnboardingStatus
unfolding missing_papers
get_onboarding_status user = do
  found ← gets (λ db. find user db.users)
  profile ← gets (λ db. find user db.profiles)
  u ← or_raise found not_found
  pure (record {
    kyc_status = u.kyc_status;
    submitted_for_review_at = submitted_at profile;
    missing = missing_papers u profile;
    can_submit = is_empty (missing_papers u profile);
  })

abbrev pub is_approved : KycStatus → Bool
is_approved KycStatus.approved = true
is_approved _ = false

abbrev pub queued_at : (now : ℕ) → DriverProfile → DriverProfile
queued_at now p = record p { submitted_for_review_at = some now }

unfoldable pub submit_for_review : (user now : ℕ) → Action Db (Unit {0})
unfolding get_onboarding_status
submit_for_review user now = do
  status ← get_onboarding_status user
  raise_if (not status.can_submit) bad_request
  raise_if (is_approved status.kyc_status) bad_request
  set_profile user (queued_at now)
