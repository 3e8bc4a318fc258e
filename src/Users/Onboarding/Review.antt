-- ===== src/Users/Onboarding/Review.antt =====
-- When an application reaches the queue.
use novax_backend.Common.{
  ℕ, ap, if◌then◌else◌, ◌≡◌, refl, sym, ◌∙◌, ◌⊎◌, inl, inr, Bool, true, false, not, ◌&&◌,
  Bool-cases, Option-cases, Option, some, none, List, [], ◌∷◌, keep, arith,
}
use novax_backend.Common.Action.{ok, err, bad_request}
use novax_backend.Common.Table.{find, update, find-update_self}
use novax_backend.Schema.Rows.{User, DriverProfile}
use novax_backend.Schema.Db.{Db}
use novax_backend.Users.{is_truthy}
use novax_backend.Users.Onboarding.{
  Paper, required_for_review, column, missing_papers, is_empty, is_approved, queued_at,
  get_onboarding_status, submit_for_review,
}

-- Every paper is there.
abbrev pub IsComplete : User → DriverProfile → Type 0
IsComplete u p = (paper : Paper) → is_truthy (column u p.documents paper) ≡ true

all_given : (Paper → Bool) → List Paper → Bool
all_given q [] = true
all_given q (paper ∷ papers) = q paper && all_given q papers

is_empty-keep :
    (q : Paper → Bool) (papers : List Paper)
    → is_empty (keep (λ paper. not (q paper)) papers) ≡ all_given q papers
unfolding all_given
is_empty-keep q [] = refl
is_empty-keep q (paper ∷ papers) = elim (Bool-cases (q paper)) [
  | inl e ↦ rw e (is_empty-keep q papers)
  | inr e ↦ rw e refl
]

is_empty-name :
    (named : Bool) (papers : List Paper)
    → is_empty (if named then papers else Paper.full_name ∷ papers) ≡ (named && is_empty papers)
is_empty-name true papers = refl
is_empty-name false papers = refl

-- What the list of missing papers says, as one test.
module _ (u : User) (p : DriverProfile) where
  has_paper : Paper → Bool
  has_paper paper = is_truthy (column u p.documents paper)

  pub complete : Bool
  unfolding has_paper all_given
  complete = has_paper Paper.full_name && all_given has_paper required_for_review

  complete_paper : (paper : Paper) → complete ≡ true → has_paper paper ≡ true
  unfolding complete all_given
  complete_paper Paper.full_name h = ground arith
  complete_paper Paper.vehicle_type h = ground arith
  complete_paper Paper.vehicle_plate h = ground arith
  complete_paper Paper.cnic_number h = ground arith
  complete_paper Paper.cnic_front_url h = ground arith
  complete_paper Paper.license_doc_url h = ground arith
  complete_paper Paper.vehicle_photo_url h = ground arith
  complete_paper Paper.service_zone h = ground arith
  complete_paper Paper.emergency_contact_name h = ground arith
  complete_paper Paper.emergency_contact_phone h = ground arith

  -- With all papers the test holds.
  pub papers-complete : IsComplete u p → complete ≡ true
  unfolding complete has_paper all_given
  papers-complete all =
      rw
        (
          all Paper.full_name,
          all Paper.vehicle_type,
          all Paper.vehicle_plate,
          all Paper.cnic_number,
          all Paper.cnic_front_url,
          all Paper.license_doc_url,
          all Paper.vehicle_photo_url,
          all Paper.service_zone,
          all Paper.emergency_contact_name,
          all Paper.emergency_contact_phone,
        )
        refl

  -- Nothing is missing exactly when the test holds.
  pub missing-complete : is_empty (missing_papers u (some p)) ≡ complete
  unfolding missing_papers complete has_paper
  missing-complete =
      is_empty-name (is_truthy u.name) _
      ∙ ap (λ b. is_truthy u.name && b) (is_empty-keep has_paper required_for_review)

-- A paper is missing.
incomplete :
    (u : User) (p : DriverProfile)
    → complete u p ≡ false
    → (q : DriverProfile) → some p ≡ some q
    → ¬ IsComplete u q
incomplete u p c q s all =
    let same : p ≡ q = cc in
    let h : complete u q ≡ false = rw same at c in let h' = papers-complete u q all in cc

named_or_not : (b : Bool) → (b && false) ≡ false
named_or_not true = refl
named_or_not false = refl

-- Without a profile something is missing.
missing-none : (u : User) → is_empty (missing_papers u none) ≡ false
unfolding missing_papers
missing-none u = is_empty-name (is_truthy u.name) _ ∙ named_or_not (is_truthy u.name)

-- The application can go to the queue.
abbrev pub IsReady : User → Option DriverProfile → DriverProfile → Type 0
IsReady u profile p = (profile ≡ some p) × IsComplete u p × (is_approved u.kyc_status ≡ false)

module _ (user now : ℕ) (db : Db) (u : User) (e : find user db.users ≡ some u) where
  -- An application with something missing.
  submit-missing :
      (profile : Option DriverProfile)
      → find user db.profiles ≡ profile
      → is_empty (missing_papers u profile) ≡ false
      → submit_for_review user now db ≡ (err bad_request, db)
  unfolding submit_for_review get_onboarding_status
  submit-missing profile f missed = ground (arith, e, f, missed)

  submit-approved :
      (p : DriverProfile)
      → find user db.profiles ≡ some p
      → is_empty (missing_papers u (some p)) ≡ true
      → is_approved u.kyc_status ≡ true
      → submit_for_review user now db ≡ (err bad_request, db)
  unfolding submit_for_review get_onboarding_status
  submit-approved p f full a = ground (arith, e, f, full, a)

  pub submit-ready :
      (p : DriverProfile)
      → find user db.profiles ≡ some p
      → is_empty (missing_papers u (some p)) ≡ true
      → is_approved u.kyc_status ≡ false
      → submit_for_review user now db
        ≡ (ok tt, record db { profiles = update user (queued_at now) db.profiles })
  unfolding submit_for_review get_onboarding_status
  submit-ready p f full a = ground (arith, e, f, full, a)

-- An application reaches the queue exactly when the account has a profile, no paper is missing,
-- the name included, and it is not approved yet; the profile then has the time and is otherwise
-- the same. Any other is refused, and nothing changes.
pub submit_for_review_answers :
    (user now : ℕ) (db : Db) (u : User)
    → find user db.users ≡ some u
    → let (answer, db') = submit_for_review user now db in
      ((p : DriverProfile) × IsReady u (find user db.profiles) p
        × (answer ≡ ok tt)
        × (find user db'.profiles ≡ some (queued_at now p))
        × (db'.users ≡ db.users))
      ⊎ (¬ ((p : DriverProfile) × IsReady u (find user db.profiles) p))
        × (answer ≡ err bad_request)
        × (db' ≡ db)
submit_for_review_answers user now db u e = elim (Option-cases (find user db.profiles)) [
  | inl n ↦
      rw (submit-missing user now db u e none n (missing-none u))
        (inr ((λ (q, r). let f = r.0 in cc), refl, refl))
  | inr (p, f) ↦ elim (Bool-cases (complete u p)) [
    | inr c ↦
        rw (submit-missing user now db u e (some p) f (missing-complete u p ∙ c))
          (inr ((λ (q, r). incomplete u p c q (sym f ∙ r.0) r.1), refl, refl))
    | inl c ↦ elim (Bool-cases (is_approved u.kyc_status)) [
      | inl a ↦
          rw (submit-approved user now db u e p f (missing-complete u p ∙ c) a)
            (inr ((λ (q, r). let b = r.2 in cc), refl, refl))
      | inr a ↦ rw (submit-ready user now db u e p f (missing-complete u p ∙ c) a) (
          inl (
            p,
            (f, (λ paper. unfold has_paper in complete_paper u p paper c), a),
            refl,
            find-update_self user (queued_at now) db.profiles p f,
            refl,
          ))
    ]
  ]
]
