-- ===== src/Desk/Assignment.antt =====
-- Who gets a job by `manuallyAssign`, and what a driver's own accept does before or after it.
use novax_backend.Common.{
  ℕ, ◌≡◌, ◌≢◌, refl, ap, sym, ◌∙◌, ◌⊎◌, inl, inr, Bool, true, false, not, ◌&&◌, Bool-cases,
  Option-cases, some, List, [], ◌∷◌, arith,
}
use mathlib.Core.Path.{subst}
use mathlib.Core.Option.{some-injective}
use novax_backend.Common.Action.{
  ok, err, Error, not_found, bad_request, Result, raise_if, bind-ok, ◌>>◌,
}
use novax_backend.Common.Table.{find}
use novax_backend.Schema.Rows.{User}
use novax_backend.Schema.Db.{Db, MatchScope, send}
use novax_backend.Trips.Rides.{matched_by}
use novax_backend.Trips.Rides.Claims.{accept_all, winners, no_winner}
use novax_backend.Desk.{
  is_driver, is_approved, job_is_test, assign, same_bool, assigned_message, hand_over,
  manually_assign,
}
use novax_backend.Desk.Waiting.{IsAssigned, IsWaiting, assign-cases, IsAssigned-sent}

-- A driver who may have the job: approved, not suspended, and of the job's fleet.
pub record Fits (scope : MatchScope) (k : ℕ) (db : Db) (d : User) : Type 0 where
  pub role : is_driver d ≡ true
  pub approved : is_approved d ≡ true
  pub active : d.is_active ≡ true
  pub fleet : d.is_test_account ≡ job_is_test scope k db

same_bool_eq : (a b : Bool) → same_bool a b ≡ true → a ≡ b
same_bool_eq true b h = ground arith
same_bool_eq false b h = ground arith

same_bool_refl : (a b : Bool) → a ≡ b → same_bool a b ≡ true
same_bool_refl true b e = ground arith
same_bool_refl false b e = ground arith

ok-ne-err : {A : Type 0} (a : A) (x : Error) → ok a ≢ err x
ok-ne-err a x e = cc

refused_from : Result Bool × Db → Result (Unit {0}) × Db
refused_from p = (err bad_request, p.1)

module _ (scope : MatchScope) (k driver now : ℕ) (db : Db) where
  abbrev pub IsAnswered : Result (Unit {0}) × Db → Type 0
  IsAnswered (answer, db') =
      (answer ≡ ok tt)
        × ((d : User) × (find driver db.users ≡ some d) × Fits scope k db d)
        × IsAssigned scope k driver now db db'
      ⊎ ((¬ ((d : User) × (find driver db.users ≡ some d) × Fits scope k db d))
          ⊎ (¬ IsWaiting scope k db))
        × ((x : Error) × (answer ≡ err x))
        × (db' ≡ db)

  handed_over :
      (assign scope k driver now db).0 ≡ ok true
      → hand_over scope k driver now db ≡ (
        ok tt,
        record (assign scope k driver now db).1 {
          sent = assigned_message scope k driver ∷ (assign scope k driver now db).1.sent;
        },
      )
  unfolding hand_over
  handed_over a =
      bind-ok
        (λ (claimed : Bool).
          raise_if (not claimed) bad_request >> send (assigned_message scope k driver ∷ []))
        db true (assign scope k driver now) a

  not_handed_over :
      assign scope k driver now db ≡ (ok false, db)
      → hand_over scope k driver now db ≡ (err bad_request, db)
  unfolding hand_over refused_from
  not_handed_over a =
      bind-ok
        (λ (claimed : Bool).
          raise_if (not claimed) bad_request >> send (assigned_message scope k driver ∷ []))
        db false (assign scope k driver now) (ap (λ (p : Result Bool × Db). p.0) a)
      ∙ ap refused_from a

  -- The driver has passed every check.
  Fits-hand_over :
      (d : User)
      → find driver db.users ≡ some d
      → Fits scope k db d
      → manually_assign scope k driver now db ≡ hand_over scope k driver now db
  unfolding manually_assign
  Fits-hand_over d e f =
      let fleet : same_bool d.is_test_account (job_is_test scope k db) ≡ true =
        same_bool_refl d.is_test_account (job_is_test scope k db) f.fleet in
      rw (e, f.role, f.approved, f.active, fleet) refl

  fitting :
      (d : User)
      → find driver db.users ≡ some d
      → Fits scope k db d
      → IsAnswered (manually_assign scope k driver now db)
  fitting d e f = elim (assign-cases k driver now db scope) [
    | inl done ↦
        let after : Db = (assign scope k driver now db).1 in
        rw (Fits-hand_over d e f, handed_over done.0)
          (inl (
            refl,
            (d, e, f),
            IsAssigned-sent scope k driver now db after
                (assigned_message scope k driver ∷ after.sent) done.1,
          ))
    | inr not_done ↦
        rw (Fits-hand_over d e f, not_handed_over not_done.0)
          (inr (inr not_done.1, (bad_request, refl), refl))
  ]

  -- A driver who fails a check: nothing is written.
  unfit :
      (d : User)
      → find driver db.users ≡ some d
      → (is_driver d
          && is_approved d
          && d.is_active
          && same_bool d.is_test_account (job_is_test scope k db))
        ≡ false
      → ((x : Error) × (manually_assign scope k driver now db ≡ (err x, db)))
  unfolding manually_assign
  unfit d e h = elim (Bool-cases (is_driver d)) [
    | inr a ↦ (not_found, rw (e, a) refl)
    | inl a ↦ elim (Bool-cases (is_approved d)) [
      | inr b ↦ (bad_request, rw (e, a, b) refl)
      | inl b ↦ elim (Bool-cases d.is_active) [
        | inr c ↦ (bad_request, rw (e, a, b, c) refl)
        | inl c ↦
            let other_fleet : same_bool d.is_test_account (job_is_test scope k db) ≡ false =
              rw (a, b, c) at h in
            (bad_request, rw (e, a, b, c, other_fleet) refl)
      ]
    ]
  ]

  fits :
      (d : User)
      → (is_driver d
          && is_approved d
          && d.is_active
          && same_bool d.is_test_account (job_is_test scope k db))
        ≡ true
      → Fits scope k db d
  fits d h = record {
    role = ground arith;
    approved = ground arith;
    active = ground arith;
    fleet = same_bool_eq d.is_test_account (job_is_test scope k db) (ground arith);
  }

  Fits-not :
      (d : User)
      → (is_driver d
          && is_approved d
          && d.is_active
          && same_bool d.is_test_account (job_is_test scope k db))
        ≡ false
      → ¬ Fits scope k db d
  Fits-not d h f =
      let fleet = same_bool_refl d.is_test_account (job_is_test scope k db) f.fleet in
      cc (rw (f.role, f.approved, f.active, fleet) at h)

  -- The desk gives a job to a driver exactly when the driver is approved, not suspended and of the
  -- job's fleet, test drivers for test jobs and no others, and the job still waits for a driver.
  -- The job is then the driver's, in the status that an accepted offer gives it. Any other
  -- assignment is refused and changes nothing.
  pub manually_assign_answers : IsAnswered (manually_assign scope k driver now db)
  manually_assign_answers = elim (Option-cases (find driver db.users)) [
    | inl e ↦
        let nobody : manually_assign scope k driver now db ≡ (err not_found, db) =
          unfold manually_assign in rw e refl in
        rw nobody (inr (inl (λ w. cc (w.1)), (not_found, refl), refl))
    | inr (d, e) ↦
        elim (Bool-cases (
          is_driver d
          && is_approved d
          && d.is_active
          && same_bool d.is_test_account (job_is_test scope k db))) [
            | inl h ↦ fitting d e (fits d h)
            | inr h ↦
                let (x, refused) = unfit d e h in
                rw refused (
                  inr (
                    inl (λ w.
                        Fits-not d h
                          (subst (Fits scope k db) (some-injective w.0 d (sym w.1 ∙ e)) w.2)),
                    (x, refl),
                    refl,
                  ))
          ]
  ]

-- Once the desk has given a trip to a driver, however many drivers accept the offer that is still
-- on their screens, none of them gets it, and nothing changes.
pub assigned_stays :
    (k driver now later : ℕ) (others : List ℕ) (db : Db)
    → (manually_assign MatchScope.trip k driver now db).0 ≡ ok tt
    → let db' = (manually_assign MatchScope.trip k driver now db).1 in
      (winners (accept_all k others later db').0 ≡ 0) × ((accept_all k others later db').1 ≡ db')
assigned_stays k driver now later others db h =
    elim (manually_assign_answers MatchScope.trip k driver now db) [
      | inl done ↦
          let (t, _, _, row) = done.2 in
          no_winner k others later (manually_assign MatchScope.trip k driver now db).1
            (matched_by driver now t) row refl
      | inr refused ↦ absurd (ok-ne-err tt (refused.1).0 (sym h ∙ (refused.1).1))
    ]
