-- ===== src/Nearest.antt =====
-- The search for one driver that deliveries, food orders and errands share: the nearest driver, of
-- the first radius that has one, who is not excluded from the job. Each of the services writes it
-- out in its `attemptMatch`.
use novax_backend.Common.{
  ℕ, ◌≡◌, ◌⊎◌, inl, inr, Bool, false, Bool-cases, Option, none, some, List, [], ◌∷◌, has,
  if◌then◌else◌,
}
use mathlib.Core.Option.{some-injective}
use novax_backend.Common.Table.{find}
use novax_backend.Schema.Rows.{User}
use novax_backend.Schema.Db.{Db, MatchScope}
use novax_backend.Excluded.{get_all}
use novax_backend.Dispatch.{Candidate}

-- `SEARCH_RADII_KM`, in metres
abbrev pub search_radii : List ℕ
search_radii = 1000 ∷ 3000 ∷ 5000 ∷ 8000 ∷ []

-- `nearby.find((d) => !excluded.has(d.driverId))`
pub first_free : List ℕ → List Candidate → Option ℕ
first_free excluded [] = none
first_free excluded (c ∷ cs) =
    let rest = first_free excluded cs in if has c.driver_id excluded then rest else some c.driver_id

-- `isTestFleetJob`
is_test_fleet : Option User → Bool
is_test_fleet none = false
is_test_fleet (some u) = u.is_test_account

-- The loop stops at the first radius that has a driver.
or_else_first : Option ℕ → Option ℕ → Option ℕ
or_else_first none further = further
or_else_first (some driver) _ = some driver

module _ (find_nearby : (job radius : ℕ) → (want_test_fleet : Bool) → Db → List Candidate) where
  unfoldable pub nearest : MatchScope → (job owner : ℕ) → List ℕ → Db → Option ℕ
  unfolding first_free is_test_fleet or_else_first
  nearest scope k owner [] db = none
  nearest scope k owner (radius ∷ wider) db =
      or_else_first
        (first_free (get_all scope k db.excluded)
          (find_nearby k radius (is_test_fleet (find owner db.users)) db))
        (nearest scope k owner wider db)

first_free-has :
    (excluded : List ℕ) (cs : List Candidate) (d : ℕ)
    → first_free excluded cs ≡ some d
    → has d excluded ≡ false
unfolding first_free
first_free-has excluded [] d e = cc
first_free-has excluded (c ∷ cs) d e = elim (Bool-cases (has c.driver_id excluded)) [
  | inl h ↦ first_free-has excluded cs d (rw (first_free, h) at e)
  | inr h ↦ rw (← some-injective c.driver_id d (rw (first_free, h) at e)) h
]

or_else_first-cases :
    (a b : Option ℕ) (d : ℕ) → or_else_first a b ≡ some d → (a ≡ some d) ⊎ (b ≡ some d)
unfolding or_else_first
or_else_first-cases none b d e = inr e
or_else_first-cases (some c) b d e = inl e

-- The driver who is found has not been excluded from the job.
pub nearest-has :
    (find_nearby : (job radius : ℕ) → (want_test_fleet : Bool) → Db → List Candidate)
    (scope : MatchScope) (k owner : ℕ) (radii : List ℕ) (db : Db) (d : ℕ)
    → nearest find_nearby scope k owner radii db ≡ some d
    → has d (get_all scope k db.excluded) ≡ false
unfolding nearest
nearest-has find_nearby scope k owner [] db d e = cc
nearest-has find_nearby scope k owner (radius ∷ wider) db d e =
    let excluded = get_all scope k db.excluded in
    let found = find_nearby k radius (is_test_fleet (find owner db.users)) db in
    let further = nearest find_nearby scope k owner wider db in
    elim (or_else_first-cases (first_free excluded found) further d e) [
      | inl f ↦ first_free-has excluded found d f
      | inr f ↦ nearest-has find_nearby scope k owner wider db d f
    ]
