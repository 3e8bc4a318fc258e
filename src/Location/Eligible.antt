-- ===== src/Location/Eligible.antt =====
-- Who passes `filterEligible`, and who is dropped from the geographic set.
use novax_backend.Common.{
  ℕ, ◌≡◌, refl, ap, Bool, not, ◌&&◌, ◌||◌, ◌==◌, List, [], ◌∷◌, arith, keep, has,
}
use novax_backend.Common.Action.{ok}
use novax_backend.Schema.Db.{Db}
use novax_backend.Dispatch.{Candidate}
use novax_backend.Location.{
  Redis, ids, is_fresh, is_allowed, held_back, passes, remove_driver, remove_drivers,
  filter_fresh_fixes, filter_allowed, filter_eligible,
}

keep-keep :
    {A : Type 0} (p q : A → Bool) (xs : List A) → keep q (keep p xs) ≡ keep (λ x. p x && q x) xs
keep-keep p q [] = refl
keep-keep p q (x ∷ xs) = ground (arith, keep-keep p q xs)

has-keep :
    (q : ℕ → Bool) (d : ℕ) (cs : List Candidate)
    → has d (ids (keep (λ (c : Candidate). q c.driver_id) cs)) ≡ (has d (ids cs) && q d)
has-keep q d [] = refl
has-keep q d (c ∷ cs) = ground (arith, has-keep q d cs)

has-keep_ne :
    (d j : ℕ) (xs : List ℕ) → has d (keep (λ k. not (k == j)) xs) ≡ (has d xs && not (d == j))
has-keep_ne d j [] = refl
has-keep_ne d j (x ∷ xs) = ground (arith, has-keep_ne d j xs)

geo-remove_drivers :
    (d : ℕ) (ds : List ℕ) (r : Redis)
    → has d (remove_drivers ds r).geo ≡ (has d r.geo && not (has d ds))
unfolding remove_drivers remove_driver
geo-remove_drivers d [] r = ground arith
geo-remove_drivers d (x ∷ ds) r =
    ground (arith, geo-remove_drivers d ds (remove_driver x r), has-keep_ne d x r.geo)

-- Offered work are exactly the candidates with a fix of the last three minutes, whom the database
-- lets drive for the fleet that was asked for, and who are neither on a job nor over the credit
-- limit. A driver leaves the geographic set exactly when they are a candidate and their fix is
-- older or the database does not let them drive, the second only when they are neither on a job
-- nor over the limit.
pub filter_eligible_lem :
    (limit now : ℕ) (want_test : Bool) (db : Db) (cs : List Candidate) (redis : Redis)
    → let (r, redis') = filter_eligible limit now want_test db cs redis in
      (r
        ≡ ok (
            keep
              (λ (c : Candidate).
                is_fresh now redis c.driver_id
                && (is_allowed want_test db c.driver_id && not (held_back limit db c.driver_id)))
              cs))
      × ((d : ℕ)
          → has d redis'.geo ≡ (
              has d redis.geo
              && (not (has d (ids cs))
                  || is_fresh now redis d && (is_allowed want_test db d || held_back limit db d))))
unfolding filter_eligible filter_fresh_fixes filter_allowed
filter_eligible_lem limit now want_test db cs redis =
    let fresh = λ (d : ℕ). is_fresh now redis d in
    let out = λ (d : ℕ). not (passes limit want_test db d) && not (held_back limit db d) in
    let kept = keep (λ (c : Candidate). fresh c.driver_id) cs in
    let stale = keep (λ (c : Candidate). not (fresh c.driver_id)) cs in
    (
      ap ok (
          keep-keep (λ (c : Candidate). fresh c.driver_id)
            (λ (c : Candidate). passes limit want_test db c.driver_id) cs),
      λ d. ground (
        arith,
        geo-remove_drivers d (ids (keep (λ (c : Candidate). out c.driver_id) kept))
            (remove_drivers (ids stale) redis),
        geo-remove_drivers d (ids stale) redis,
        has-keep out d kept,
        has-keep fresh d cs,
        has-keep (λ (d : ℕ). not (fresh d)) d cs,
      ),
    )
