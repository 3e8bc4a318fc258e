-- ===== src/Location/Tests.antt =====
-- The matcher's tests at concrete drivers.
use novax_backend.Common.{ℕ, ◌≡◌, refl, true, false, not, ◌&&◌, ◌||◌, [], ◌∷◌, keep, has}
use novax_backend.Common.Int.{◌+ℤ◌, ◌-ℤ◌}
use novax_backend.Common.Action.{ok}
use novax_backend.Common.Table.{find}
use novax_backend.Dispatch.{Candidate}
use novax_backend.Fixtures.{driver, ride, started_ride, state, nearby}
use novax_backend.Location.{Redis, ids, is_fresh, is_allowed, held_back, on_a_job, filter_eligible}
use novax_backend.Location.Eligible.{filter_eligible_lem}
use novax_backend.Location.Status.{receiving_jobs, receiving_jobs-passes}

-- Driver 3's last fix is four minutes old.
abbrev redis : Redis
redis = record { geo = 2 ∷ 3 ∷ []; last_seen = (2, 995_000) ∷ (3, 760_000) ∷ [] }

filter_eligible_lem_example :
    let (r, redis') = filter_eligible 200_000 1_000_000 false (state ride) nearby redis in
    (r
      ≡ ok (
          keep
            (λ (c : Candidate).
              is_fresh 1_000_000 redis c.driver_id
              && (is_allowed false (state ride) c.driver_id
                  && not (held_back 200_000 (state ride) c.driver_id)))
            nearby))
    × ((d : ℕ)
        → has d redis'.geo ≡ (
            has d redis.geo
            && (not (has d (ids nearby))
                || is_fresh 1_000_000 redis d
                  && (is_allowed false (state ride) d || held_back 200_000 (state ride) d))))
filter_eligible_lem_example = filter_eligible_lem 200_000 1_000_000 false (state ride) nearby redis

only_the_fresh_one :
    (filter_eligible 200_000 1_000_000 false (state ride) nearby redis).0
    ≡ ok (record { driver_id = 2; distance = 400 } ∷ [])
unfolding filter_eligible find ◌+ℤ◌ ◌-ℤ◌
only_the_fresh_one = refl

-- In the middle of a ride, driver 2 is told that they receive jobs.
told_on_a_ride :
    (receiving_jobs 200_000 1_000_000 (state started_ride) redis 2 ≡ true)
    × (on_a_job (state started_ride) 2 ≡ true)
unfolding receiving_jobs on_a_job find ◌+ℤ◌ ◌-ℤ◌
told_on_a_ride = (refl, refl)

receiving_jobs-passes_example :
    (is_fresh 1_000_000 redis 2
      && (is_allowed false (state ride) 2 && not (held_back 200_000 (state ride) 2)))
    ≡ true
unfolding receiving_jobs on_a_job find ◌+ℤ◌ ◌-ℤ◌
receiving_jobs-passes_example =
    receiving_jobs-passes 200_000 1_000_000 (state ride) redis 2 driver refl refl refl refl
