-- ===== src/Dispatch.antt =====
-- trips/dispatch.util.ts: the score of a driver; and from trips/trips.service.ts the ranking of a
-- shortlist.
--
-- A value between 0 and 1 is a whole number of parts out of `whole`, chosen so that a metre over
-- the distance cap, a hundredth of a star over 1.5 and a millisecond over the idle cap are whole
-- parts. A rate is rounded down to a part. Weights are in hundredths, so a score is out of
-- 100 * `whole`. A subtraction below zero is clamped to 0 by the code, as `-` does here.
pub mod Weights
pub mod Ranking
mod Tests
use novax_backend.Common.{
  ℕ, ◌+◌, ◌-◌, ◌*◌, ◌/◌, min, max, Bool, Option, none, some, List, [], ◌∷◌, map, leb, ltb, or_else,
  if◌then◌else◌,
}

abbrev pub whole : ℕ
whole = 2_700_000

-- `DriverScoreInput`: metres, parts, parts, hundredths of a star, milliseconds.
pub record DriverScoreInput : Type 0 where
  pub distance : ℕ
  pub acceptance_rate : Option ℕ
  pub cancellation_rate : Option ℕ
  pub rating : Option ℕ
  pub idle : Option ℕ

pub clamp01 : ℕ → ℕ
clamp01 n = min whole n

-- `1 - clamp01(distanceKm / DISTANCE_CAP_KM)` with the cap of 5 km
pub distance_part : ℕ → ℕ
unfolding clamp01
distance_part metres = whole - clamp01 (metres * 540)

pub acceptance_part : Option ℕ → ℕ
unfolding clamp01
acceptance_part none = whole / 2
acceptance_part (some rate) = clamp01 rate

pub reliability_part : Option ℕ → ℕ
unfolding clamp01
reliability_part none = whole / 2
reliability_part (some rate) = clamp01 (whole - rate)

-- `(rating - 3.5) / 1.5`, and 0.7 without a rating
pub rating_part : Option ℕ → ℕ
unfolding clamp01
rating_part none = whole * 7 / 10
rating_part (some stars) = clamp01 ((stars - 350) * 18_000)

-- `idleMinutes / IDLE_CAP_MINUTES` with the cap of 45 minutes
pub idle_part : Option ℕ → ℕ
unfolding clamp01
idle_part none = whole / 2
idle_part (some ms) = clamp01 ms

-- What the score holds besides the distance.
pub reputation : DriverScoreInput → ℕ
reputation input =
    12 * acceptance_part input.acceptance_rate
    + 8 * reliability_part input.cancellation_rate
    + 5 * rating_part input.rating
    + 5 * idle_part input.idle

unfoldable pub score_driver : DriverScoreInput → ℕ
unfolding reputation
score_driver input = 70 * distance_part input.distance + reputation input

abbrev pub min_offers_for_rate : ℕ
min_offers_for_rate = 8

-- A row of counters, as `ratesFromCounters` takes it, with the last completion.
pub record Counters : Type 0 where
  pub offers_sent : ℕ
  pub offers_accepted : ℕ
  pub offers_declined : ℕ
  pub trips_cancelled : ℕ
  pub last_completed_at : Option ℕ

-- `enough ? count / Math.max(1, out_of) : null`
rate_of : ℕ → ℕ → Option ℕ
rate_of count out_of =
    if leb min_offers_for_rate out_of then some (count * whole / max 1 out_of) else none

unfoldable pub rates_from_counters : Counters → Option ℕ × Option ℕ
unfolding rate_of
rates_from_counters p =
    (rate_of p.offers_accepted p.offers_sent, rate_of p.trips_cancelled p.offers_accepted)

-- `Math.max(0, now - lastCompletedAt)`, kept in milliseconds
unfoldable pub idle_since : Option ℕ → ℕ → Option ℕ
idle_since none now = none
idle_since (some t) now = some (now - t)

pub record Candidate : Type 0 where
  pub driver_id : ℕ
  pub distance : ℕ

-- What `rankCandidates` reads of a candidate in the database: the profile's row and the rating.
pub record Reputation : Type 0 where
  pub counters : Option Counters
  pub rating : Option ℕ

rates_of : Option Counters → Option ℕ × Option ℕ
unfolding rates_from_counters
rates_of none = (none, none)
rates_of (some p) = rates_from_counters p

last_completed : Option Counters → Option ℕ
last_completed none = none
last_completed (some p) = p.last_completed_at

pub score_input : ℕ → Reputation → Candidate → DriverScoreInput
unfolding rates_of last_completed idle_since
score_input now rep c =
    let (accepted, cancelled) = rates_of rep.counters in
    record {
      distance = c.distance;
      acceptance_rate = accepted;
      cancellation_rate = cancelled;
      rating = rep.rating;
      idle = idle_since (last_completed rep.counters) now;
    }

pub record Scored : Type 0 where
  pub id : ℕ
  pub score : ℕ

-- `scored.sort((a, b) => b.score - a.score)`: Array.prototype.sort is stable.
pub insert_scored : Scored → List Scored → List Scored
insert_scored x [] = x ∷ []
insert_scored x (y ∷ ys) = if leb y.score x.score then x ∷ y ∷ ys else y ∷ insert_scored x ys

pub sort_scored : List Scored → List Scored
unfolding insert_scored
sort_scored [] = []
sort_scored (x ∷ xs) = insert_scored x (sort_scored xs)

module _ (now : ℕ) (reputation_of : ℕ → Reputation) where
  pub score_candidate : Candidate → Scored
  unfolding score_input score_driver
  score_candidate c = record {
    id = c.driver_id;
    score = score_driver (score_input now (reputation_of c.driver_id) c);
  }

  -- `rankCandidates(candidates, true)`
  unfoldable pub rank_candidates : List Candidate → List ℕ
  unfolding sort_scored score_candidate
  rank_candidates [] = []
  rank_candidates (c ∷ []) = c.driver_id ∷ []
  rank_candidates (c ∷ d ∷ rest) =
      map (λ (s : Scored). s.id) (sort_scored (map score_candidate (c ∷ d ∷ rest)))
