-- ===== src/Dispatch/Tests.antt =====
-- Scores of trips/dispatch.util.ts at concrete inputs.
use mathlib.Core.List.{Perm}
use novax_backend.Common.{◌≡◌, refl, none, some, List, [], ◌∷◌, map}
use novax_backend.Dispatch.{
  Counters, Candidate, Reputation, Scored, distance_part, rates_from_counters, score_candidate,
  rank_candidates, acceptance_part, reliability_part, rating_part, idle_part,
}
use novax_backend.Dispatch.Ranking.{IsRanked, rank_candidates-IsRanked}

abbrev busy_record : Counters
busy_record = record {
  offers_sent = 10;
  offers_accepted = 8;
  offers_declined = 2;
  trips_cancelled = 2;
  last_completed_at = some 1000;
}

rates : rates_from_counters busy_record ≡ (some 2_160_000, some 675_000)
unfolding rates_from_counters
rates = refl

abbrev no_history : Reputation
no_history = record { counters = none; rating = some 500 }

abbrev shortlist : List Candidate
shortlist =
    record { driver_id = 7; distance = 2000 } ∷ record { driver_id = 9; distance = 400 } ∷ []

rank_candidates_nearest : rank_candidates 5000 (λ _. no_history) shortlist ≡ 9 ∷ 7 ∷ []
unfolding rank_candidates distance_part acceptance_part reliability_part rating_part idle_part
rank_candidates_nearest = refl

rank_candidates-IsRanked_example :
    (xs : List Scored) × (rank_candidates 5000 (λ _. no_history) shortlist
      ≡ map (λ (s : Scored). s.id) xs)
    × IsRanked xs
    × Perm xs (map (score_candidate 5000 (λ _. no_history)) shortlist)
    × Perm
        (rank_candidates 5000 (λ _. no_history) shortlist)
        (map (λ (c : Candidate). c.driver_id) shortlist)
rank_candidates-IsRanked_example = rank_candidates-IsRanked 5000 (λ _. no_history) shortlist
