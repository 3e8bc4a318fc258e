-- ===== src/Loyalty/Tiers.antt =====
-- The tier of a number of points: `tierFor`.
use novax_backend.Common.{ℕ, ◌+◌, ◌≤◌, ◌<◌, ◌≡◌, none, some, arith}
use novax_backend.Loyalty.{TierName, Standing, tier_for, walk}

abbrev pub min_of : TierName → ℕ
min_of TierName.bronze = 0
min_of TierName.silver = 200
min_of TierName.gold = 500
min_of TierName.platinum = 1000

-- What the next tier and the points to it say.
abbrev pub IsNext : ℕ → Standing → Type 0
IsNext points s = elim s.next_tier [
  | none ↦ (s.tier ≡ TierName.platinum) × (s.points_to_next_tier ≡ 0)
  | some n ↦ (points < min_of n) × (points + s.points_to_next_tier ≡ min_of n)
]

highest : (points : ℕ) (t : TierName) → min_of t ≤ points → min_of t ≤ min_of (tier_for points).tier
unfolding tier_for walk
highest points TierName.bronze h = ground arith
highest points TierName.silver h = ground arith
highest points TierName.gold h = ground arith
highest points TierName.platinum h = ground arith

-- The tier is the highest one whose minimum the points reach, and the points to the next tier are
-- those that are missing to its minimum, with no next tier exactly at the top.
pub tier_for_lem :
    (points : ℕ)
    → let s = tier_for points in
      (min_of s.tier ≤ points)
      × ((t : TierName) → min_of t ≤ points → min_of t ≤ min_of s.tier)
      × IsNext points s
unfolding tier_for walk
tier_for_lem points = (ground arith, highest points, ground arith)
