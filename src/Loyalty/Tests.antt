-- ===== src/Loyalty/Tests.antt =====
-- Tiers at concrete numbers of points.
use novax_backend.Common.{◌≡◌, refl, some}
use novax_backend.Loyalty.{TierName, Standing, tier_for}

abbrev at_silver : Standing
at_silver = record {
  tier = TierName.silver;
  next_tier = some TierName.gold;
  points_to_next_tier = 300;
}

silver : tier_for 200 ≡ at_silver
unfolding tier_for
silver = refl
