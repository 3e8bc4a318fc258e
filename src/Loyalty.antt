-- ===== src/Loyalty.antt =====
-- loyalty/loyalty.service.ts: points and tiers. The code that a user passes on to friends is a
-- random string and is not modelled.
pub mod Tiers
mod Tests
use novax_backend.Common.{ℕ, ◌+◌, ◌-◌, Option, none, some, List, [], ◌∷◌, leb, ◌==◌, if◌then◌else◌}
use novax_backend.Common.Action.{Action, ok, Result, err, pure, gets, modify, ◌>>=◌, ◌>>◌}
use novax_backend.Common.Table.{update, find_first}
use novax_backend.Common.Text.{Text, is_text, to_upper}
use novax_backend.Schema.Rows.{User}
use novax_backend.Schema.Db.{Db}

abbrev pub points_per_trip : ℕ
points_per_trip = 10

abbrev pub points_per_delivery : ℕ
points_per_delivery = 10

abbrev pub awarded : ℕ → User → User
awarded points u = record u { loyalty_points = u.loyalty_points + points }

-- `awardPoints`
abbrev pub award_points : (user points : ℕ) → Action Db (Unit {0})
award_points user points db = (ok tt, record db { users = update user (awarded points) db.users })

abbrev pub referral_bonus_points : ℕ
referral_bonus_points = 100

abbrev pub referred_by : ℕ → User → User
referred_by referrer u = record u { referred_by_id = some referrer }

-- `!referrer || referrer.id === newUserId`
unfoldable pub credit_referrer : (new_user : ℕ) → Option (ℕ × User) → Action Db (Unit {0})
credit_referrer new_user none = pure tt
credit_referrer new_user (some (referrer, _)) =
    if referrer == new_user
    then pure tt
    else modify (λ db. record db { users = update new_user (referred_by referrer) db.users })
      >> award_points referrer referral_bonus_points

-- `applyReferral`
unfoldable pub apply_referral : (new_user : ℕ) → Text → Action Db (Unit {0})
unfolding credit_referrer
apply_referral new_user code = do
  referrer ← gets (λ db. find_first (λ _ u. is_text (to_upper code) u.referral_code) db.users)
  credit_referrer new_user referrer

pub data TierName : Type 0 where
  bronze silver gold platinum : TierName

pub record Tier : Type 0 where
  pub name : TierName
  pub min : ℕ

abbrev pub tiers : List Tier
tiers =
    record { name = TierName.bronze; min = 0 }
    ∷ record { name = TierName.silver; min = 200 }
    ∷ record { name = TierName.gold; min = 500 }
    ∷ record { name = TierName.platinum; min = 1000 }
    ∷ []

pub record Standing : Type 0 where
  pub tier : TierName
  pub next_tier : Option TierName
  pub points_to_next_tier : ℕ

-- The loop over the tiers that are left, which stops at the first one out of reach.
walk : ℕ → Tier → List Tier → Standing
walk points current [] = record { tier = current.name; next_tier = none; points_to_next_tier = 0 }
walk points current (t ∷ ts) =
    let further = walk points t ts in
    if leb t.min points then further else record {
      tier = current.name;
      next_tier = some t.name;
      points_to_next_tier = t.min - points;
    }

-- `tierFor`; every number of points reaches the first tier
unfoldable pub tier_for : ℕ → Standing
unfolding walk
tier_for points = walk points (record { name = TierName.bronze; min = 0 }) tiers
