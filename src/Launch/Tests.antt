-- ===== src/Launch/Tests.antt =====
-- The policy at concrete hours and rides.
use novax_backend.Common.{◌≡◌, refl, true}
use novax_backend.Launch.{Policy, default_policy, is_open_at}

abbrev night_shift : Policy
night_shift = record default_policy { hours_enabled = true; open_hour = 22; close_hour = 2 }

open_after_midnight : is_open_at night_shift 1 ≡ true
unfolding is_open_at
open_after_midnight = refl
