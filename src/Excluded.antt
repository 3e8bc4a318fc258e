-- ===== src/Excluded.antt =====
-- location/excluded-drivers.store.ts: which drivers a job is not offered to again. The hour after
-- which Redis drops a set that nobody adds to is not modelled.
pub mod Laws
use novax_backend.Common.{ℕ, Bool, not, ◌&&◌, List, [], ◌∷◌, ◌==◌, if◌then◌else◌, has}
use novax_backend.Schema.Db.{MatchScope}

abbrev pub Excluded : Type 0
Excluded = List (MatchScope × ℕ × ℕ)

scope_code : MatchScope → ℕ
scope_code MatchScope.trip = 0
scope_code MatchScope.delivery = 1
scope_code MatchScope.food_order = 2
scope_code MatchScope.errand = 3

-- The key `match:excluded:${scope}:${id}` is the same.
same_key : MatchScope → ℕ → MatchScope → ℕ → Bool
unfolding scope_code
same_key s i s' i' = scope_code s' == scope_code s && i' == i

-- `getAll`
unfoldable pub get_all : MatchScope → ℕ → Excluded → List ℕ
unfolding same_key
get_all s i [] = []
get_all s i ((s', i', d) ∷ x) =
    let rest = get_all s i x in if same_key s i s' i' then d ∷ rest else rest

-- `add`: a set, so a member is not added twice
unfoldable pub add : MatchScope → ℕ → ℕ → Excluded → Excluded
unfolding get_all
add s i d x = if has d (get_all s i x) then x else (s, i, d) ∷ x

unfoldable pub add_all : MatchScope → ℕ → List ℕ → Excluded → Excluded
unfolding add
add_all s i [] x = x
add_all s i (d ∷ ds) x = add_all s i ds (add s i d x)

-- `clear`
unfoldable pub clear : MatchScope → ℕ → Excluded → Excluded
unfolding same_key
clear s i [] = []
clear s i ((s', i', d) ∷ x) =
    let rest = clear s i x in if same_key s i s' i' then rest else (s', i', d) ∷ rest
