-- ===== src/Common/Table.antt =====
-- A table of rows under their primary key, as the services see it through Prisma.
use novax_backend.Common.Tests.{◌==◌, if◌then◌else◌}
use Prim.Native.Nat.{ℕ}
use mathlib.Core.Path.{◌≡◌, refl}
use mathlib.Core.Logic.{◌≢◌}
use mathlib.Core.Bool.{Bool, true}
use mathlib.Core.Option.{Option, none, some}
use mathlib.Core.List.{List, [], ◌∷◌}
use native.Mathlib.Omega.{arith}

abbrev pub Table {ℓ} : Type ℓ → Type ℓ
Table R = List (ℕ × R)

module _ {ℓ} {R : Type ℓ} where
  -- `findUnique({ where: { id } })`
  unfoldable pub find : ℕ → Table R → Option R
  find k [] = none
  find k ((j, r) ∷ t) = if j == k then some r else find k t

  -- `update({ where: { id }, data })`; a key that is missing changes nothing
  unfoldable pub update : ℕ → (R → R) → Table R → Table R
  update k f [] = []
  update k f ((j, r) ∷ t) = if j == k then (j, f r) ∷ t else (j, r) ∷ update k f t

  -- `create({ data })`
  unfoldable pub create : ℕ → R → Table R → Table R
  create k r t = (k, r) ∷ t

  -- `findMany({ where })`, in the table's order
  unfoldable pub find_many : (ℕ → R → Bool) → Table R → List (ℕ × R)
  find_many p [] = []
  find_many p ((j, r) ∷ t) = let rest = find_many p t in if p j r then (j, r) ∷ rest else rest

  -- `findFirst({ where })`, in the table's order
  unfoldable pub find_first : (ℕ → R → Bool) → Table R → Option (ℕ × R)
  find_first p [] = none
  find_first p ((j, r) ∷ t) = if p j r then some (j, r) else find_first p t

  -- `updateMany({ where, data })`
  unfoldable pub update_many : (ℕ → R → Bool) → (R → R) → Table R → Table R
  update_many p f [] = []
  update_many p f ((j, r) ∷ t) = (j, if p j r then f r else r) ∷ update_many p f t

  -- `deleteMany({ where })`
  unfoldable pub delete_many : (ℕ → R → Bool) → Table R → Table R
  delete_many p [] = []
  delete_many p ((j, r) ∷ t) = let rest = delete_many p t in if p j r then rest else (j, r) ∷ rest

  pub find-create_self : (k : ℕ) (r : R) (t : Table R) → find k (create k r t) ≡ some r
  unfolding find create
  find-create_self k r t = ground arith

  pub find-create_ne : (k j : ℕ) (r : R) (t : Table R) → j ≢ k → find j (create k r t) ≡ find j t
  unfolding find create
  find-create_ne k j r t h = ground arith

  pub find-update_self :
      (k : ℕ) (f : R → R) (t : Table R) (r : R)
      → find k t ≡ some r
      → find k (update k f t) ≡ some (f r)
  unfolding find update
  find-update_self k f [] r h = cc
  find-update_self k f ((j, q) ∷ t) r h = ground (arith, find-update_self k f t r)

  pub find-update-none :
      (k : ℕ) (f : R → R) (t : Table R) → find k t ≡ none → find k (update k f t) ≡ none
  unfolding find update
  find-update-none k f [] h = refl
  find-update-none k f ((j, r) ∷ t) h = ground (arith, find-update-none k f t)

  pub find-update_ne :
      (k j : ℕ) (f : R → R) (t : Table R) → j ≢ k → find j (update k f t) ≡ find j t
  unfolding find update
  find-update_ne k j f [] h = refl
  find-update_ne k j f ((i, r) ∷ t) h = ground (arith, find-update_ne k j f t)

  -- The row that is found meets the test.
  pub find_first-holds :
      (p : ℕ → R → Bool) (t : Table R) (k : ℕ) (r : R) → find_first p t ≡ some (k, r) → p k r ≡ true
  unfolding find_first
  find_first-holds p [] k r h = cc
  find_first-holds p ((i, q) ∷ t) k r h = ground (arith, find_first-holds p t k r)

  -- An update that does not matter to the test.
  pub find_first-update :
      (p : ℕ → R → Bool) (f : R → R)
      → ((i : ℕ) (r : R) → p i (f r) ≡ p i r)
      → (k : ℕ) (t : Table R) (r : R) → find k t ≡ some r
      → find_first p t ≡ some (k, r)
      → find_first p (update k f t) ≡ some (k, f r)
  unfolding find_first update find
  find_first-update p f kept k [] r e h = cc
  find_first-update p f kept k ((i, q) ∷ t) r e h = ground (
    arith,
    kept i q,
    kept k q,
    kept k r,
    find_first-holds p t k r,
    find_first-update p f kept k t r,
  )
