-- ===== src/Common/Lists.antt =====
-- Lists over native numbers: lengths, membership tests, filters and predicates.
use Prim.Native.Nat.{ℕ, zero, suc, ◌≤◌}
use mathlib.Core.Path.{◌≡◌, refl}
use mathlib.Core.Bool.{Bool, true, false, ◌||◌}
use mathlib.Core.List.{List, [], ◌∷◌}
use native.Mathlib.Omega.{arith}
use novax_backend.Common.Tests.{◌==◌, if◌then◌else◌, Bool-cases}
use mathlib.Core.Logic.{◌⊎◌, inl, inr}

module _ {ℓ} {A : Type ℓ} where
  abbrev pub length : List A → ℕ
  length [] = 0
  length (_ ∷ xs) = suc (length xs)

  abbrev pub take : ℕ → List A → List A
  take zero xs = []
  take (suc n) [] = []
  take (suc n) (x ∷ xs) = x ∷ take n xs

  -- `xs.filter(p)`
  abbrev pub keep : (A → Bool) → List A → List A
  keep p [] = []
  keep p (x ∷ xs) = let rest = keep p xs in if p x then x ∷ rest else rest

  pub List-cases : (xs : List A) → (xs ≡ []) ⊎ ((x : A) × (ys : List A) × (xs ≡ x ∷ ys))
  List-cases [] = inl refl
  List-cases (x ∷ xs) = inr (x, xs, refl)

  pub length-take : (n : ℕ) (xs : List A) → length (take n xs) ≤ n
  length-take zero xs = omega arith
  length-take (suc n) [] = omega arith
  length-take (suc n) (x ∷ xs) = omega (arith, length-take n xs)

-- `xs.includes(k)`, `set.has(k)`
abbrev pub has : ℕ → List ℕ → Bool
has k [] = false
has k (j ∷ js) = j == k || has k js

abbrev pub All {ℓ κ} : {A : Type ℓ} → (A → Type κ) → List A → Type κ
All P [] = Unit
All P (x ∷ xs) = P x × All P xs

pub All-take {ℓ κ} :
    {A : Type ℓ} (P : A → Type κ) (n : ℕ) (xs : List A) → All P xs → All P (take n xs)
All-take P zero xs h = tt
All-take P (suc n) [] h = tt
All-take P (suc n) (x ∷ xs) h = (h.0, All-take P n xs h.1)

pub All-keep {ℓ} : {A : Type ℓ} (p : A → Bool) (xs : List A) → All (λ x. p x ≡ true) (keep p xs)
All-keep p [] = tt
All-keep p (x ∷ xs) = elim (Bool-cases (p x)) [
  | inl e ↦ rw e (e, All-keep p xs)
  | inr e ↦ rw e (All-keep p xs)
]

pub keep-true {ℓ} :
    {A : Type ℓ} (p : A → Bool) (x : A) (xs : List A) → p x ≡ true → keep p (x ∷ xs) ≡ x ∷ keep p xs
keep-true p x xs e = rw e

pub keep-false {ℓ} :
    {A : Type ℓ} (p : A → Bool) (x : A) (xs : List A) → p x ≡ false → keep p (x ∷ xs) ≡ keep p xs
keep-false p x xs e = rw e
