-- ===== src/Common/Action.antt =====
-- Service methods: state and exceptions. What was written before a throw stays written, as it
-- does in the database when no transaction is open.
use mathlib.Core.Path.{◌≡◌, refl, ◌∙◌}
use mathlib.Core.Logic.{◌⊎◌, inl, inr}
use mathlib.Core.Bool.{Bool}
use mathlib.Core.Option.{Option, none, some}
use novax_backend.Common.Tests.{if◌then◌else◌}

-- The exceptions of @nestjs/common that the services throw, and an error of the database.
pub data Error : Type 0 where
  bad_request not_found forbidden conflict unauthorized unavailable db_error : Error

pub data Result {ℓ} (A : Type ℓ) : Type ℓ where
  ok : A → Result A
  err : Error → Result A

abbrev pub Action : Type 0 → Type 0 → Type 0
Action S A = S → Result A × S

module _ {S : Type 0} {A : Type 0} where
  abbrev pub pure : A → Action S A
  pure a s = (ok a, s)

  abbrev pub raise : Error → Action S A
  raise e s = (err e, s)

  abbrev pub gets : (S → A) → Action S A
  gets f s = (ok (f s), s)

  abbrev pub or_raise : Option A → Error → Action S A
  or_raise none e s = (err e, s)
  or_raise (some a) _ s = (ok a, s)

infixl 5 ◌>>=◌ ◌>>◌
abbrev pub ◌>>=◌ : {S A B : Type 0} → Action S A → (A → Action S B) → Action S B
◌>>=◌ m f s = let (r, s') = m s in elim r [ ok a ↦ f a s' | err e ↦ (err e, s') ]

abbrev pub ◌>>◌ : {S A B : Type 0} → Action S A → Action S B → Action S B
m >> k = m >>= λ _. k

abbrev pub raise_if : {S : Type 0} → Bool → Error → Action S (Unit {0})
raise_if c e s = (if c then err e else ok tt, s)

abbrev pub modify : {S : Type 0} → (S → S) → Action S (Unit {0})
modify f s = (ok tt, f s)

-- What an action leaves of the state, success or not.
module _ {S : Type 0} {B : Type 0} (f : S → B) where
  abbrev pub Keeps : {A : Type 0} → Action S A → Type 0
  Keeps m = (s : S) → f (m s).1 ≡ f s

  bind_kept :
      {A C : Type 0} (s : S) (g : A → Action S C) (p : Result A × S)
      → f p.1 ≡ f s
      → ((a : A) → Keeps (g a))
      → f (((λ _. p) >>= g) s).1 ≡ f s
  bind_kept s g (ok a, s') h kept = kept a s' ∙ h
  bind_kept s g (err e, s') h kept = h

  pub bind-Keeps :
      {A C : Type 0} (m : Action S A) (g : A → Action S C)
      → Keeps m
      → ((a : A) → Keeps (g a))
      → Keeps (m >>= g)
  bind-Keeps m g h kept s = bind_kept s g (m s) (h s) kept

module _ {S A C : Type 0} (f : A → Action S C) (s : S) (a : A) where
  bind_ok : (p : Result A × S) → p.0 ≡ ok a → ((λ (_ : S). p) >>= f) s ≡ f a p.1
  bind_ok (ok b, s') e = cc
  bind_ok (err x, s') e = cc

  -- An action that succeeds is followed by the next one.
  pub bind-ok : (m : Action S A) → (m s).0 ≡ ok a → (m >>= f) s ≡ f a (m s).1
  bind-ok m e = bind_ok (m s) e

module _ {S A C : Type 0} (f : A → Action S C) (s : S) (x : Error) where
  bind_err : (p : Result A × S) → p.0 ≡ err x → ((λ (_ : S). p) >>= f) s ≡ (err x, p.1)
  bind_err (ok b, s') e = cc
  bind_err (err y, s') e = cc

  -- An action that fails ends the method.
  pub bind-err : (m : Action S A) → (m s).0 ≡ err x → (m >>= f) s ≡ (err x, (m s).1)
  bind-err m e = bind_err (m s) e

pub Result-cases :
    {A : Type 0} (r : Result A) → ((a : A) × (r ≡ ok a)) ⊎ ((x : Error) × (r ≡ err x))
Result-cases (ok a) = inl (a, refl)
Result-cases (err x) = inr (x, refl)
