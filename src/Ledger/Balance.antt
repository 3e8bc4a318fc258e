-- ===== src/Ledger/Balance.antt =====
-- The sum that `getBalance` and the matcher both read, and what a transaction does to it.
use novax_backend.Common.{
  ℕ, ◌+◌, ◌*◌, ◌≤◌, ◌≡◌, refl, ◌⊎◌, inl, inr, some, Option-cases, [], ◌∷◌, arith, ◌==◌,
  if◌then◌else◌,
}
use mathlib.Core.Option.{some-injective}
use novax_backend.Common.Int.{ℤ, pos, ◌+ℤ◌, int_laws}
use novax_backend.Common.Action.{ok, err, db_error}
use novax_backend.Ledger.{Ledger, split_fare, transaction, commit}

-- `aggregate({ where: { userId }, _sum: { netAmount } })`
unfoldable pub balance_of : ℕ → Ledger → ℤ
balance_of u [] = pos 0
balance_of u (e ∷ l) =
    let rest = balance_of u l in if e.user_id == u then e.net_amount +ℤ rest else rest

-- Nothing of a fare is lost: the parts add up to the gross amount. The commission is the paisa
-- nearest to the exact rate, and at a rate of at most 100 per cent the driver's part is the rest of
-- the gross amount and not negative.
pub split_fare_conserves :
    (gross rate : ℕ)
    → let s = split_fare gross rate in
      (s.net_amount +ℤ pos s.commission_amount ≡ pos s.gross_amount)
      × (s.commission_amount * 10_000 ≤ gross * rate + 5000)
      × (gross * rate ≤ s.commission_amount * 10_000 + 5000)
      × (rate ≤ 10_000 → s.commission_amount ≤ gross)
unfolding split_fare
split_fare_conserves gross rate = (omega int_laws, omega arith, omega arith, λ h. grind arith)

-- Entries are added whole or not at all, so a balance moves by the entries' own sum.
pub balance_of-transaction :
    (u : ℕ) (es l l' : Ledger)
    → transaction es l ≡ some l'
    → balance_of u l' ≡ balance_of u l +ℤ balance_of u es
unfolding balance_of transaction
balance_of-transaction u [] l l' h = rw (← some-injective _ _ h) (omega int_laws)
balance_of-transaction u (e ∷ es) l l' h = grind (int_laws, balance_of-transaction u es (e ∷ l) l')

-- A commit that succeeds moves a balance by the entries' own sum, and one that fails, which is when
-- an entry breaks a unique key, changes nothing.
pub balance_of-commit :
    (u : ℕ) (es l : Ledger)
    → ((commit es l).0 ≡ ok tt) × (balance_of u (commit es l).1 ≡ balance_of u l +ℤ balance_of u es)
      ⊎ ((commit es l).0 ≡ err db_error) × ((commit es l).1 ≡ l)
unfolding commit
balance_of-commit u es l = elim (Option-cases (transaction es l)) [
  | inl e ↦ rw (e, commit) (inr (refl, refl))
  | inr (l', e) ↦ rw (e, commit) (inl (refl, balance_of-transaction u es l l' e))
]
