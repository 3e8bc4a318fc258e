-- ===== src/Location/Credit.antt =====
-- `driversOverCreditLimit` against the wallet that the driver sees.
use novax_backend.Common.{ℕ, ◌≡◌, refl, inl, inr, false, ◌==◌, Bool-cases, [], ◌∷◌, arith}
use novax_backend.Common.Int.{pos, int_laws}
use novax_backend.Ledger.{Ledger}
use novax_backend.Ledger.Balance.{balance_of}
use novax_backend.Ledger.Wallet.{get_balance, is_blocked}
use novax_backend.Location.{has_entries, over_credit_limit}

balance_of-none : (d : ℕ) (l : Ledger) → has_entries d l ≡ false → balance_of d l ≡ pos 0
unfolding balance_of has_entries
balance_of-none d [] h = refl
balance_of-none d (e ∷ l) h = ground (arith, balance_of-none d l)

zero_not_blocked : (limit : ℕ) → is_blocked limit (pos 0) ≡ false
zero_not_blocked limit = elim (Bool-cases (limit == 0)) [ inl e ↦ rw e | inr e ↦ grind int_laws ]

-- A driver is passed over for the credit limit exactly when their wallet says that they are
-- blocked.
pub over_credit_limit-blocked :
    (limit : ℕ) (l : Ledger) (d : ℕ) → over_credit_limit limit l d ≡ (get_balance limit d l).blocked
unfolding over_credit_limit get_balance
over_credit_limit-blocked limit l d = elim (Bool-cases (has_entries d l)) [
  | inl h ↦ rw h
  | inr h ↦ rw (h, balance_of-none d l h, zero_not_blocked limit)
]
