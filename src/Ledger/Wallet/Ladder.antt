-- ===== src/Ledger/Wallet/Ladder.antt =====
-- The grades of a wallet against the credit limit.
use novax_backend.Common.{
  ℕ, ◌*◌, ◌≤◌, ◌<◌, ◌≡◌, refl, ◌↔◌, inl, inr, true, false, Bool-cases, leb→le, some, arith, ◌==◌,
  ◌-◌, leb, if◌then◌else◌,
}
use novax_backend.Common.Int.{ℤ, neg_part, ◌-ℤ◌}
use novax_backend.Ledger.{Ledger}
use novax_backend.Ledger.Balance.{balance_of}
use novax_backend.Ledger.Wallet.{Level, Wallet, wallet_of, get_balance, level_of, is_blocked}

-- What each grade says of the debt `owed` against a limit that is not zero.
abbrev pub Grade : Level → ℕ → ℕ → Type 0
Grade Level.ok_level limit owed = owed * 2 < limit
Grade Level.notice limit owed = (limit ≤ owed * 2) × (owed * 4 < limit * 3)
Grade Level.warning limit owed = (limit * 3 ≤ owed * 4) × (owed < limit)
Grade Level.blocked_level limit owed = limit ≤ owed

is_blocked-eq-leb : (limit : ℕ) (b : ℤ) → 0 < limit → is_blocked limit b ≡ leb limit (neg_part b)
unfolding ◌-ℤ◌
is_blocked-eq-leb limit b h = ground arith

Grade-below :
    (limit owed : ℕ) → 0 < limit → owed < limit → Grade (level_of limit owed false) limit owed
unfolding level_of
Grade-below limit owed h below = elim (Bool-cases (limit == 0)) [
  | inl z ↦ absurd (ground arith)
  | inr z ↦ elim (Bool-cases (leb (limit * 3) (owed * 4))) [
    | inl w ↦ rw (z, w, level_of) (ground arith)
    | inr w ↦ elim (Bool-cases (leb limit (owed * 2))) [
      | inl n ↦ rw (z, w, n, level_of) (ground arith)
      | inr n ↦ rw (z, w, n, level_of) (ground arith)
    ]
  ]
]

Grade-of : (limit owed : ℕ) → 0 < limit → Grade (level_of limit owed (leb limit owed)) limit owed
unfolding level_of
Grade-of limit owed h = elim (Bool-cases (leb limit owed)) [
  | inl e ↦ rw (e, level_of) (leb→le limit owed e)
  | inr e ↦ rw e (Grade-below limit owed h (ground arith))
]

pub record IsGraded (limit : ℕ) (w : Wallet) : Type 0 where
  pub blocks : (w.blocked ≡ true) ↔ (limit ≤ w.owed)
  pub grade : Grade w.level limit w.owed
  pub room : w.remaining_credit ≡ some (limit - w.owed)
  pub settle : w.amount_to_settle ≡ (if leb limit w.owed then w.owed else 0)

wallet_of-IsGraded : (limit : ℕ) (b : ℤ) → 0 < limit → IsGraded limit (wallet_of limit b)
unfolding wallet_of
wallet_of-IsGraded limit b h =
    let e = is_blocked-eq-leb limit b h in
    record {
      blocks = rw e (λ h. ground arith, λ h. ground arith);
      grade = rw e (Grade-of limit (neg_part b) h);
      room = ground arith;
      settle = rw e refl;
    }

-- With a limit set, a wallet is blocked exactly when the debt reaches the limit; its grade is the
-- one that the debt falls in; the room left is the limit less the debt, and none below zero; and a
-- settlement is asked for only of a blocked wallet, then of the whole debt.
pub get_balance-IsGraded :
    (limit user : ℕ) (l : Ledger) → 0 < limit → IsGraded limit (get_balance limit user l)
unfolding get_balance
get_balance-IsGraded limit user l h = wallet_of-IsGraded limit (balance_of user l) h
