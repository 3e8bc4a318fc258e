-- ===== src/Books.antt =====
-- A payout of ledger/ledger.service.ts followed by points of loyalty/loyalty.service.ts, as the
-- ends of a ride and of a parcel run them.
use novax_backend.Common.{ℕ, ◌≡◌, refl, ◌⊎◌, inl, inr, arith}
use novax_backend.Common.Int.{ℤ, ◌+ℤ◌}
use novax_backend.Common.Action.{Result, ok, err, db_error, pure, ◌>>◌}
use novax_backend.Common.Table.{update}
use novax_backend.Schema.Db.{Db, with_ledger}
use novax_backend.Ledger.{Ledger}
use novax_backend.Ledger.Balance.{balance_of}
use novax_backend.Ledger.Payouts.{Moves}
use novax_backend.Loyalty.{awarded, award_points}

-- Every balance has moved by `delta` and the user has the points, or the database refused the
-- payout and neither has changed; the answer is `r`.
abbrev pub IsPaid : {A : Type 0} → (ℕ → ℤ) → (user points : ℕ) → Db → A → Result A × Db → Type 0
IsPaid delta user points db answer (r, db') =
    (r ≡ ok answer)
      × ((u : ℕ) → balance_of u db'.ledger ≡ balance_of u db.ledger +ℤ delta u)
      × (db'.users ≡ update user (awarded points) db.users)
    ⊎ (r ≡ err db_error) × (db'.ledger ≡ db.ledger) × (db'.users ≡ db.users)

module _ (delta : ℕ → ℤ) (user points : ℕ) (db : Db) where
  pub payout-IsPaid :
      (p : Result (Unit {0}) × Ledger)
      → Moves db.ledger delta p
      → IsPaid delta user points db tt ((with_ledger (λ _. p) >> award_points user points) db)
  payout-IsPaid (ok tt, l) (inl (e, moved)) = inl (refl, moved, refl)
  payout-IsPaid (err x, l) (inl (e, moved)) = cc
  payout-IsPaid (ok tt, l) (inr (e, same)) = cc
  payout-IsPaid (err x, l) (inr (e, same)) = inr (e, same, refl)

  -- The books are written before the row is answered.
  pub answer-IsPaid :
      {A : Type 0} (a : A) (p : Result (Unit {0}) × Db)
      → IsPaid delta user points db tt p
      → IsPaid delta user points db a (((λ (_ : Db). p) >> pure a) db)
  answer-IsPaid a (ok tt, db') (inl (_, moved, given)) = inl (refl, moved, given)
  answer-IsPaid a (err x, db') (inl (e, _, _)) = cc
  answer-IsPaid a (ok tt, db') (inr (e, _, _)) = cc
  answer-IsPaid a (err x, db') (inr (e, same, kept)) = inr (ground arith, same, kept)
