-- ===== src/Ledger/Tests.antt =====
-- Payouts, wallets and earnings at concrete entries.
use novax_backend.Common.{◌≡◌, refl, none, some, [], ◌∷◌}
use novax_backend.Common.Int.{pos, ◌+ℤ◌, ◌-ℤ◌, ◌≤ℤ◌, int_laws}
use novax_backend.Common.Action.{err, db_error}
use novax_backend.Fixtures.{old_payout}
use novax_backend.Ledger.{
  Ledger, default_rate, split_fare, or_zero, record_trip_payout, clashes, clashes_any,
}
use novax_backend.Ledger.Balance.{balance_of}
use novax_backend.Ledger.Payouts.{share, Moves, record_trip_payout-Moves}
use novax_backend.Ledger.Once.{commit_all, trip_paid_once}
use novax_backend.Ledger.Wallet.Withdrawal.{withdraw_all, withdraw_all_solvent}

abbrev book : Ledger
book = old_payout ∷ []

record_trip_payout-Moves_example :
    Moves book
      (share 2
        (pos (or_zero (some 2000)) -ℤ pos (split_fare 20_000 default_rate).commission_amount))
      (record_trip_payout 2 10 20_000 (some 2000) 900_000 book)
record_trip_payout-Moves_example = record_trip_payout-Moves 2 10 20_000 (some 2000) 900_000 book

trip_paid_once_example :
    let l =
      commit_all ((old_payout ∷ []) ∷ []) (record_trip_payout 2 10 20_000 none 900_000 book).1 in
    record_trip_payout 2 10 20_000 none 900_500 l ≡ (err db_error, l)
unfolding record_trip_payout clashes_any clashes
trip_paid_once_example =
    trip_paid_once 2 10 20_000 none 900_000 book refl ((old_payout ∷ []) ∷ []) 2 20_000 none 900_500

-- The second and the third request ask for more than is left.
withdraw_all_solvent_example :
    pos 0
    ≤ℤ balance_of 2 (
        withdraw_all 200_000 2
          (some (pos 10_000) ∷ some (pos 10_000) ∷ some (pos 8000) ∷ [])
          900_000
          book)
unfolding balance_of ◌+ℤ◌
withdraw_all_solvent_example =
    withdraw_all_solvent 200_000 2 (some (pos 10_000) ∷ some (pos 10_000) ∷ some (pos 8000) ∷ [])
      900_000 book (omega int_laws)
