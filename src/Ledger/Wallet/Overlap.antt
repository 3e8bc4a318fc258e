-- ===== src/Ledger/Wallet/Overlap.antt =====
-- Two requests for a withdrawal that overlap: `requestWithdrawal` of ledger/ledger.service.ts reads
-- the balance and adds the entry in a later statement, outside a transaction.
use novax_backend.Common.{ℕ, ◌+◌, ◌<◌, ◌≡◌, some, arith}
use novax_backend.Common.Int.{pos, ◌-ℤ◌, ◌≤ℤ◌, ◌<ℤ◌, int_laws}
use novax_backend.Common.Action.{ok, err, bad_request}
use novax_backend.Ledger.{Ledger}
use novax_backend.Ledger.Balance.{balance_of}
use novax_backend.Ledger.Wallet.{check_withdrawal, withdrawal_write, request_withdrawal}
use novax_backend.Ledger.Wallet.Withdrawal.{IsCovered, covered, withdrawal_write_lem, refused}

check_passes :
    (limit user m : ℕ) (l : Ledger)
    → 0 < m
    → pos m ≤ℤ balance_of user l
    → check_withdrawal limit user (some (pos m)) l ≡ (ok m, l)
unfolding check_withdrawal
check_passes limit user m l h cover = ground arith

uncovered :
    (user k n m : ℕ) (l l1 : Ledger)
    → some (pos m) ≡ some (pos k)
    → pos k ≤ℤ balance_of user l1
    → balance_of user l1 ≡ balance_of user l -ℤ pos n
    → balance_of user l <ℤ pos (n + m)
    → ⊥
uncovered user k n m l l1 e enough own short =
    let same : k ≡ m = cc in
    let enough' : pos k ≤ℤ balance_of user l -ℤ pos n = rw (← own) enough in
    omega (int_laws, same, enough')

-- Take two requests of one user, each of which the balance covers while it does not cover both. If
-- the second has passed its checks when the first is made, both succeed and the balance is
-- negative. Had it been made after the first, it would have been refused.
overlapping_withdrawals_overdraw :
    (limit user n m now later : ℕ) (l : Ledger)
    → 0 < n
    → 0 < m
    → pos n ≤ℤ balance_of user l
    → pos m ≤ℤ balance_of user l
    → balance_of user l <ℤ pos (n + m)
    → let (first, l1) = request_withdrawal limit user (some (pos n)) now l in
      let (second, l2) = withdrawal_write user m later l1 in
      (check_withdrawal limit user (some (pos m)) l ≡ (ok m, l))
      × (first ≡ ok tt)
      × (second ≡ ok tt)
      × (balance_of user l2 <ℤ pos 0)
      × (request_withdrawal limit user (some (pos m)) later l1 ≡ (err bad_request, l1))
overlapping_withdrawals_overdraw limit user n m now later l h h' cover cover' short =
    let l1 : Ledger = (request_withdrawal limit user (some (pos n)) now l).1 in
    let (first, paid) = covered limit user n now l h cover in
    let (second, paid') = withdrawal_write_lem user m later l1 in
    let no_cover = λ (c : IsCovered user (some (pos m)) l1).
      let (k, e, _, enough) = c in uncovered user k n m l l1 e enough paid.own short in
    (
      check_passes limit user m l h' cover',
      first,
      second,
      rw (paid'.own, paid.own) (omega int_laws),
      refused limit user (pos m) later l1 no_cover,
    )
