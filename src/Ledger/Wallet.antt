-- ===== src/Ledger/Wallet.antt =====
-- `getBalance`, `requestWithdrawal` and `DRIVER_CREDIT_LIMIT_PKR`.
use novax_backend.Common.{
  ℕ, ◌+◌, ◌-◌, ◌*◌, Bool, true, false, not, ◌&&◌, ◌||◌, Option, none, some, List, [], ◌∷◌, leb, ltb,
  ◌==◌, if◌then◌else◌,
}
use novax_backend.Common.Int.{ℤ, pos, negsuc, pos_part, neg_part, ◌-ℤ◌, ltb_ℤ, leb_ℤ}
use novax_backend.Common.Action.{
  Action, Result, Error, ok, err, bad_request, pure, gets, raise_if, ◌>>=◌, ◌>>◌,
}
use novax_backend.Schema.Enums.{EntryType}
use novax_backend.Schema.Rows.{JobRef, LedgerEntry}
use novax_backend.Ledger.{Ledger, plain_entry, commit, transaction}
use novax_backend.Ledger.Balance.{balance_of}
pub mod Ladder
pub mod Withdrawal
pub mod Overlap

-- A number of JavaScript: `none` is an infinity or not a number.
abbrev pub Number : Type 0
Number = Option ℤ

-- `DRIVER_CREDIT_LIMIT_PKR` from the environment's number, in paisa; 2000 rupees without one.
pub credit_limit : Number → ℕ
credit_limit none = 200_000
credit_limit (some n) = pos_part n + neg_part n

pub data Level : Type 0 where
  ok_level notice warning blocked_level : Level

pub record Wallet : Type 0 where
  pub balance : ℤ
  pub owed : ℕ
  pub credit_limit : Option ℤ
  pub blocked : Bool
  pub level : Level
  pub remaining_credit : Option ℕ
  pub amount_to_settle : ℕ
  pub minimum_to_unblock : ℕ

-- `limit !== 0 && balance <= -limit`
abbrev pub is_blocked : ℕ → ℤ → Bool
is_blocked limit balance = not (limit == 0) && leb_ℤ balance (pos 0 -ℤ pos limit)

-- `owed / limit >= 0.75`, and so for a half; the ratio is 0 without a limit
level_of : ℕ → ℕ → Bool → Level
level_of limit owed true = Level.blocked_level
level_of limit owed false =
    if limit == 0
    then Level.ok_level
    else if leb (limit * 3) (owed * 4)
    then Level.warning
    else if leb limit (owed * 2)
    then Level.notice
    else Level.ok_level

pub wallet_of : ℕ → ℤ → Wallet
unfolding level_of
wallet_of limit balance =
    let owed = neg_part balance in
    let blocked = is_blocked limit balance in
    record {
      balance = balance;
      owed = owed;
      credit_limit = if limit == 0 then none else some (pos 0 -ℤ pos limit);
      blocked = blocked;
      level = level_of limit owed blocked;
      remaining_credit = if limit == 0 then none else some (limit - owed);
      amount_to_settle = if blocked then owed else 0;
      minimum_to_unblock = if blocked then owed else 0;
    }

-- `getBalance`
unfoldable pub get_balance : ℕ → ℕ → Ledger → Wallet
unfolding wallet_of
get_balance limit user l = wallet_of limit (balance_of user l)

-- The finite amount that is asked for, or a refusal.
positive_amount : Number → Action Ledger ℕ
positive_amount none l = (err bad_request, l)
positive_amount (some n) l = (if ltb_ℤ (pos 0) n then ok (pos_part n) else err bad_request, l)

-- The checks of `requestWithdrawal`, which read the balance.
unfoldable pub check_withdrawal : (limit user : ℕ) → Number → Action Ledger ℕ
unfolding positive_amount get_balance
check_withdrawal limit user amount = do
  paisa ← positive_amount amount
  wallet ← gets (get_balance limit user)
  raise_if (ltb_ℤ wallet.balance (pos paisa)) bad_request
  pure paisa

-- The later statement that adds the entry, whatever the balance is by then.
unfoldable pub withdrawal_write : (user paisa now : ℕ) → Action Ledger (Unit {0})
unfolding plain_entry commit transaction
withdrawal_write user paisa now =
    commit (
      plain_entry user EntryType.wallet_withdrawal JobRef.no_job paisa (pos 0 -ℤ pos paisa) now
      ∷ [])

-- `requestWithdrawal`; to whom the money goes is only logged
unfoldable pub request_withdrawal : (limit user : ℕ) → Number → (now : ℕ) → Action Ledger (Unit {0})
unfolding check_withdrawal withdrawal_write
request_withdrawal limit user amount now = do
  paisa ← check_withdrawal limit user amount
  withdrawal_write user paisa now
