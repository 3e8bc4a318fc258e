-- ===== src/Ledger/Wallet/Withdrawal.antt =====
-- `requestWithdrawal` of ledger/ledger.service.ts against the balance.

use novax_backend.Common.{
  ℕ, ◌<◌, ◌≡◌, refl, ◌⊎◌, inl, inr, ◌≢◌, false, Bool-cases, none, some, List, [], ◌∷◌, arith, ◌&&◌,
  ltb,
}
use novax_backend.Common.Int.{ℤ, pos, negsuc, ◌-ℤ◌, ◌≤ℤ◌, ltb_ℤ, leb_ℤ, int_laws}
use novax_backend.Common.Action.{ok, err, bad_request}
use novax_backend.Schema.Enums.{EntryType}
use novax_backend.Schema.Rows.{JobRef}
use novax_backend.Ledger.{Ledger, plain_entry, commit, transaction, clashes, clashes_any}
use novax_backend.Ledger.Balance.{balance_of}
use novax_backend.Ledger.Wallet.{Number, withdrawal_write, request_withdrawal}

no_job_free :
    (user : ℕ) (type : EntryType) (n : ℕ) (z : ℤ) (now : ℕ) (l : Ledger)
    → clashes_any (plain_entry user type JobRef.no_job n z now) l ≡ false
unfolding clashes_any clashes plain_entry
no_job_free user type n z now [] = refl
no_job_free user type n z now (e ∷ l) = no_job_free user type n z now l

-- An entry about no job is always added.
commit_no_job :
    (user : ℕ) (type : EntryType) (n : ℕ) (z : ℤ) (now : ℕ) (l : Ledger)
    → let e = plain_entry user type JobRef.no_job n z now in commit (e ∷ []) l ≡ (ok tt, e ∷ l)
unfolding commit transaction
commit_no_job user type n z now l = rw (no_job_free user type n z now l, commit, transaction)

-- The amount is a number above zero that the balance covers.
abbrev pub IsCovered : ℕ → Number → Ledger → Type 0
IsCovered user amount l = (n : ℕ) × (amount ≡ some (pos n)) × (0 < n) × (pos n ≤ℤ balance_of user l)

-- A ledger with `n` paisa less for `user`, and the same for every other user.
pub record IsPaidOut (user n : ℕ) (l l' : Ledger) : Type 0 where
  pub own : balance_of user l' ≡ balance_of user l -ℤ pos n
  pub others : (u : ℕ) → u ≢ user → balance_of u l' ≡ balance_of u l

granted :
    (limit user n now : ℕ) (l : Ledger)
    → 0 < n
    → pos n ≤ℤ balance_of user l
    → request_withdrawal limit user (some (pos n)) now l ≡ (
      ok tt,
      plain_entry user EntryType.wallet_withdrawal JobRef.no_job n (pos 0 -ℤ pos n) now ∷ l,
    )
unfolding request_withdrawal
granted limit user n now l h cover =
    let e = commit_no_job user EntryType.wallet_withdrawal n (pos 0 -ℤ pos n) now l in
    ground (arith, e)

paid_out :
    (user n now : ℕ) (l : Ledger)
    → IsPaidOut user n l
        (plain_entry user EntryType.wallet_withdrawal JobRef.no_job n (pos 0 -ℤ pos n) now ∷ l)
unfolding balance_of plain_entry
paid_out user n now l = record { own = grind int_laws; others = λ u ne. ground arith }

-- A request that the balance covers.
pub covered :
    (limit user n now : ℕ) (l : Ledger)
    → 0 < n
    → pos n ≤ℤ balance_of user l
    → let (r, l') = request_withdrawal limit user (some (pos n)) now l in
      (r ≡ ok tt) × IsPaidOut user n l l'
covered limit user n now l h cover =
    rw (granted limit user n now l h cover) (refl, paid_out user n now l)

-- The entry is added whatever the balance is.
pub withdrawal_write_lem :
    (user n now : ℕ) (l : Ledger)
    → let (r, l') = withdrawal_write user n now l in (r ≡ ok tt) × IsPaidOut user n l l'
unfolding withdrawal_write
withdrawal_write_lem user n now l =
    rw (commit_no_job user EntryType.wallet_withdrawal n (pos 0 -ℤ pos n) now l)
      (refl, paid_out user n now l)

refused_none :
    (limit user now : ℕ) (l : Ledger)
    → request_withdrawal limit user none now l ≡ (err bad_request, l)
unfolding request_withdrawal
refused_none limit user now l = refl

pub refused :
    (limit user : ℕ) (z : ℤ) (now : ℕ) (l : Ledger)
    → ¬ IsCovered user (some z) l
    → request_withdrawal limit user (some z) now l ≡ (err bad_request, l)
unfolding request_withdrawal
refused limit user (negsuc n) now l no_cover = ground arith
refused limit user (pos n) now l no_cover = elim (Bool-cases (ltb_ℤ (pos 0) (pos n))) [
  | inr e ↦ ground arith
  | inl e ↦ elim (Bool-cases (ltb_ℤ (balance_of user l) (pos n))) [
    | inl short ↦ ground arith
    | inr enough ↦ absurd (no_cover (n, refl, ground arith, ground arith))
  ]
]

IsCovered-cases :
    (user : ℕ) (z : ℤ) (l : Ledger) → IsCovered user (some z) l ⊎ (¬ IsCovered user (some z) l)
IsCovered-cases user (negsuc n) l = inr (λ c. cc (c.1))
IsCovered-cases user (pos n) l = elim (Bool-cases (ltb 0 n && leb_ℤ (pos n) (balance_of user l))) [
  | inl e ↦ inl (n, refl, ground arith, ground arith)
  | inr e ↦ inr (λ c. ground arith)
]

-- A request succeeds exactly when it names an amount above zero that the balance covers; it then
-- lowers the user's balance by that amount and no other balance. Any other request is refused
-- with a bad request and changes nothing.
pub request_withdrawal-IsCovered :
    (limit user : ℕ) (amount : Number) (now : ℕ) (l : Ledger)
    → let (r, l') = request_withdrawal limit user amount now l in
      ((n : ℕ) × (amount ≡ some (pos n))
        × (0 < n)
        × (pos n ≤ℤ balance_of user l)
        × (r ≡ ok tt)
        × IsPaidOut user n l l')
      ⊎ (¬ IsCovered user amount l) × (r ≡ err bad_request) × (l' ≡ l)
request_withdrawal-IsCovered limit user none now l =
    let e = refused_none limit user now l in inr (λ c. cc (c.1), rw e, rw e)
request_withdrawal-IsCovered limit user (some z) now l = elim (IsCovered-cases user z l) [
  | inl (n, e, h, cover) ↦
      let paid = granted limit user n now l h cover in
      inl (n, e, h, cover, rw (e, paid), rw (e, paid) (paid_out user n now l))
  | inr no_cover ↦ let e = refused limit user z now l no_cover in inr (no_cover, rw e, rw e)
]

-- Requests one after another, a refused one changing nothing.
pub withdraw_all : (limit user : ℕ) → List Number → (now : ℕ) → Ledger → Ledger
withdraw_all limit user [] now l = l
withdraw_all limit user (a ∷ more) now l =
    withdraw_all limit user more now (request_withdrawal limit user a now l).1

-- However often and for whatever amounts a user asks, each request being answered before the next
-- one is made, a balance that is not negative never becomes negative.
pub withdraw_all_solvent :
    (limit user : ℕ) (amounts : List Number) (now : ℕ) (l : Ledger)
    → pos 0 ≤ℤ balance_of user l
    → pos 0 ≤ℤ balance_of user (withdraw_all limit user amounts now l)
unfolding withdraw_all
withdraw_all_solvent limit user [] now l h = h
withdraw_all_solvent limit user (a ∷ more) now l h =
    withdraw_all_solvent limit user more now (request_withdrawal limit user a now l).1
      (elim (request_withdrawal-IsCovered limit user a now l) [
        | inl (n, _, _, cover, _, paid) ↦ rw paid.own (omega int_laws)
        | inr (_, _, same) ↦ rw same h
      ])
