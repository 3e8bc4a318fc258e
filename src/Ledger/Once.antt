-- ===== src/Ledger/Once.antt =====
-- The unique keys of the table of ledger entries, and the payouts of one trip.
use novax_backend.Common.{
  ℕ, ◌≡◌, inl, inr, true, Bool-cases, Option, some, Option-cases, List, [], ◌∷◌, arith,
}
use novax_backend.Common.Action.{ok, err, db_error}
use novax_backend.Schema.Rows.{LedgerEntry}
use novax_backend.Ledger.{
  Ledger, trip_payout_entry, trip_cash_entries, or_zero, record_trip_payout, transaction, commit,
  clashes, clashes_any,
}
use mathlib.Core.Option.{some-injective}

transaction_keeps :
    (e : LedgerEntry) (es l l' : Ledger)
    → transaction es l ≡ some l'
    → clashes_any e l ≡ true
    → clashes_any e l' ≡ true
unfolding transaction clashes_any
transaction_keeps e [] l l' h c = rw (← some-injective _ _ h) c
transaction_keeps e (f ∷ es) l l' h c = elim (Bool-cases (clashes_any f l)) [
  | inl x ↦ cc (rw (x, transaction) at h)
  | inr x ↦ transaction_keeps e es (f ∷ l) l' (ground arith) (ground arith)
]

-- Transactions one after another, a refused one changing nothing.
pub commit_all : List (List LedgerEntry) → Ledger → Ledger
commit_all [] l = l
commit_all (es ∷ more) l = commit_all more (commit es l).1

commit_keeps :
    (e : LedgerEntry) (es l : Ledger)
    → clashes_any e l ≡ true
    → clashes_any e (commit es l).1 ≡ true
unfolding commit
commit_keeps e es l c = elim (Option-cases (transaction es l)) [
  | inl t ↦ rw (t, commit) c
  | inr (l', t) ↦ rw (t, commit) (transaction_keeps e es l l' t c)
]

commit_all_keeps :
    (e : LedgerEntry) (ess : List (List LedgerEntry)) (l : Ledger)
    → clashes_any e l ≡ true
    → clashes_any e (commit_all ess l) ≡ true
unfolding commit_all
commit_all_keeps e [] l c = c
commit_all_keeps e (es ∷ more) l c = commit_all_keeps e more (commit es l).1 (commit_keeps e es l c)

-- A transaction that went through left its first entry in the ledger.
commit_adds :
    (e f : LedgerEntry) (es l : Ledger)
    → clashes e f ≡ true
    → (commit (f ∷ es) l).0 ≡ ok tt
    → clashes_any e (commit (f ∷ es) l).1 ≡ true
unfolding commit transaction clashes_any
commit_adds e f es l same paid = elim (Option-cases (transaction (f ∷ es) l)) [
  | inl t ↦ cc (rw (t, commit) at paid)
  | inr (l', t) ↦ elim (Bool-cases (clashes_any f l)) [
    | inl x ↦ cc (rw (x, transaction) at t)
    | inr x ↦
        rw (t, commit) (transaction_keeps e es (f ∷ l) l' (rw (x, transaction) at t) (rw same))
  ]
]

commit_refused :
    (f : LedgerEntry) (es l : Ledger)
    → clashes_any f l ≡ true
    → commit (f ∷ es) l ≡ (err db_error, l)
unfolding commit transaction
commit_refused f es l x = rw (x, commit, transaction)

same_key :
    (driver driver' trip fare fare' now now' : ℕ)
    → clashes (trip_payout_entry driver' trip fare' now') (trip_payout_entry driver trip fare now)
      ≡ true
unfolding clashes trip_payout_entry
same_key driver driver' trip fare fare' now now' = ground arith

-- Once a trip's payout is recorded, any further payout of the trip is refused and changes nothing,
-- for every driver, fare, tip and time, and whatever transactions were run in between.
pub trip_paid_once :
    (driver trip fare : ℕ) (tip : Option ℕ) (now : ℕ) (l : Ledger)
    → (record_trip_payout driver trip fare tip now l).0 ≡ ok tt
    → (between : List (List LedgerEntry)) (driver' fare' : ℕ) (tip' : Option ℕ) (now' : ℕ)
    → let l' = commit_all between (record_trip_payout driver trip fare tip now l).1 in
      record_trip_payout driver' trip fare' tip' now' l' ≡ (err db_error, l')
unfolding record_trip_payout
trip_paid_once driver trip fare tip now l paid between driver' fare' tip' now' =
    let e = trip_payout_entry driver trip fare now in
    let rest = trip_cash_entries driver trip fare (or_zero tip) now in
    let e' = trip_payout_entry driver' trip fare' now' in
    let first = commit_adds e' e rest l (same_key driver driver' trip fare fare' now now') paid in
    commit_refused e' (trip_cash_entries driver' trip fare' (or_zero tip') now') _
      (commit_all_keeps e' between (commit (e ∷ rest) l).1 first)
