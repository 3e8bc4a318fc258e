-- ===== src/Ledger.antt =====
-- ledger/commission.util.ts and ledger/ledger.service.ts: the split of a fare, the entries of each
-- payout, the balance with its credit ladder, withdrawals and earnings.
--
-- Amounts are paisa. The service runs over the list of entries, newest first. A transaction is
-- refused when an entry breaks one of the unique keys (job, type) of the table.
pub mod Balance
pub mod Payouts
pub mod Once
pub mod Wallet
pub mod Earnings
mod Tests
use novax_backend.Common.{
  ℕ, ◌+◌, ◌*◌, ◌/◌, Bool, false, ◌&&◌, ◌||◌, Option, none, some, List, [], ◌∷◌, ltb, ◌==◌,
  if◌then◌else◌,
}
use novax_backend.Common.Int.{ℤ, pos, ◌-ℤ◌}
use novax_backend.Common.Action.{Action, db_error, ok, err}
use novax_backend.Schema.Enums.{EntryType}
use novax_backend.Schema.Rows.{JobRef, LedgerEntry}

-- `COMMISSION_RATE` is 0.15.
abbrev pub default_rate : ℕ
default_rate = 1500

pub record Split : Type 0 where
  pub gross_amount : ℕ
  pub commission_rate : ℕ
  pub commission_amount : ℕ
  pub net_amount : ℤ

-- `splitFare`, with the rate in hundredths of a per cent
unfoldable pub split_fare : ℕ → ℕ → Split
split_fare gross rate =
    let commission = (gross * rate + 5000) / 10_000 in
    record {
      gross_amount = gross;
      commission_rate = rate;
      commission_amount = commission;
      net_amount = pos gross -ℤ pos commission;
    }

abbrev pub Ledger : Type 0
Ledger = List LedgerEntry

type_code : EntryType → ℕ
type_code EntryType.trip_payout = 0
type_code EntryType.delivery_payout = 1
type_code EntryType.delivery_cod_liability = 2
type_code EntryType.wallet_topup = 3
type_code EntryType.food_order_driver_payout = 4
type_code EntryType.food_order_restaurant_payout = 5
type_code EntryType.errand_payout = 6
type_code EntryType.trip_tip = 7
type_code EntryType.trip_cash_collected = 8
type_code EntryType.parcel_cod_credit = 9
type_code EntryType.wallet_withdrawal = 10

-- A null is no key, so entries that are about no job never clash.
same_job : JobRef → JobRef → Bool
same_job (JobRef.trip_job a) (JobRef.trip_job b) = a == b
same_job (JobRef.delivery_job a) (JobRef.delivery_job b) = a == b
same_job (JobRef.food_order_job a) (JobRef.food_order_job b) = a == b
same_job (JobRef.errand_job a) (JobRef.errand_job b) = a == b
same_job _ _ = false

-- `@@unique([tripId, type])` and its like
unfoldable pub clashes : LedgerEntry → LedgerEntry → Bool
unfolding same_job type_code
clashes e f = same_job e.job f.job && type_code e.entry_type == type_code f.entry_type

unfoldable pub clashes_any : LedgerEntry → Ledger → Bool
clashes_any e [] = false
clashes_any e (f ∷ l) = clashes e f || clashes_any e l

-- `$transaction`: every entry, or none
pub transaction : List LedgerEntry → Ledger → Option Ledger
transaction [] l = some l
transaction (e ∷ es) l = let rest = transaction es (e ∷ l) in if clashes_any e l then none else rest

pub commit : List LedgerEntry → Action Ledger (Unit {0})
commit es l = elim (transaction es l) [ none ↦ (err db_error, l) | some l' ↦ (ok tt, l') ]

-- An entry of a payout, with the columns of a split.
split_entry : ℕ → EntryType → JobRef → Split → ℕ → LedgerEntry
split_entry user type job s now = record {
  user_id = user;
  entry_type = type;
  job = job;
  gross_amount = s.gross_amount;
  commission_rate = s.commission_rate;
  commission_amount = s.commission_amount;
  net_amount = s.net_amount;
  created_at = now;
}

-- An entry with no commission.
plain_entry : ℕ → EntryType → JobRef → ℕ → ℤ → ℕ → LedgerEntry
plain_entry user type job gross net now = record {
  user_id = user;
  entry_type = type;
  job = job;
  gross_amount = gross;
  commission_rate = 0;
  commission_amount = 0;
  net_amount = net;
  created_at = now;
}

-- What the driver earned of a trip.
pub trip_payout_entry : (driver trip fare now : ℕ) → LedgerEntry
unfolding split_fare split_entry
trip_payout_entry driver trip fare now =
    split_entry driver EntryType.trip_payout (JobRef.trip_job trip) (split_fare fare default_rate)
      now

-- The cash that the driver holds, and the tip.
pub trip_cash_entries : (driver trip fare tip now : ℕ) → List LedgerEntry
unfolding plain_entry
trip_cash_entries driver trip fare tip now =
    let job = JobRef.trip_job trip in
    plain_entry driver EntryType.trip_cash_collected job fare (pos 0 -ℤ pos fare) now
    ∷ (if ltb 0 tip then plain_entry driver EntryType.trip_tip job tip (pos tip) now ∷ [] else [])

pub trip_entries : (driver trip fare tip now : ℕ) → List LedgerEntry
trip_entries driver trip fare tip now =
    trip_payout_entry driver trip fare now ∷ trip_cash_entries driver trip fare tip now

abbrev pub or_zero : Option ℕ → ℕ
or_zero none = 0
or_zero (some n) = n

-- `recordTripPayout`
unfoldable pub record_trip_payout :
    (driver trip fare : ℕ) → Option ℕ → (now : ℕ) → Action Ledger (Unit {0})
unfolding trip_entries trip_payout_entry trip_cash_entries commit transaction
record_trip_payout driver trip fare tip now =
    commit (trip_entries driver trip fare (or_zero tip) now)

-- The liability of the driver and the credit of the sender for cash on delivery.
cod_entries : (driver delivery cod : ℕ) → Option ℕ → (now : ℕ) → List LedgerEntry
unfolding plain_entry
cod_entries driver delivery cod none now =
    let job = JobRef.delivery_job delivery in
    plain_entry driver EntryType.delivery_cod_liability job cod (pos 0 -ℤ pos cod) now ∷ []
cod_entries driver delivery cod (some sender) now =
    let job = JobRef.delivery_job delivery in
    plain_entry driver EntryType.delivery_cod_liability job cod (pos 0 -ℤ pos cod) now
    ∷ plain_entry sender EntryType.parcel_cod_credit job cod (pos cod) now
    ∷ []

pub delivery_entries : (driver delivery fare cod : ℕ) → Option ℕ → (now : ℕ) → List LedgerEntry
unfolding split_fare split_entry cod_entries
delivery_entries driver delivery fare cod sender now =
    let job = JobRef.delivery_job delivery in
    split_entry driver EntryType.delivery_payout job (split_fare fare default_rate) now
    ∷ (if ltb 0 cod then cod_entries driver delivery cod sender now else [])

-- `recordDeliveryPayout`
unfoldable pub record_delivery_payout :
    (driver delivery fare : ℕ) → Option ℕ → Option ℕ → (now : ℕ) → Action Ledger (Unit {0})
unfolding delivery_entries commit transaction
record_delivery_payout driver delivery fare cod sender now =
    commit (delivery_entries driver delivery fare (or_zero cod) sender now)

pub food_order_entries :
    (driver owner order delivery_fee items_total rate now : ℕ) → List LedgerEntry
unfolding split_fare split_entry
food_order_entries driver owner order delivery_fee items_total rate now =
    let job = JobRef.food_order_job order in
    split_entry driver EntryType.food_order_driver_payout job (split_fare delivery_fee default_rate)
      now
    ∷ split_entry owner EntryType.food_order_restaurant_payout job (split_fare items_total rate) now
    ∷ []

-- `recordFoodOrderPayouts`
unfoldable pub record_food_order_payouts :
    (driver owner order delivery_fee items_total rate now : ℕ) → Action Ledger (Unit {0})
unfolding food_order_entries commit transaction
record_food_order_payouts driver owner order delivery_fee items_total rate now =
    commit (food_order_entries driver owner order delivery_fee items_total rate now)

-- `recordErrandPayout`
unfoldable pub record_errand_payout : (driver errand service_fee now : ℕ) → Action Ledger (Unit {0})
unfolding split_fare split_entry commit transaction
record_errand_payout driver errand service_fee now = commit (
    split_entry driver EntryType.errand_payout (JobRef.errand_job errand)
      (split_fare service_fee default_rate) now
    ∷ [])

-- `topUp`
unfoldable pub top_up : (user amount now : ℕ) → Action Ledger (Unit {0})
unfolding plain_entry commit transaction
top_up user amount now =
    commit (plain_entry user EntryType.wallet_topup JobRef.no_job amount (pos amount) now ∷ [])
