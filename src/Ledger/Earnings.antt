-- ===== src/Ledger/Earnings.antt =====
-- `getDriverEarnings`: the totals of today and this week, and one bar for each day of the week.
-- The starts of the day, of the week and of the last week come from the server's calendar and are
-- arguments.
use mathlib.Core.Path.{subst}
use novax_backend.Common.{
  ℕ, zero, suc, ◌+◌, ◌-◌, ◌*◌, ◌/◌, ◌≤◌, ◌<◌, ◌≡◌, refl, sym, ap, ◌∙◌, inl, inr, Bool, true, false,
  ◌&&◌, Bool-cases, List, [], ◌∷◌, arith, ltb, leb, ◌==◌, if◌then◌else◌, keep, length, All,
  keep-true, keep-false,
}
use novax_backend.Common.Int.{ℤ, pos, ◌+ℤ◌, +ℤ_assoc, int_laws}
use novax_backend.Schema.Enums.{EntryType}
use novax_backend.Schema.Rows.{LedgerEntry}
use novax_backend.Ledger.{Ledger}
use novax_backend.Ledger.Balance.{balance_of}

-- `PAYOUT_TYPES`
is_payout : EntryType → Bool
is_payout EntryType.trip_payout = true
is_payout EntryType.delivery_payout = true
is_payout EntryType.food_order_driver_payout = true
is_payout EntryType.errand_payout = true
is_payout _ = false

-- `where: { userId, type: { in: PAYOUT_TYPES }, createdAt: { gte: since } }`
unfoldable pub earning_rows : (user since : ℕ) → Ledger → List LedgerEntry
unfolding is_payout
earning_rows user since l =
    keep (λ e. e.user_id == user && (is_payout e.entry_type && leb since e.created_at)) l

-- `_sum: { netAmount: true }` of a selection
pub sum_net : List LedgerEntry → ℤ
sum_net [] = pos 0
sum_net (e ∷ l) = e.net_amount +ℤ sum_net l

pub record Day : Type 0 where
  pub amount : ℤ
  pub jobs : ℕ

abbrev pub day_ms : ℕ
day_ms = 86_400_000

abbrev empty_day : Day
empty_day = record { amount = pos 0; jobs = 0 }

-- Seven empty days, Sunday first.
abbrev empty_week : List Day
empty_week = empty_day ∷ empty_day ∷ empty_day ∷ empty_day ∷ empty_day ∷ empty_day ∷ empty_day ∷ []

-- `daily[idx].amount += amount; daily[idx].jobs += 1`, and nothing past the end
bump : ℕ → ℤ → List Day → List Day
bump i a [] = []
bump zero a (d ∷ days) = record { amount = d.amount +ℤ a; jobs = d.jobs + 1 } ∷ days
bump (suc i) a (d ∷ days) = d ∷ bump i a days

pub record Tally : Type 0 where
  pub last_week : ℤ
  pub daily : List Day

-- The body of the loop over the rows of the last fortnight.
pub count_row : ℕ → LedgerEntry → Tally → Tally
unfolding bump
count_row start_of_week row t =
    if ltb row.created_at start_of_week
    then record t { last_week = t.last_week +ℤ row.net_amount }
    else record t {
      daily = bump ((row.created_at - start_of_week) / day_ms) row.net_amount t.daily;
    }

pub tally : ℕ → List LedgerEntry → Tally → Tally
tally start_of_week [] t = t
tally start_of_week (row ∷ rows) t = tally start_of_week rows (count_row start_of_week row t)

pub record Earnings : Type 0 where
  pub today : ℤ
  pub week : ℤ
  pub jobs_today : ℕ
  pub jobs_this_week : ℕ
  pub balance : ℤ
  pub daily : List Day
  pub last_week : ℤ
  pub today_index : ℕ

unfoldable pub get_driver_earnings :
    (start_of_day start_of_week start_of_last_week user : ℕ) → Ledger → Earnings
unfolding earning_rows sum_net tally
get_driver_earnings start_of_day start_of_week start_of_last_week user l =
    let today = earning_rows user start_of_day l in
    let week = earning_rows user start_of_week l in
    let counted =
      tally start_of_week (earning_rows user start_of_last_week l)
        (record { last_week = pos 0; daily = empty_week }) in
    record {
      today = sum_net today;
      week = sum_net week;
      jobs_today = length today;
      jobs_this_week = length week;
      balance = balance_of user l;
      daily = counted.daily;
      last_week = counted.last_week;
      today_index = (start_of_day - start_of_week) / day_ms;
    }

abbrev pub total_amount : List Day → ℤ
total_amount [] = pos 0
total_amount (d ∷ days) = d.amount +ℤ total_amount days

abbrev pub total_jobs : List Day → ℕ
total_jobs [] = 0
total_jobs (d ∷ days) = d.jobs + total_jobs days

bump_totals :
    (i : ℕ) (a : ℤ) (days : List Day)
    → i < length days
    → (total_amount (bump i a days) ≡ total_amount days +ℤ a)
      × (total_jobs (bump i a days) ≡ total_jobs days + 1)
      × (length (bump i a days) ≡ length days)
unfolding bump
bump_totals i a [] h = absurd (omega arith)
bump_totals zero a (d ∷ days) h = (omega int_laws, omega arith, refl)
bump_totals (suc i) a (d ∷ days) h =
    let (x, y, z) = bump_totals i a days (omega arith) in
    (rw x (omega int_laws), omega (arith, y), ap suc z)

abbrev pub since_week : ℕ → List LedgerEntry → List LedgerEntry
since_week start = keep (λ e. leb start e.created_at)

-- No row is dated past the week.
abbrev pub InWeek : ℕ → List LedgerEntry → Type 0
InWeek start = All (λ (e : LedgerEntry). e.created_at < start + 7 * day_ms)

count_row_old :
    (start : ℕ) (row : LedgerEntry) (t : Tally)
    → ltb row.created_at start ≡ true
    → count_row start row t ≡ record t { last_week = t.last_week +ℤ row.net_amount }
unfolding count_row
count_row_old start row t e = rw e

count_row_new :
    (start : ℕ) (row : LedgerEntry) (t : Tally)
    → ltb row.created_at start ≡ false
    → count_row start row t
      ≡ record t { daily = bump ((row.created_at - start) / day_ms) row.net_amount t.daily }
unfolding count_row
count_row_new start row t e = rw e

-- What the loop has added to the bars `days`, from the rows `kept`.
abbrev Totals : List Day → List LedgerEntry → Tally → Type 0
Totals days kept t =
    (total_amount t.daily ≡ total_amount days +ℤ sum_net kept)
    × (total_jobs t.daily ≡ total_jobs days + length kept)

abbrev in_week : ℕ → LedgerEntry → Bool
in_week start e = leb start e.created_at

tally-Totals :
    (start : ℕ) (rows : List LedgerEntry) (t : Tally)
    → length t.daily ≡ 7
    → InWeek start rows
    → Totals t.daily (since_week start rows) (tally start rows t)
unfolding tally sum_net
tally-Totals start [] t seven h = (omega int_laws, omega arith)
tally-Totals start (row ∷ rows) t seven h = elim (Bool-cases (ltb row.created_at start)) [
  | inl old ↦
      let t' : Tally = record t { last_week = t.last_week +ℤ row.net_amount } in
      subst (λ c. Totals t.daily (since_week start (row ∷ rows)) (tally start rows c))
        (sym (count_row_old start row t old))
        (subst (λ k. Totals t.daily k (tally start rows t'))
          (sym (keep-false (in_week start) row rows (ground arith)))
          (tally-Totals start rows t' seven h.1))
  | inr new ↦
      let i : ℕ = (row.created_at - start) / day_ms in
      let first = h.0 in
      let (x, y, z) = bump_totals i row.net_amount t.daily (omega (arith, seven)) in
      let t' : Tally = record t { daily = bump i row.net_amount t.daily } in
      let (p, q) = tally-Totals start rows t' (z ∙ seven) h.1 in
      subst (λ c. Totals t.daily (since_week start (row ∷ rows)) (tally start rows c))
        (sym (count_row_new start row t new))
        (subst (λ k. Totals t.daily k (tally start rows t'))
          (sym (keep-true (in_week start) row rows (ground arith)))
          (
            p ∙ ap (λ a. a +ℤ sum_net (since_week start rows)) x ∙ +ℤ_assoc _ _ _,
            omega (arith, q, y),
          ))
]

-- The rows of this week are those of the longer window that are dated in it.
since_week-earning_rows :
    (user start long : ℕ) (l : Ledger)
    → long ≤ start
    → since_week start (earning_rows user long l) ≡ earning_rows user start l
unfolding earning_rows
since_week-earning_rows user start long [] h = refl
since_week-earning_rows user start long (e ∷ l) h =
    ground (arith, since_week-earning_rows user start long l h)

empty_week_amount : total_amount empty_week ≡ pos 0
unfolding ◌+ℤ◌
empty_week_amount = refl

-- When no earning is dated past the end of the week, the seven bars of the week add up to the
-- week's total, and their jobs to the week's number of jobs.
pub daily_bars_add_up :
    (start_of_day start_of_week start_of_last_week user : ℕ) (l : Ledger)
    → start_of_last_week ≤ start_of_week
    → InWeek start_of_week (earning_rows user start_of_last_week l)
    → let e = get_driver_earnings start_of_day start_of_week start_of_last_week user l in
      (total_amount e.daily ≡ e.week) × (total_jobs e.daily ≡ e.jobs_this_week)
unfolding get_driver_earnings
daily_bars_add_up start_of_day start_of_week start_of_last_week user l h dated =
    let counted : Tally =
      tally start_of_week (earning_rows user start_of_last_week l)
        (record { last_week = pos 0; daily = empty_week }) in
    let (x, y) =
      tally-Totals start_of_week (earning_rows user start_of_last_week l)
        (record { last_week = pos 0; daily = empty_week }) refl dated in
    let e = since_week-earning_rows user start_of_week start_of_last_week l h in
    (
      subst (λ r. total_amount counted.daily ≡ total_amount empty_week +ℤ sum_net r) e x
          ∙ rw empty_week_amount (omega int_laws),
      subst (λ r. total_jobs counted.daily ≡ length r) e (omega (arith, y)),
    )
