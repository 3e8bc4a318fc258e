-- ===== src/Ledger/Payouts.antt =====
-- What each payout of ledger/ledger.service.ts moves.
use novax_backend.Common.{
  ℕ, ◌≡◌, refl, ap, ◌∙◌, ◌⊎◌, inl, inr, false, Bool-cases, Option, none, some, arith, ◌==◌, ltb,
  if◌then◌else◌, Option-cases,
}
use novax_backend.Common.Int.{ℤ, pos, ◌+ℤ◌, ◌-ℤ◌, int_laws}
use novax_backend.Common.Action.{Result, ok, err, db_error}
use novax_backend.Ledger.{
  Ledger, default_rate, split_fare, trip_entries, trip_payout_entry, trip_cash_entries,
  delivery_entries, food_order_entries, cod_entries, or_zero, record_trip_payout,
  record_delivery_payout, record_food_order_payouts, transaction, commit,
}
use novax_backend.Ledger.Balance.{balance_of, balance_of-transaction}

-- `z` for the user and nothing for any other.
abbrev pub share : ℕ → ℤ → ℕ → ℤ
share user z u = if user == u then z else pos 0

-- What the sender is credited with.
abbrev pub credit : Option ℕ → ℕ → ℕ → ℤ
credit none cod u = pos 0
credit (some sender) cod u = share sender (pos cod) u

-- Either all balances move by `delta` or the database refused the entries and nothing moves.
abbrev pub Moves : Ledger → (ℕ → ℤ) → Result (Unit {0}) × Ledger → Type 0
Moves l delta (r, l') =
    (r ≡ ok tt) × ((u : ℕ) → balance_of u l' ≡ balance_of u l +ℤ delta u)
    ⊎ (r ≡ err db_error) × (l' ≡ l)

commit-Moves :
    (es l : Ledger) (delta : ℕ → ℤ)
    → ((u : ℕ) → balance_of u es ≡ delta u)
    → Moves l delta (commit es l)
unfolding commit
commit-Moves es l delta h = elim (Option-cases (transaction es l)) [
  | inl e ↦ rw (e, commit) (inr (refl, refl))
  | inr (l', e) ↦
      rw (e, commit)
        (inl (refl, λ u. balance_of-transaction u es l l' e ∙ ap (λ z. balance_of u l +ℤ z) (h u)))
]

trip_entries-delta :
    (driver trip fare tip now u : ℕ)
    → balance_of u (trip_entries driver trip fare tip now)
      ≡ share driver (pos tip -ℤ pos (split_fare fare default_rate).commission_amount) u
unfolding trip_entries trip_payout_entry trip_cash_entries balance_of
trip_entries-delta driver trip fare tip now u = elim (Bool-cases (driver == u)) [
  | inl e ↦ elim (Bool-cases (ltb 0 tip)) [
    | inl t ↦ rw (t, e) (omega int_laws)
    | inr t ↦ let z : tip ≡ 0 = ground arith in rw (t, e) (omega int_laws)
  ]
  | inr e ↦ elim (Bool-cases (ltb 0 tip)) [ inl t ↦ rw (t, e) | inr t ↦ rw (t, e) ]
]

cod_entries-delta :
    (driver delivery cod : ℕ) (sender : Option ℕ) (now u : ℕ)
    → balance_of u (cod_entries driver delivery cod sender now)
      ≡ share driver (pos 0 -ℤ pos cod) u +ℤ credit sender cod u
unfolding cod_entries balance_of
cod_entries-delta driver delivery cod none now u = elim (Bool-cases (driver == u)) [
  | inl e ↦ rw e (omega int_laws)
  | inr e ↦ rw e (omega int_laws)
]
cod_entries-delta driver delivery cod (some sender) now u = elim (Bool-cases (driver == u)) [
  | inl e ↦ elim (Bool-cases (sender == u)) [
    | inl t ↦ rw (e, t) (omega int_laws)
    | inr t ↦ rw (e, t) (omega int_laws)
  ]
  | inr e ↦ elim (Bool-cases (sender == u)) [
    | inl t ↦ rw (e, t) (omega int_laws)
    | inr t ↦ rw (e, t) (omega int_laws)
  ]
]

no_cash : (cod : ℕ) → ltb 0 cod ≡ false → cod ≡ 0
no_cash cod c = ground arith

no_credit : (sender : Option ℕ) (cod u : ℕ) → cod ≡ 0 → credit sender cod u ≡ pos 0
no_credit none cod u z = refl
no_credit (some sender) cod u z = ground arith

delivery_entries-delta :
    (driver delivery fare cod : ℕ) (sender : Option ℕ) (now u : ℕ)
    → balance_of u (delivery_entries driver delivery fare cod sender now)
      ≡ share driver ((split_fare fare default_rate).net_amount -ℤ pos cod) u +ℤ credit sender cod u
unfolding delivery_entries balance_of
delivery_entries-delta driver delivery fare cod sender now u = elim (Bool-cases (driver == u)) [
  | inl e ↦ elim (Bool-cases (ltb 0 cod)) [
    | inl c ↦ rw (c, e, cod_entries-delta driver delivery cod sender now u, e) (omega int_laws)
    | inr c ↦ rw (c, e, no_credit sender cod u (ground arith)) (omega (int_laws, no_cash cod c))
  ]
  | inr e ↦ elim (Bool-cases (ltb 0 cod)) [
    | inl c ↦ rw (c, e, cod_entries-delta driver delivery cod sender now u, e) (omega int_laws)
    | inr c ↦ rw (c, e, no_credit sender cod u (ground arith)) (omega int_laws)
  ]
]

food_order_entries-delta :
    (driver owner order delivery_fee items_total rate now u : ℕ)
    → balance_of u (food_order_entries driver owner order delivery_fee items_total rate now)
      ≡ share driver (split_fare delivery_fee default_rate).net_amount u
        +ℤ share owner (split_fare items_total rate).net_amount u
unfolding food_order_entries balance_of
food_order_entries-delta driver owner order delivery_fee items_total rate now u =
    elim (Bool-cases (driver == u)) [
      | inl e ↦ elim (Bool-cases (owner == u)) [
        | inl t ↦ rw (e, t) (omega int_laws)
        | inr t ↦ rw (e, t) (omega int_laws)
      ]
      | inr e ↦ elim (Bool-cases (owner == u)) [
        | inl t ↦ rw (e, t) (omega int_laws)
        | inr t ↦ rw (e, t) (omega int_laws)
      ]
    ]

-- A trip's payout moves the driver's balance by the tip less the commission, since the driver holds
-- the fare in cash, and no other balance; or it is refused and moves nothing.
pub record_trip_payout-Moves :
    (driver trip fare : ℕ) (tip : Option ℕ) (now : ℕ) (l : Ledger)
    → Moves l
        (share driver (pos (or_zero tip) -ℤ pos (split_fare fare default_rate).commission_amount))
        (record_trip_payout driver trip fare tip now l)
unfolding record_trip_payout
record_trip_payout-Moves driver trip fare tip now l =
    commit-Moves _ l _ (trip_entries-delta driver trip fare (or_zero tip) now)

-- A delivery's payout moves the driver's balance by the net fare less the cash on delivery, the
-- sender's, if one is recorded, by the cash on delivery, and no other; or it is refused and moves
-- nothing.
pub record_delivery_payout-Moves :
    (driver delivery fare : ℕ) (cod sender : Option ℕ) (now : ℕ) (l : Ledger)
    → Moves l
        (λ u.
          share driver ((split_fare fare default_rate).net_amount -ℤ pos (or_zero cod)) u
          +ℤ credit sender (or_zero cod) u)
        (record_delivery_payout driver delivery fare cod sender now l)
unfolding record_delivery_payout
record_delivery_payout-Moves driver delivery fare cod sender now l =
    commit-Moves _ l _ (delivery_entries-delta driver delivery fare (or_zero cod) sender now)

-- A food order's payout moves the driver's balance by the net delivery fee, the owner's by the
-- items less the restaurant's commission, and no other; or it is refused and moves nothing.
pub record_food_order_payouts-Moves :
    (driver owner order delivery_fee items_total rate now : ℕ) (l : Ledger)
    → Moves l
        (λ u.
          share driver (split_fare delivery_fee default_rate).net_amount u
          +ℤ share owner (split_fare items_total rate).net_amount u)
        (record_food_order_payouts driver owner order delivery_fee items_total rate now l)
unfolding record_food_order_payouts
record_food_order_payouts-Moves driver owner order delivery_fee items_total rate now l =
    commit-Moves _ l _
      (food_order_entries-delta driver owner order delivery_fee items_total rate now)
