-- ===== src/Cancellation.antt =====
-- trips/cancellation.util.ts: what a cancellation costs, and who it counts against. Times are
-- milliseconds and fees whole rupees; the sentences for the receipt are a data type.
pub mod Charges
mod Tests
use novax_backend.Common.{ℕ, ◌+◌, Bool, true, false, Option, some, ltb, if◌then◌else◌}
use novax_backend.Schema.Enums.{Actor, TripStatus}

pub record CancellationPolicy : Type 0 where
  pub rider_late_fee : ℕ
  pub grace_ms : ℕ

-- `CANCELLATION_POLICY`
abbrev pub pilot_policy : CancellationPolicy
pilot_policy = record { rider_late_fee = 0; grace_ms = 30_000 }

pub record CancellationContext : Type 0 where
  pub cancelled_by : Actor
  pub status : TripStatus
  pub matched_at : Option ℕ
  pub is_test : Bool
  pub now : ℕ

-- The sentence of each branch.
pub data Reason : Type 0 where
  test_trip rider_cancelled before_accept straight_after on_the_way_free : Reason
  fee_applies : ℕ → Reason

pub record CancellationOutcome : Type 0 where
  pub fee : ℕ
  pub reason : Reason
  pub counts_against_driver : Bool

abbrev pub is_matched : TripStatus → Bool
is_matched TripStatus.matched = true
is_matched _ = false

-- The customer's cancellation of a trip that was accepted at `matched_at`.
late_outcome : CancellationPolicy → ℕ → ℕ → CancellationOutcome
late_outcome policy matched_at now =
    if ltb now (matched_at + policy.grace_ms)
    then record { fee = 0; reason = Reason.straight_after; counts_against_driver = false }
    else record {
      fee = policy.rider_late_fee;
      reason =
          if ltb 0 policy.rider_late_fee
          then Reason.fee_applies policy.rider_late_fee
          else Reason.on_the_way_free;
      counts_against_driver = false;
    }

-- `acceptedYet`, and the branches below it
rider_outcome : CancellationPolicy → TripStatus → Option ℕ → ℕ → CancellationOutcome
unfolding late_outcome
rider_outcome policy TripStatus.matched (some t) now = late_outcome policy t now
rider_outcome policy _ _ now = record {
  fee = 0;
  reason = Reason.before_accept;
  counts_against_driver = false;
}

by_actor : CancellationPolicy → CancellationContext → Actor → CancellationOutcome
unfolding rider_outcome
by_actor policy ctx Actor.driver = record {
  fee = 0;
  reason = Reason.rider_cancelled;
  counts_against_driver = is_matched ctx.status;
}
by_actor policy ctx Actor.rider = rider_outcome policy ctx.status ctx.matched_at ctx.now

unfoldable pub assess_cancellation : CancellationPolicy → CancellationContext → CancellationOutcome
unfolding by_actor
assess_cancellation policy ctx =
    if ctx.is_test
    then record { fee = 0; reason = Reason.test_trip; counts_against_driver = false }
    else by_actor policy ctx ctx.cancelled_by
