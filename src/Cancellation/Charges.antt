-- ===== src/Cancellation/Charges.antt =====
-- Who is charged for a cancellation of trips/cancellation.util.ts, and when.
use novax_backend.Common.{ℕ, ◌+◌, ◌≤◌, ◌<◌, ◌≡◌, refl, ◌↔◌, true, false, Option, none, some, arith}
use novax_backend.Schema.Enums.{Actor, TripStatus}
use novax_backend.Cancellation.{
  CancellationPolicy, CancellationContext, assess_cancellation, rider_outcome, pilot_policy,
}

-- When the customer is charged.
pub record IsChargeable (policy : CancellationPolicy) (ctx : CancellationContext) : Type 0 where
  pub real : ctx.is_test ≡ false
  pub by_customer : ctx.cancelled_by ≡ Actor.rider
  pub taken : ctx.status ≡ TripStatus.matched
  pub late : (t : ℕ) × (ctx.matched_at ≡ some t) × (t + policy.grace_ms ≤ ctx.now)
  pub fee_on : 0 < policy.rider_late_fee

rider_charged :
    (policy : CancellationPolicy) (status : TripStatus) (matched_at : Option ℕ) (now : ℕ)
    → 0 < (rider_outcome policy status matched_at now).fee
    → (status ≡ TripStatus.matched)
      × ((t : ℕ) × (matched_at ≡ some t) × (t + policy.grace_ms ≤ now))
      × (0 < policy.rider_late_fee)
unfolding rider_outcome
rider_charged policy TripStatus.matched (some t) now h =
    (refl, (t, refl, ground arith), ground arith)
rider_charged policy TripStatus.matched none now h = absurd (omega arith)
rider_charged policy TripStatus.requested _ now h = absurd (omega arith)
rider_charged policy TripStatus.matching _ now h = absurd (omega arith)
rider_charged policy TripStatus.in_progress _ now h = absurd (omega arith)
rider_charged policy TripStatus.completed _ now h = absurd (omega arith)
rider_charged policy TripStatus.cancelled _ now h = absurd (omega arith)

charged→IsChargeable :
    (policy : CancellationPolicy) (ctx : CancellationContext)
    → 0 < (assess_cancellation policy ctx).fee
    → IsChargeable policy ctx
unfolding assess_cancellation rider_outcome
charged→IsChargeable policy ctx h =
    let (taken, late, fee_on) =
      rider_charged policy ctx.status ctx.matched_at ctx.now (ground arith) in
    record {
      real = ground arith;
      by_customer = ground arith;
      taken = taken;
      late = late;
      fee_on = fee_on;
    }

IsChargeable→charged :
    (policy : CancellationPolicy) (ctx : CancellationContext)
    → IsChargeable policy ctx
    → (assess_cancellation policy ctx).fee ≡ policy.rider_late_fee
unfolding assess_cancellation
IsChargeable→charged policy ctx h = ground arith

-- A cancellation costs something exactly when a fee is configured, the trip is no test, the
-- customer cancels, a driver had accepted, and the grace window since then is over.
pub cancellation_charged_iff :
    (policy : CancellationPolicy) (ctx : CancellationContext)
    → (0 < (assess_cancellation policy ctx).fee) ↔ IsChargeable policy ctx
cancellation_charged_iff policy ctx = (
  charged→IsChargeable policy ctx,
  λ c. omega (arith, IsChargeable→charged policy ctx c, c.fee_on),
)

-- The fee is never more than the configured one, so it is zero under the pilot's policy; and a
-- cancellation counts against the driver exactly when the driver gave up a real trip that was
-- matched.
pub cancellation_limits :
    (policy : CancellationPolicy) (ctx : CancellationContext)
    → ((assess_cancellation policy ctx).fee ≤ policy.rider_late_fee)
      × ((assess_cancellation pilot_policy ctx).fee ≡ 0)
      × (((assess_cancellation policy ctx).counts_against_driver ≡ true) ↔ (
          (ctx.is_test ≡ false)
          × (ctx.cancelled_by ≡ Actor.driver)
          × (ctx.status ≡ TripStatus.matched)))
unfolding assess_cancellation
cancellation_limits policy ctx =
    (ground arith, ground arith, (λ h. ground arith, λ h. ground arith))
