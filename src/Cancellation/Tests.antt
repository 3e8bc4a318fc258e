-- ===== src/Cancellation/Tests.antt =====
-- Cancellations of trips/cancellation.util.ts at concrete inputs.
use novax_backend.Common.{◌≡◌, refl, false, some}
use novax_backend.Schema.Enums.{Actor, TripStatus}
use novax_backend.Cancellation.{
  CancellationPolicy, CancellationContext, Reason, pilot_policy, assess_cancellation,
}

abbrev fee_of_thirty : CancellationPolicy
fee_of_thirty = record { rider_late_fee = 30; grace_ms = 30_000 }

abbrev late_customer : CancellationContext
late_customer = record {
  cancelled_by = Actor.rider;
  status = TripStatus.matched;
  matched_at = some 1000;
  is_test = false;
  now = 31_000;
}

late_customer_pays :
    (assess_cancellation fee_of_thirty late_customer).reason ≡ Reason.fee_applies 30
unfolding assess_cancellation
late_customer_pays = refl

pilot_is_free : (assess_cancellation pilot_policy late_customer).reason ≡ Reason.on_the_way_free
unfolding assess_cancellation
pilot_is_free = refl
