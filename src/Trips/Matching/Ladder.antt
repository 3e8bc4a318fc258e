-- ===== src/Trips/Matching/Ladder.antt =====
-- The escalation ladder of a trip that nobody takes: `escalateIfStuck`.
use novax_backend.Common.{
  ℕ, ◌-◌, ◌≤◌, ◌≡◌, ◌⊎◌, true, false, ◌&&◌, some, arith, is_none, leb, if◌then◌else◌,
}
use novax_backend.Common.Action.{ok}
use novax_backend.Common.Table.{find, find-update_self}
use novax_backend.Schema.Rows.{Trip}
use novax_backend.Schema.Db.{Db}
use novax_backend.Trips.{is_searching}
use novax_backend.Trips.Matching.{
  ops_alert_ms, ops_escalate_ms, alerted, escalated, escalate_if_stuck,
}

-- What the ladder does to a row `t`, which becomes `t'`.
pub record IsLadderStep (now : ℕ) (t t' : Trip) : Type 0 where
  pub alert_kept : (a : ℕ) → t.ops_alerted_at ≡ some a → t'.ops_alerted_at ≡ some a
  pub escalation_kept : (a : ℕ) → t.ops_escalated_at ≡ some a → t'.ops_escalated_at ≡ some a
  pub alert_due :
      is_searching t.status ≡ true
      → ops_alert_ms ≤ now - t.requested_at
      → is_none t.ops_escalated_at ≡ true
      → is_none t'.ops_alerted_at ≡ false
  pub escalation_due :
      is_searching t.status ≡ true
      → ops_escalate_ms ≤ now - t.requested_at
      → is_none t'.ops_escalated_at ≡ false
  pub not_early :
      (t' ≡ t)
      ⊎ (is_searching t.status ≡ true)
        × (ops_alert_ms ≤ now - t.requested_at)
        × (t'.status ≡ t.status)
  pub escalation_not_early :
      (t'.ops_escalated_at ≡ t.ops_escalated_at) ⊎ (ops_escalate_ms ≤ now - t.requested_at)
  pub rest_kept : (t'.status ≡ t.status) × (t'.driver_id ≡ t.driver_id) × (t'.fare ≡ t.fare)

-- The row that the ladder leaves.
abbrev pub ladder : ℕ → Trip → Trip
ladder now t =
    if is_searching t.status
    then if leb ops_escalate_ms (now - t.requested_at) && is_none t.ops_escalated_at
      then escalated now t
      else if leb ops_alert_ms (now - t.requested_at) && is_none t.ops_alerted_at
      then alerted now t
      else t
    else t

pub escalate_row :
    (k now : ℕ) (db : Db) (t : Trip)
    → find k db.trips ≡ some t
    → find k (escalate_if_stuck k now db).1.trips ≡ some (ladder now t)
unfolding escalate_if_stuck
escalate_row k now db t e = ground (
  arith,
  find-update_self k (escalated now) db.trips t e,
  find-update_self k (alerted now) db.trips t e,
)

pub escalate-ok : (k now : ℕ) (db : Db) → (escalate_if_stuck k now db).0 ≡ ok tt
unfolding escalate_if_stuck
escalate-ok k now db = ground arith

ladder_step : (now : ℕ) (t : Trip) → IsLadderStep now t (ladder now t)
ladder_step now t = record {
  alert_kept = λ a e. ground arith;
  escalation_kept = λ a e. ground arith;
  alert_due = λ s w n. ground arith;
  escalation_due = λ s w. ground arith;
  not_early = ground arith;
  escalation_not_early = ground arith;
  rest_kept = ground arith;
}

-- For every trip and time: a stamp of the ladder that is set is never changed; a trip still looking
-- is escalated once it has waited three minutes, and has its alert once it has waited ninety
-- seconds and is not escalated; neither happens before its time or to a trip that is not looking;
-- and the status, the driver and the fare stay as they are.
pub escalate_if_stuck-IsLadderStep :
    (k now : ℕ) (db : Db) (t : Trip)
    → find k db.trips ≡ some t
    → (t' : Trip) × (find k (escalate_if_stuck k now db).1.trips ≡ some t') × IsLadderStep now t t'
escalate_if_stuck-IsLadderStep k now db t e =
    (ladder now t, escalate_row k now db t e, ladder_step now t)
