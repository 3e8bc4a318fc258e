-- ===== src/Location/Status.antt =====
-- `getDriverStatus` of location/location.service.ts: whether a driver is told that they receive
-- jobs, and what stands in the way. What it says about the device is left out.
use novax_backend.Common.{
  ℕ, ◌-◌, ◌≡◌, Bool, true, false, not, ◌&&◌, ◌||◌, ◌==◌, Option, none, some, List, [], ◌∷◌, ◌++◌,
  arith, ltb,
}
use novax_backend.Common.Table.{find}
use novax_backend.Schema.Enums.{Role}
use novax_backend.Schema.Rows.{User, DriverProfile}
use novax_backend.Schema.Db.{Db}
use novax_backend.Location.{
  Redis, max_fix_age_ms, is_fresh, is_allowed, online, is_approved, on_a_job, over_credit_limit,
  held_back,
}

pub data Blocker : Type 0 where
  suspended documents offline no_fix no_heartbeat commission_limit : Blocker

abbrev heartbeat_stale_ms : ℕ
heartbeat_stale_ms = 60_000

-- `!at || now - at > age`
out_of_date : (age now : ℕ) → Option ℕ → Bool
out_of_date age now none = true
out_of_date age now (some at_time) = at_time == 0 || ltb age (now - at_time)

is_suspended : Option User → Bool
is_suspended none = true
is_suspended (some u) = not u.is_active

lacks_documents : Option User → Bool
unfolding is_approved
lacks_documents none = true
lacks_documents (some u) = not (is_approved u.kyc_status)

heartbeat_of : Option DriverProfile → Option ℕ
heartbeat_of none = none
heartbeat_of (some p) = p.last_heartbeat_at

blocker_if : Bool → Blocker → List Blocker
blocker_if true b = b ∷ []
blocker_if false b = []

-- `blockers`
pub blockers : (limit now : ℕ) → Db → Redis → ℕ → List Blocker
unfolding out_of_date is_suspended lacks_documents heartbeat_of blocker_if online over_credit_limit
blockers limit now db redis d =
    blocker_if (is_suspended (find d db.users)) Blocker.suspended
    ++ blocker_if (lacks_documents (find d db.users)) Blocker.documents
    ++ blocker_if (not (online (find d db.profiles))) Blocker.offline
    ++ blocker_if (out_of_date max_fix_age_ms now (find d redis.last_seen)) Blocker.no_fix
    ++ blocker_if (out_of_date heartbeat_stale_ms now (heartbeat_of (find d db.profiles)))
        Blocker.no_heartbeat
    ++ blocker_if (over_credit_limit limit db.ledger d) Blocker.commission_limit

is_empty : List Blocker → Bool
is_empty [] = true
is_empty (_ ∷ _) = false

-- `receivingJobs`
unfoldable pub receiving_jobs : (limit now : ℕ) → Db → Redis → ℕ → Bool
unfolding is_empty blockers
receiving_jobs limit now db redis d = is_empty (blockers limit now db redis d)

-- A driver who is told that they receive jobs, has the role of one and is on no job passes every
-- test of the search for their own fleet.
pub receiving_jobs-passes :
    (limit now : ℕ) (db : Db) (redis : Redis) (d : ℕ) (u : User)
    → receiving_jobs limit now db redis d ≡ true
    → find d db.users ≡ some u
    → u.role ≡ Role.driver
    → on_a_job db d ≡ false
    → (is_fresh now redis d && (is_allowed u.is_test_account db d && not (held_back limit db d)))
      ≡ true
unfolding receiving_jobs is_fresh is_allowed
receiving_jobs-passes limit now db redis d u told e r free = ground arith
