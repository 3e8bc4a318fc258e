-- ===== src/Schema/Db.antt =====
-- The state that the services share: the tables, the sets of excluded drivers in Redis, the audit
-- trail of trips, and what was sent to the apps.
use novax_backend.Common.{ℕ, Option, List, ◌++◌, ◌∷◌}
use novax_backend.Common.Action.{Action, ok}
use novax_backend.Common.Table.{Table, update}
pub use novax_backend.Schema.Enums.{MatchScope}
use novax_backend.Schema.Rows.{
  User, DriverProfile, Trip, Delivery, Restaurant, MenuItem, FoodOrder, Errand, LedgerEntry, Rating,
  OtpCode, RefreshToken, ChatMessage, Incident,
}

-- The types of a `tripEvent` row.
pub data EventType : Type 0 where
  requested quoted offered declined accepted arrived started completed cancelled : EventType
  fare_drift no_driver ops_alerted ops_escalated : EventType

pub record TripEvent : Type 0 where
  pub trip_id : ℕ
  pub event_type : EventType
  pub actor_id : Option ℕ

-- What a message is about: the socket's event, or the push notification.
pub data Topic : Type 0 where
  offer offer_taken matched driver_arrived started completed cancelled : Topic
  accepted ready shopping ops_escalated ops_watching picked_up in_transit delivered : Topic
  push_offer push_matched push_arrived push_completed manually_assigned : Topic
  chat_message chat_read : Topic

-- To one user, or to everybody.
pub record Message : Type 0 where
  pub to : Option ℕ
  pub topic : Topic
  pub scope : MatchScope
  pub job : ℕ

-- `revoked` has the keys `auth:revoked:<user>` of Redis with the times at which they expire,
-- and `alerts` the events `incident:new`: an administrator and an incident.
pub record Db : Type 0 where
  pub users : Table User
  pub profiles : Table DriverProfile
  pub trips : Table Trip
  pub deliveries : Table Delivery
  pub restaurants : Table Restaurant
  pub menu_items : Table MenuItem
  pub food_orders : Table FoodOrder
  pub errands : Table Errand
  pub ledger : List LedgerEntry
  pub excluded : List (MatchScope × ℕ × ℕ)
  pub events : List TripEvent
  pub sent : List Message
  pub ratings : Table Rating
  pub otp_codes : Table OtpCode
  pub refresh_tokens : Table RefreshToken
  pub revoked : List (ℕ × ℕ)
  pub chat_messages : Table ChatMessage
  pub incidents : Table Incident
  pub alerts : List (ℕ × ℕ)

abbrev pub send : List Message → Action Db (Unit {0})
send ms db = (ok tt, record db { sent = ms ++ db.sent })

-- `recordEvent`
abbrev pub record_event : TripEvent → Action Db (Unit {0})
record_event e db = (ok tt, record db { events = e ∷ db.events })

abbrev pub set_profile : ℕ → (DriverProfile → DriverProfile) → Action Db (Unit {0})
set_profile user f db = (ok tt, record db { profiles = update user f db.profiles })

-- A method of the ledger, run on its table.
abbrev pub with_ledger : {A : Type 0} → Action (List LedgerEntry) A → Action Db A
with_ledger m db = let (r, l) = m db.ledger in (r, record db { ledger = l })
