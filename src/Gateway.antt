-- ===== src/Gateway.antt =====
-- location/location.gateway.ts: the sockets of the apps.
--
-- A socket's token has been verified by jsonwebtoken, so that what connects is a payload or
-- nothing. Coordinates and the event that tells a driver that they are turned away are left out.
pub mod Rooms
pub mod Reconnect
mod Tests
use novax_backend.Common.{
  ℕ, Bool, true, false, not, ◌&&◌, ◌||◌, ◌==◌, Option, none, some, List, [], ◌∷◌, keep, is_none,
  is_some_of, if◌then◌else◌,
}
use novax_backend.Common.Table.{Table, find, find_many, create, update, delete_many}
use novax_backend.Schema.Enums.{Role}
use novax_backend.Schema.Rows.{User, DriverProfile, Trip}
use novax_backend.Schema.Db.{Db}
use novax_backend.Accounts.Sessions.{JwtPayload}
use novax_backend.Accounts.Signup.{no_documents, default_profile}
use novax_backend.Location.{Redis, is_approved, remove_driver, update_driver_location}

pub record Socket : Type 0 where
  pub user_id : ℕ
  pub role : Role
  pub rooms : List ℕ

-- `moved` has what was sent to the rooms: a trip and its driver.
pub record World : Type 0 where
  pub db : Db
  pub redis : Redis
  pub sockets : Table Socket
  pub moved : List (ℕ × ℕ)

abbrev pub is_driver : Role → Bool
is_driver Role.driver = true
is_driver _ = false

-- `user?.isActive && user.kycStatus === "APPROVED"`
abbrev pub may_go_online : Option User → Bool
may_go_online none = false
may_go_online (some u) = u.is_active && is_approved u.kyc_status

abbrev pub with_online : Bool → DriverProfile → DriverProfile
with_online is_online p = record p { is_online = is_online }

-- The upsert of the profile.
abbrev pub go_online : (user : ℕ) → Db → Db
go_online user db = record db {
  profiles =
      if is_none (find user db.profiles)
      then create user (with_online true (default_profile no_documents)) db.profiles
      else update user (with_online true) db.profiles;
}

-- What a driver's disconnection does.
unfoldable pub off_duty : (user : ℕ) → World → World
off_duty user w = record w {
  db = record w.db { profiles = update user (with_online false) w.db.profiles };
  redis = remove_driver user w.redis;
}

abbrev pub join : (socket : ℕ) → JwtPayload → World → World
join socket payload w = record w {
  sockets =
      create socket (record { user_id = payload.sub; role = payload.role; rooms = [] }) w.sockets;
}

-- A driver who is turned away is disconnected, which runs `handleDisconnect`.
unfoldable pub handle_connection : (socket : ℕ) → Option JwtPayload → World → World
unfolding off_duty
handle_connection socket none w = w
handle_connection socket (some payload) w =
    if is_driver payload.role
    then if may_go_online (find payload.sub w.db.users)
      then join socket payload (record w { db = go_online payload.sub w.db })
      else off_duty payload.sub w
    else join socket payload w

abbrev pub same_socket : (socket row : ℕ) → Socket → Bool
same_socket socket row _ = row == socket

abbrev pub leave_all : (socket : ℕ) → World → World
leave_all socket w = record w { sockets = delete_many (same_socket socket) w.sockets }

abbrev pub gone : (socket : ℕ) → Option Socket → World → World
gone socket none w = w
gone socket (some s) w =
    if is_driver s.role then off_duty s.user_id (leave_all socket w) else leave_all socket w

unfoldable pub handle_disconnect : (socket : ℕ) → World → World
unfolding off_duty
handle_disconnect socket w = gone socket (find socket w.sockets) w

-- `trip?.driverId === client.userId`
abbrev pub drives : (user : ℕ) → Option Trip → Bool
drives user none = false
drives user (some t) = is_some_of user t.driver_id

abbrev pub broadcast_to : (trip : Option ℕ) → (user : ℕ) → World → World
broadcast_to none user w = w
broadcast_to (some k) user w =
    if drives user (find k w.db.trips) then record w { moved = (k, user) ∷ w.moved } else w

abbrev pub ping : (now : ℕ) (trip : Option ℕ) → Option Socket → World → World
ping now trip none w = w
ping now trip (some s) w =
    if is_driver s.role
    then broadcast_to trip s.user_id
        (record w { redis = update_driver_location s.user_id now w.redis })
    else w

unfoldable pub on_driver_location : (socket now : ℕ) (trip : Option ℕ) → World → World
on_driver_location socket now trip w = ping now trip (find socket w.sockets) w

-- `trip.riderId === client.userId || trip.driverId === client.userId`
abbrev pub rides : (user : ℕ) → Option Trip → Bool
rides user none = false
rides user (some t) = t.rider_id == user || is_some_of user t.driver_id

abbrev pub in_room : (trip : ℕ) → Socket → Socket
in_room k s = record s { rooms = k ∷ s.rooms }

abbrev pub out_of_room : (trip : ℕ) → Socket → Socket
out_of_room k s = record s { rooms = keep (λ j. not (j == k)) s.rooms }

abbrev pub subscribe : (socket trip : ℕ) → Option Socket → World → World
subscribe socket k none w = w
subscribe socket k (some s) w =
    if rides s.user_id (find k w.db.trips)
    then record w { sockets = update socket (in_room k) w.sockets }
    else w

unfoldable pub on_trip_subscribe : (socket trip : ℕ) → World → World
on_trip_subscribe socket k w = subscribe socket k (find socket w.sockets) w

unfoldable pub on_trip_unsubscribe : (socket trip : ℕ) → World → World
on_trip_unsubscribe socket k w = record w { sockets = update socket (out_of_room k) w.sockets }

-- The sockets that an event for a user reaches.
unfoldable pub emit_to_user : (user : ℕ) → World → List (ℕ × Socket)
emit_to_user user w = find_many (λ _ s. s.user_id == user) w.sockets
