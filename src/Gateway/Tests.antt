-- ===== src/Gateway/Tests.antt =====
-- Sockets at concrete connections.
use novax_backend.Common.{◌≡◌, refl, true, false, some, List, [], ◌∷◌, has, arith}
use novax_backend.Common.Table.{find}
use novax_backend.Schema.Enums.{Role}
use novax_backend.Fixtures.{matched_ride, state}
use novax_backend.Location.{is_allowed, is_approved, online}
use novax_backend.Gateway.{World, handle_connection, handle_disconnect}
use novax_backend.Gateway.Reconnect.{as_driver, socket_of, stale_disconnect_hides_driver}
use novax_backend.Gateway.Rooms.{Event, IsPrivate, handle_all, handle_all-IsPrivate}

abbrev quiet : World
quiet = record {
  db = state matched_ride;
  redis = record { geo = []; last_seen = [] };
  sockets = [];
  moved = [];
}

stale_disconnect_hides_driver_example :
    let w2 =
      handle_connection 61 (some (as_driver 2)) (handle_connection 60 (some (as_driver 2)) quiet) in
    let w3 = handle_disconnect 60 w2 in
    (online (find 2 w2.db.profiles) ≡ true)
    × (find 61 w3.sockets ≡ some (socket_of 2))
    × (is_allowed false w3.db 2 ≡ false)
    × (has 2 w3.redis.geo ≡ false)
unfolding find is_approved
stale_disconnect_hides_driver_example =
    stale_disconnect_hides_driver 60 61 2 false quiet (omega arith) refl

-- The rider watches, driver 2 moves, and driver 3 tries both.
abbrev traffic : List Event
traffic =
    Event.connects 50 (some (record { sub = 1; role = Role.rider }))
    ∷ Event.subscribes 50 10
    ∷ Event.connects 60 (some (as_driver 2))
    ∷ Event.pings 60 1_000_000 (some 10)
    ∷ Event.connects 70 (some (as_driver 3))
    ∷ Event.subscribes 70 10
    ∷ Event.pings 70 1_000_000 (some 10)
    ∷ []

handle_all-IsPrivate_example : IsPrivate (handle_all traffic quiet)
handle_all-IsPrivate_example = handle_all-IsPrivate traffic quiet (tt, tt)
