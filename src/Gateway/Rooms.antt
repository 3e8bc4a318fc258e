-- ===== src/Gateway/Rooms.antt =====
-- Who is in the room of a trip.
use novax_backend.Common.{
  ℕ, ◌≡◌, refl, true, not, ◌==◌, Bool-cases, inl, inr, Option, some, none, List, [], ◌∷◌, keep, All,
}
use novax_backend.Common.Table.{Table, find, create, update, delete_many}
use novax_backend.Schema.Rows.{Trip}
use novax_backend.Accounts.Sessions.{JwtPayload}
use novax_backend.Gateway.{
  Socket, World, is_driver, may_go_online, off_duty, same_socket, gone, drives, rides, broadcast_to,
  ping, in_room, out_of_room, subscribe, handle_connection, handle_disconnect, on_driver_location,
  on_trip_subscribe, on_trip_unsubscribe,
}

-- The socket's user is one of the two people on the trip.
abbrev pub IsParty : Table Trip → Socket → (trip : ℕ) → Type 0
IsParty trips s k = rides s.user_id (find k trips) ≡ true

abbrev pub ArePrivate : Table Trip → Table Socket → Type 0
ArePrivate trips sockets = All (λ row. All (IsParty trips row.1) row.1.rooms) sockets

module _ (trips : Table Trip) where
  kept_rooms :
      (k : ℕ) (s : Socket) (rooms : List ℕ)
      → All (IsParty trips s) rooms
      → All (IsParty trips s) (keep (λ j. not (j == k)) rooms)
  kept_rooms k s [] h = tt
  kept_rooms k s (j ∷ rooms) (h, hs) = elim (Bool-cases (j == k)) [
    | inl e ↦ rw e (kept_rooms k s rooms hs)
    | inr e ↦ rw e (h, kept_rooms k s rooms hs)
  ]

  ArePrivate-delete :
      (socket : ℕ) (rows : Table Socket)
      → ArePrivate trips rows
      → ArePrivate trips (delete_many (same_socket socket) rows)
  unfolding delete_many
  ArePrivate-delete socket [] h = tt
  ArePrivate-delete socket ((i, s) ∷ rows) (h, hs) = elim (Bool-cases (i == socket)) [
    | inl e ↦ rw e (ArePrivate-delete socket rows hs)
    | inr e ↦ rw e (h, ArePrivate-delete socket rows hs)
  ]

  ArePrivate-leave :
      (socket k : ℕ) (rows : Table Socket)
      → ArePrivate trips rows
      → ArePrivate trips (update socket (out_of_room k) rows)
  unfolding update
  ArePrivate-leave socket k [] h = tt
  ArePrivate-leave socket k ((i, s) ∷ rows) (h, hs) = elim (Bool-cases (i == socket)) [
    | inl e ↦ rw e (kept_rooms k s s.rooms h, hs)
    | inr e ↦ rw e (h, ArePrivate-leave socket k rows hs)
  ]

  ArePrivate-enter :
      (socket k : ℕ) (rows : Table Socket) (s : Socket)
      → find socket rows ≡ some s
      → IsParty trips s k
      → ArePrivate trips rows
      → ArePrivate trips (update socket (in_room k) rows)
  unfolding find update
  ArePrivate-enter socket k [] s e p h = tt
  ArePrivate-enter socket k ((i, r) ∷ rows) s e p (h, hs) = elim (Bool-cases (i == socket)) [
    | inl same ↦
        let found : some r ≡ some s = rw same at e in
        let equal : r ≡ s = cc in rw same ((rw equal p, h), hs)
    | inr other ↦ rw other (h, ArePrivate-enter socket k rows s (rw other at e) p hs)
  ]

-- A position is only sent to the room of a trip that its driver drives.
abbrev pub AreDriven : Table Trip → List (ℕ × ℕ) → Type 0
AreDriven trips moved = All (λ m. drives m.1 (find m.0 trips) ≡ true) moved

abbrev pub IsPrivate : World → Type 0
IsPrivate w = ArePrivate w.db.trips w.sockets × AreDriven w.db.trips w.moved

-- What reaches the server.
pub data Event : Type 0 where
  connects : (socket : ℕ) → Option JwtPayload → Event
  disconnects : (socket : ℕ) → Event
  pings : (socket now : ℕ) → Option ℕ → Event
  subscribes unsubscribes : (socket trip : ℕ) → Event

unfoldable pub handle : Event → World → World
unfolding handle_connection handle_disconnect on_driver_location on_trip_subscribe
    on_trip_unsubscribe
handle (Event.connects socket payload) w = handle_connection socket payload w
handle (Event.disconnects socket) w = handle_disconnect socket w
handle (Event.pings socket now trip) w = on_driver_location socket now trip w
handle (Event.subscribes socket k) w = on_trip_subscribe socket k w
handle (Event.unsubscribes socket k) w = on_trip_unsubscribe socket k w

unfoldable pub handle_all : List Event → World → World
unfolding handle
handle_all [] w = w
handle_all (event ∷ events) w = handle_all events (handle event w)

connection-IsPrivate :
    (socket : ℕ) (payload : Option JwtPayload) (w : World)
    → IsPrivate w
    → IsPrivate (handle_connection socket payload w)
unfolding handle_connection off_duty create
connection-IsPrivate socket none w h = h
connection-IsPrivate socket (some payload) w h = elim (Bool-cases (is_driver payload.role)) [
  | inr e ↦ rw e ((tt, h.0), h.1)
  | inl e ↦ elim (Bool-cases (may_go_online (find payload.sub w.db.users))) [
    | inl m ↦ rw (e, m) ((tt, h.0), h.1)
    | inr m ↦ rw (e, m) h
  ]
]

gone-IsPrivate :
    (socket : ℕ) (found : Option Socket) (w : World) → IsPrivate w → IsPrivate (gone socket found w)
unfolding off_duty
gone-IsPrivate socket none w h = h
gone-IsPrivate socket (some s) w h =
    let left = ArePrivate-delete w.db.trips socket w.sockets h.0 in
    elim (Bool-cases (is_driver s.role)) [ inl e ↦ rw e (left, h.1) | inr e ↦ rw e (left, h.1) ]

broadcast-IsPrivate :
    (trip : Option ℕ) (user : ℕ) (w : World) → IsPrivate w → IsPrivate (broadcast_to trip user w)
broadcast-IsPrivate none user w h = h
broadcast-IsPrivate (some k) user w h = elim (Bool-cases (drives user (find k w.db.trips))) [
  | inl e ↦ rw e (h.0, (e, h.1))
  | inr e ↦ rw e h
]

ping-IsPrivate :
    (now : ℕ) (trip : Option ℕ) (found : Option Socket) (w : World)
    → IsPrivate w
    → IsPrivate (ping now trip found w)
ping-IsPrivate now trip none w h = h
ping-IsPrivate now trip (some s) w h = elim (Bool-cases (is_driver s.role)) [
  | inl e ↦ rw e (broadcast-IsPrivate trip s.user_id _ h)
  | inr e ↦ rw e h
]

subscribe-IsPrivate :
    (socket k : ℕ) (found : Option Socket) (w : World)
    → find socket w.sockets ≡ found
    → IsPrivate w
    → IsPrivate (subscribe socket k found w)
subscribe-IsPrivate socket k none w f h = h
subscribe-IsPrivate socket k (some s) w f h =
    elim (Bool-cases (rides s.user_id (find k w.db.trips))) [
      | inl e ↦ rw e (ArePrivate-enter w.db.trips socket k w.sockets s f e h.0, h.1)
      | inr e ↦ rw e h
    ]

handle-IsPrivate : (event : Event) (w : World) → IsPrivate w → IsPrivate (handle event w)
unfolding handle
handle-IsPrivate (Event.connects socket payload) w h = connection-IsPrivate socket payload w h
handle-IsPrivate (Event.disconnects socket) w h =
    unfold handle_disconnect in gone-IsPrivate socket (find socket w.sockets) w h
handle-IsPrivate (Event.pings socket now trip) w h =
    unfold on_driver_location in ping-IsPrivate now trip (find socket w.sockets) w h
handle-IsPrivate (Event.subscribes socket k) w h =
    unfold on_trip_subscribe in subscribe-IsPrivate socket k (find socket w.sockets) w refl h
handle-IsPrivate (Event.unsubscribes socket k) w h =
    unfold on_trip_unsubscribe in (ArePrivate-leave w.db.trips socket k w.sockets h.0, h.1)

-- Whatever the sockets send, in any order, as long as no trip changes: a socket is only ever in
-- the rooms of trips that its user is the rider or the driver of, and a position is only sent to
-- the room of a trip by the trip's own driver.
pub handle_all-IsPrivate :
    (events : List Event) (w : World) → IsPrivate w → IsPrivate (handle_all events w)
unfolding handle_all
handle_all-IsPrivate [] w h = h
handle_all-IsPrivate (event ∷ events) w h =
    handle_all-IsPrivate events (handle event w) (handle-IsPrivate event w h)
