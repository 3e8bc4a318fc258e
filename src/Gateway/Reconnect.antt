-- ===== src/Gateway/Reconnect.antt =====
-- A connection that is replaced by a newer one.
use novax_backend.Common.{
  ℕ, ◌≡◌, ◌≢◌, refl, sym, ◌∙◌, Bool, true, false, not, ◌==◌, Bool-cases, Option-cases, inl, inr,
  some, List, [], ◌∷◌, keep, has, arith,
}
use novax_backend.Common.Table.{
  Table, find, delete_many, find-update_self, find-create_self, find-create_ne,
}
use novax_backend.Schema.Enums.{Role}
use novax_backend.Schema.Rows.{DriverProfile}
use novax_backend.Schema.Db.{Db}
use novax_backend.Accounts.Sessions.{JwtPayload}
use novax_backend.Accounts.Signup.{no_documents, default_profile}
use novax_backend.Location.{is_allowed, online, remove_driver}
use novax_backend.Gateway.{
  Socket, World, may_go_online, with_online, go_online, off_duty, join, same_socket, leave_all,
  handle_connection, handle_disconnect,
}

find-deleted :
    (k j : ℕ) (rows : Table Socket)
    → j ≢ k
    → find j (delete_many (same_socket k) rows) ≡ find j rows
unfolding find delete_many
find-deleted k j [] n = refl
find-deleted k j ((i, s) ∷ rows) n = ground (arith, find-deleted k j rows n)

abbrev pub as_driver : ℕ → JwtPayload
as_driver user = record { sub = user; role = Role.driver }

abbrev pub socket_of : ℕ → Socket
socket_of user = record { user_id = user; role = Role.driver; rooms = [] }

-- A driver who may work has a profile that says so once they are connected.
online_after :
    (user : ℕ) (db : Db)
    → (p : DriverProfile) × (find user (go_online user db).profiles ≡ some (with_online true p))
online_after user db = elim (Option-cases (find user db.profiles)) [
  | inl e ↦ (
    default_profile no_documents,
    rw e (find-create_self user (with_online true (default_profile no_documents)) db.profiles),
  )
  | inr (p, e) ↦ (p, rw e (find-update_self user (with_online true) db.profiles p e))
]

connect-ok :
    (socket user : ℕ) (w : World)
    → may_go_online (find user w.db.users) ≡ true
    → handle_connection socket (some (as_driver user)) w
      ≡ join socket (as_driver user) (record w { db = go_online user w.db })
unfolding handle_connection
connect-ok socket user w m = rw m refl

disconnect-ok :
    (socket user : ℕ) (w : World)
    → find socket w.sockets ≡ some (socket_of user)
    → handle_disconnect socket w ≡ off_duty user (leave_all socket w)
unfolding handle_disconnect
disconnect-ok socket user w e = rw e refl

has-removed : (user : ℕ) (geo : List ℕ) → has user (keep (λ j. not (j == user)) geo) ≡ false
has-removed user [] = refl
has-removed user (j ∷ geo) = elim (Bool-cases (j == user)) [
  | inl e ↦ rw e (has-removed user geo)
  | inr e ↦ rw (e, e) (has-removed user geo)
]

offline_not_allowed :
    (want_test : Bool) (user : ℕ) (db : Db)
    → online (find user db.profiles) ≡ false
    → is_allowed want_test db user ≡ false
unfolding is_allowed
offline_not_allowed want_test user db off = ground (arith, off)

module _ (old new user : ℕ) (w : World) where
  abbrev first : World
  first = join old (as_driver user) (record w { db = go_online user w.db })

  abbrev second : World
  second = join new (as_driver user) (record first { db = go_online user first.db })

  abbrev third : World
  third = off_duty user (leave_all old second)

  kept_socket : old ≢ new → find new third.sockets ≡ some (socket_of user)
  unfolding off_duty
  kept_socket n =
      find-deleted old new second.sockets (λ e. n (sym e))
      ∙ find-create_self new (socket_of user) first.sockets

  old_socket : old ≢ new → find old second.sockets ≡ some (socket_of user)
  old_socket n =
      find-create_ne new old (socket_of user) first.sockets n
      ∙ find-create_self old (socket_of user) w.sockets

  is_online_second : online (find user second.db.profiles) ≡ true
  unfolding online
  is_online_second = let (p, e) = online_after user first.db in rw e refl

  is_offline_third : online (find user third.db.profiles) ≡ false
  unfolding online off_duty
  is_offline_third =
      let (p, e) = online_after user first.db in
      let e' =
        find-update_self user (with_online false) second.db.profiles (with_online true p) e in
      rw e' refl

  out_of_geo : has user third.redis.geo ≡ false
  unfolding off_duty remove_driver
  out_of_geo = has-removed user w.redis.geo

-- A driver whose connection drops and who connects again before the server notices loses the new
-- one's standing with the old one: when the disconnection arrives, the driver is connected, and yet
-- offline, out of the search, and allowed no job of either fleet.
pub stale_disconnect_hides_driver :
    (old new user : ℕ) (want_test : Bool) (w : World)
    → old ≢ new
    → may_go_online (find user w.db.users) ≡ true
    → let w2 =
        handle_connection new
          (some (as_driver user))
          (handle_connection old (some (as_driver user)) w) in
      let w3 = handle_disconnect old w2 in
      (online (find user w2.db.profiles) ≡ true)
      × (find new w3.sockets ≡ some (socket_of user))
      × (is_allowed want_test w3.db user ≡ false)
      × (has user w3.redis.geo ≡ false)
stale_disconnect_hides_driver old new user want_test w n m =
    rw
      (
        connect-ok old user w m,
        connect-ok new user (first old new user w) m,
        disconnect-ok old user (second old new user w) (old_socket old new user w n),
      )
      (
        is_online_second old new user w,
        kept_socket old new user w n,
        offline_not_allowed want_test user (third old new user w).db
            (is_offline_third old new user w),
        out_of_geo old new user w,
      )
