-- ===== src/Chat/Tests.antt =====
-- A thread at concrete messages.
use novax_backend.Common.{◌≡◌, refl, some}
use novax_backend.Common.Action.{ok}
use novax_backend.Common.Text.{codes, text_eq}
use novax_backend.Common.Table.{find}
use novax_backend.Schema.Enums.{MatchScope}
use novax_backend.Schema.Db.{Db}
use novax_backend.Fixtures.{matched_ride, state}
use novax_backend.Chat.{context_of, enter, send_message, mark_read, unread_count}
use novax_backend.Chat.Reading.{mark_read_once}

-- The driver has written to the rider.
abbrev asked : Db
asked = (send_message (codes "TRIP") 10 2 90 1_000_000 (codes "Which gate?") (state matched_ride)).1

mark_read_once_example :
    let (count, same) = unread_count (codes "TRIP") 10 1 asked in
    let (answer, db1) = mark_read (codes "TRIP") 10 1 1_000_100 asked in
    (answer ≡ count)
    × (unread_count (codes "TRIP") 10 1 db1 ≡ (ok 0, db1))
    × (mark_read (codes "TRIP") 10 1 1_000_200 db1 ≡ (ok 0, db1))
unfolding find text_eq send_message context_of enter
mark_read_once_example =
    mark_read_once (codes "TRIP") 10 1 1_000_100 1_000_200 asked MatchScope.trip (1, some 2)
      (refl, refl, refl)
