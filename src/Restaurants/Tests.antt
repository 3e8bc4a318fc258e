-- ===== src/Restaurants/Tests.antt =====
-- Restaurants at concrete inputs.
use novax_backend.Common.{refl}
use novax_backend.Common.Table.{find, find_first}
use novax_backend.Schema.Db.{Db}
use novax_backend.Fixtures.{order, order_state}
use novax_backend.Restaurants.{create_restaurant, suspend}
use novax_backend.Restaurants.Opening.{IsSound, Step, Reach, Reach-IsSound}

abbrev start : Db
start = order_state order

-- A second owner registers, and the first restaurant is suspended.
abbrev opened : Db
opened = (create_restaurant 6 8 start).1

Reach-IsSound_example : IsSound (suspend 4 opened).1.restaurants
unfolding find find_first
Reach-IsSound_example =
    Reach-IsSound {db = start} {db' = (suspend 4 opened).1} (refl, refl, refl, tt)
      (Reach.next (Reach.next Reach.here (Step.opens 6 8 refl)) (Step.is_suspended_by_desk 4))
