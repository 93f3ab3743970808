-- ===== src/Domain/Room/Tests.antt =====
-- Runs of the room aggregate, and its theorems at concrete rooms.
use longship_x.Prelude.{◌≡◌, refl, false, ok, err, [], ◌∷◌, nat_eq}
use longship_x.Domain.Error.{room_full, room_closed}
use longship_x.Domain.Room.{Room, waiting, open_room, try_join, close}
use longship_x.Domain.Room.Members.{IsValid}
use longship_x.Domain.Room.Lifecycle.{join, leave, shut, run, run-open_room-IsValid}

abbrev duo : Room
duo = record { id = 7; members = 1 ∷ 2 ∷ []; max_players = 2; state = waiting; created_at = 0 }

abbrev solo : Room
solo = record { id = 7; members = 1 ∷ []; max_players = 2; state = waiting; created_at = 0 }

full : (try_join duo 3).0 ≡ err (room_full 7)
unfolding try_join
full = refl

again : try_join duo 2 ≡ (ok false, duo)
unfolding try_join
again = refl

after_close : (try_join (close duo).1 3).0 ≡ err (room_closed 7)
unfolding try_join close
after_close = refl

clamped : (open_room 7 0 0).max_players ≡ 1
unfolding open_room
clamped = refl

run-open_room-IsValid_example :
    IsValid (run (open_room 7 2 0) (join 1 ∷ join 2 ∷ join 3 ∷ leave 1 ∷ join 3 ∷ shut ∷ []))
run-open_room-IsValid_example =
    run-open_room-IsValid 7 2 0 (join 1 ∷ join 2 ∷ join 3 ∷ leave 1 ∷ join 3 ∷ shut ∷ [])
