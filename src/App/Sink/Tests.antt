-- ===== src/App/Sink/Tests.antt =====
-- A member's sink on a channel in memory.
use longship_x.Prelude.{◌≡◌, refl, true, false, List, [], ◌∷◌}
use longship_x.Channel.Memory.{memory, flag}
use longship_x.App.Sink.{RoomEvent, RoomEventSink, member_left, try_send}
use longship_x.App.Sink.Delivery.{Op, event, take, run}

abbrev fresh : RoomEventSink (memory RoomEvent) flag
fresh = record { tx = record { values = []; room = 1; gone = false }; failed = false }

abbrev kept_up : List Op
kept_up = event (member_left 7 1) ∷ take ∷ event (member_left 7 2) ∷ []

abbrev lost : RoomEventSink (memory RoomEvent) flag
lost = record fresh { failed = true }

overflow :
    (run
      (memory RoomEvent)
      flag
      fresh
      (event (member_left 7 1) ∷ event (member_left 7 2) ∷ [])).failed
    ≡ true
unfolding run try_send
overflow = refl
