-- ===== src/App/Actor/Tests.antt =====
-- Runs of the room actor, and its theorems at concrete actors.
use longship_x.Prelude.{◌≡◌, refl, true, ok, some, List, [], ◌∷◌, nat_eq, arith, inr}
use longship_x.Prelude.Text.{text}
use longship_x.Domain.Room.{Room, waiting, try_join, try_leave, is_closed}
use longship_x.Domain.Room.Members.{IsValid}
use longship_x.App.Sink.{member_left, closed}
use longship_x.App.Actor.{
  RoomActor, RoomCommand, join, say, leave, deliver, reply_leave, set_closed, spawn, handle,
  handle_join, handle_leave, broadcast, run,
}
use longship_x.App.Actor.Life.{IsRunning}
use longship_x.App.Actor.Ending.{run-closed_to, last_members}
use longship_x.App.Actor.Effects.{answers, left, closed_to, sinks}
use longship_x.App.Actor.Replies.{handle-answers}

abbrev empty_room : Room
empty_room = record { id = 7; members = []; max_players = 2; state = waiting; created_at = 0 }

empty_room-IsValid : IsValid empty_room
empty_room-IsValid = record { positive = omega arith; bounded = omega arith; distinct = tt }

-- Player 1 alone, with sink 11.
abbrev alone : RoomActor
alone = record {
  room = record empty_room { members = 1 ∷ [] };
  members = (1, record { nickname = 65 ∷ []; sink = 11 }) ∷ [];
  had_members = true;
}

alone-IsRunning : IsRunning alone
alone-IsRunning = record {
  inv = record {
    valid = record { positive = omega arith; bounded = omega arith; distinct = (refl, tt) };
    same_players = refl;
    had = inr refl;
  };
  open_still = refl;
  inhabited = refl;
}

-- The last member who leaves is told of the leaving and of the end, and then gets the reply.
last_leaves :
    (handle alone (leave 1 [] 5)).1
    ≡ deliver 11 (member_left 7 1)
      ∷ deliver 11 (closed 7 (text "最后一名成员已离开"))
      ∷ set_closed
      ∷ reply_leave 5 (ok true)
      ∷ []
unfolding handle handle_leave broadcast try_leave
last_leaves = refl

handle-answers_example : answers (handle alone (leave 1 [] 5)).1 ≡ left 5 (some true) ∷ []
handle-answers_example = handle-answers alone (leave 1 [] 5) refl

abbrev visit : List RoomCommand
visit = join 1 (65 ∷ []) 11 1 ∷ join 2 (66 ∷ []) 12 2 ∷ say 1 (72 ∷ []) ∷ leave 1 [] 3 ∷ []

run-closed_to_example :
    (is_closed (run (spawn empty_room) visit).0.room ≡ true)
    × (closed_to (run (spawn empty_room) visit).1 ≡ sinks (last_members (spawn empty_room) visit))
run-closed_to_example = run-closed_to empty_room visit empty_room-IsValid refl refl

-- Only player 2 is left when the queue closes.
left_behind : sinks (last_members (spawn empty_room) visit) ≡ 12 ∷ []
unfolding last_members spawn handle handle_join handle_leave try_join try_leave
left_behind = refl
