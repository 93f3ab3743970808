-- ===== src/App/Rooms/Tests.antt =====
-- crates/application/src/room/service.rs: runs of the service on small schedules.
use longship_x.Prelude.{
  ℕ, ◌≡◌, refl, ◌⊎◌, true, none, some, List, [], ◌∷◌, length, nat_eq, contains, is_ok, ◌&&◌,
  if◌then◌else◌, arith,
}
use longship_x.Prelude.Map.{lookup}
use longship_x.Prelude.Text.{text, trim, is_whitespace}
use longship_x.App.Error.{conflict, from_domain}
use longship_x.App.Ports.{player_joined_room}
use longship_x.App.Actor.{
  join, say, spawn, handle, handle_join, broadcast, handle_leave, RoomActor, handle_chat,
}
use longship_x.App.Actor.Effects.{chat_to, each, sinks}
use longship_x.App.Actor.Membership.{Inv, handle_join-Inv}
use longship_x.App.Actor.Replies.{saying_of}
use longship_x.App.Actor.Life.{spawn-IsRunning}
use longship_x.App.Rooms.Tasks.{spawn_task, queue_command}
use longship_x.App.Rooms.Tasks.Turns.{awaits, answered}
use longship_x.App.Rooms.Tasks.Drain.{
  IsSound, spawn_task-IsSound, queue-IsSound, drain, drain-answered,
}
use longship_x.App.Rooms.Texts.{check_chat-chat_to}
use longship_x.Domain.Room.Members.{open_room-IsValid}
use longship_x.Domain.Room.{open_room, try_join, try_leave, close}
use longship_x.App.Rooms.Tasks.{Task}
use longship_x.App.Rooms.{
  RoomServiceConfig, entered, finished, failed, wait_join, done, new, join_or_create, leave,
  active_rooms, check_chat,
}
use longship_x.App.Rooms.Schedule.{Choice, begin, go, turn_of, run}
use longship_x.App.Rooms.Owed.Waiting.{is_settled, turns, run-is_settled}

abbrev small : RoomServiceConfig
small = record { command_capacity = 2; max_players = 1 }

-- Player 7 creates room 0, and its join is queued.
abbrev asked : List Choice
asked = begin 0 (join_or_create none 7 (text "Ann") 70) ∷ go 0 1 ∷ go 0 1 ∷ go 0 1 ∷ []

abbrev joins : List Choice
joins =
    begin 0 (join_or_create none 7 (text "Ann") 70)
    ∷ go 0 1
    ∷ go 0 1
    ∷ go 0 1
    ∷ turn_of 0
    ∷ go 0 1
    ∷ go 0 2
    ∷ []

join_ends : lookup 0 (run small new joins).calls ≡ some (done (entered 0))
unfolding run new handle_join try_join broadcast handle_leave try_leave close
join_ends = refl

join_published : (run small new joins).published ≡ player_joined_room 0 7 2 ∷ []
unfolding run new handle_join try_join broadcast handle_leave try_leave close
join_published = refl

-- A second player finds the room full; a leave of the only member closes it, and unregisters it.
abbrev rejected : List Choice
rejected =
    begin 1 (join_or_create (some 0) 8 (text "Bob") 80) ∷ go 1 3 ∷ go 1 3 ∷ turn_of 0 ∷ go 1 3 ∷ []

full :
    lookup 1 (run small (run small new joins) rejected).calls
    ≡ some (done (failed (conflict (text "房间已满"))))
unfolding run new handle_join try_join broadcast handle_leave try_leave close from_domain
full = refl

abbrev leaves : List Choice
leaves =
    begin 2 (leave 0 7 (text "bye"))
    ∷ go 2 4
    ∷ go 2 4
    ∷ turn_of 0
    ∷ go 2 4
    ∷ go 2 4
    ∷ go 2 5
    ∷ turn_of 0
    ∷ []

left_and_closed :
    let s = run small (run small new joins) leaves in
    (lookup 2 s.calls ≡ some (done finished)) × (active_rooms s ≡ 0)
unfolding run new handle_join try_join broadcast handle_leave try_leave close active_rooms
left_and_closed = (refl, refl)

run-is_settled_example :
    let s = run small new asked in
    (is_settled (lookup 1 s.replies) ≡ true)
    ⊎ ((room : ℕ) × (t : Task) × (lookup room s.tasks ≡ some t)
        × (is_settled (lookup 1 (run small s (turns (length t.commands) room)).replies) ≡ true))
run-is_settled_example =
    run-is_settled small asked 0 (wait_join true 0 7 1) 1 (unfold run in unfold new in refl) refl

-- A room for one with a join and a leave queued, which end it.
abbrev busy_task : Task
busy_task =
    queue_command (queue_command (spawn_task (open_room 0 1 0) 2) (join 7 (text "Ann") 70 1))
      (say 7 (text "hi"))

unqueued : IsSound (spawn_task (open_room 0 1 0) 2)
unqueued =
    spawn_task-IsSound (open_room 0 1 0) 2 (open_room-IsValid 0 1 0) (unfold open_room in refl)
      (unfold open_room in refl)

busy_task-IsSound : IsSound busy_task
unfolding spawn_task
busy_task-IsSound =
    queue-IsSound _ (say 7 (text "hi"))
      (queue-IsSound _ (join 7 (text "Ann") 70 1) unqueued refl refl) refl refl

drain-answered_example :
    ((drain 2 busy_task).0.commands ≡ [])
    × (answered (drain 2 busy_task).1 ≡ awaits busy_task.commands)
drain-answered_example =
    drain-answered 2 busy_task busy_task-IsSound (unfold spawn_task in omega arith)

-- A room with one member.
abbrev lobby : RoomActor
lobby = (handle_join (spawn (open_room 0 2 0)) 7 (text "Ann") 70 1).0

lobby-Inv : Inv lobby
lobby-Inv =
    handle_join-Inv (spawn (open_room 0 2 0)) 7 (text "Ann") 70 1
      (spawn-IsRunning (open_room 0 2 0) (open_room-IsValid 0 2 0) (unfold open_room in refl)
        (unfold open_room in refl)).inv

check_chat-chat_to_example : chat_to (handle lobby (say 7 (trim (text " hi ")))).1 ≡ (
    if contains lobby.room.members 7 && is_ok (check_chat (text " hi "))
    then each (saying_of lobby 7 (trim (text " hi "))) (sinks lobby.members)
    else [])
check_chat-chat_to_example = check_chat-chat_to lobby 7 (text " hi ") lobby-Inv

heard :
    chat_to (handle lobby (say 7 (trim (text " hi ")))).1
    ≡ (70, record { room = 0; sender = 7; nickname = text "Ann"; message = text "hi" }) ∷ []
unfolding handle handle_chat handle_join try_join open_room spawn broadcast chat_to text trim
    is_whitespace
heard = refl
