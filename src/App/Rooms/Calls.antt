-- ===== src/App/Rooms/Calls.antt =====
-- crates/application/src/room/service.rs: a call's steps.
use longship_x.Prelude.{
  suc, Bool, true, false, Option, none, some, ok, err, List, [], ◌∷◌, if◌then◌else◌, nat_eq,
}
use longship_x.Prelude.Map.{lookup, insert}
use longship_x.Prelude.Text.{Text, text}
use longship_x.Domain.Error.{PlayerId, RoomId, DateTime}
use longship_x.Domain.Room.{open_room}
use longship_x.App.Error.{AppError, internal}
use longship_x.App.Ports.{player_joined_room, player_left_room}
use longship_x.App.Actor.{RoomCommand, join, say, leave, shut, SinkId, ReplyId}
use longship_x.App.Rooms.Tasks.{spawn_task, send, try_send}
use longship_x.App.Rooms.{
  RoomServiceConfig, Slot, awaited, join_done, leave_done, sender_dropped, entered, finished,
  failed, Call, create_room, look_join, send_join, wait_join, announce_join, discard_room,
  look_chat, send_chat, look_leave, send_leave, wait_leave, sweep_leave, announce_leave, list_rooms,
  drain_rooms, send_close, done, RoomService, leave_next, is_closed, unregister, put_task,
  handle_for, live_handles, publish, no_room,
}

-- How `handle.send` in a call goes on: it waits, it has failed, or the command is queued.
abbrev pub sent :
    RoomService
    → RoomId
    → RoomCommand
    → Call
    → (AppError → Call × RoomService)
    → (RoomService → Call × RoomService)
    → Call × RoomService
sent s room command stay fail queued = elim (lookup room s.tasks) [
  | none ↦ fail no_room
  | some t ↦
      let (out, t') = send t command in
      elim out [
        | none ↦ (stay, s)
        | some (err e) ↦ fail e
        | some (ok u) ↦ queued (put_task room t' s)
      ]
]

-- A new reply channel, whose sender went with a command.
abbrev pub open_reply : RoomService → RoomService
open_reply s = record s { replies = insert s.next awaited s.replies; next = suc s.next }

-- An error of `join`: `create_and_join` removes its room before it returns it.
abbrev pub fail_join : Bool → RoomId → AppError → Call
fail_join created room e = if created then discard_room room e else done (failed e)

unfoldable pub create_and_join :
    RoomServiceConfig → DateTime → RoomService → PlayerId → Text → SinkId → Call × RoomService
unfolding spawn_task open_room
create_and_join config now s player nickname sink =
    let t = spawn_task (open_room s.next config.max_players now) config.command_capacity in
    (
      look_join true s.next player nickname sink,
      record s {
        registry = s.next ∷ s.registry;
        tasks = insert s.next t s.tasks;
        next = suc s.next;
      },
    )

unfoldable pub step_join :
    RoomService → Bool → RoomId → PlayerId → Text → SinkId → Call × RoomService
unfolding send
step_join s created room player nickname sink =
    sent s room (join player nickname sink s.next) (send_join created room player nickname sink)
      (λ e. (fail_join created room e, s))
      (λ s'. (wait_join created room player s.next, open_reply s'))

abbrev pub receive_join : Bool → RoomId → PlayerId → ReplyId → Option Slot → Call
receive_join created room player reply (some (join_done (ok u))) = announce_join room player
receive_join created room player reply (some (join_done (err e))) = fail_join created room e
receive_join created room player reply (some sender_dropped) =
    fail_join created room (internal (text "房间已关闭,加入结果未知"))
receive_join created room player reply _ = wait_join created room player reply

unfoldable pub step_chat : RoomService → RoomId → PlayerId → Text → Call × RoomService
unfolding try_send
step_chat s room player message = elim (lookup room s.tasks) [
  | none ↦ (done (failed no_room), s)
  | some t ↦
      let (out, t') = try_send t (say player message) in
      elim out [ err e ↦ (done (failed e), s) | ok u ↦ (done finished, put_task room t' s) ]
]

unfoldable pub step_leave :
    RoomService → RoomId → PlayerId → Text → List RoomId → Call × RoomService
unfolding send is_closed
step_leave s room player reason rest =
    sent s room (leave player reason s.next) (send_leave room player reason rest)
      (λ e.
        if is_closed s room
        then (leave_next player reason rest, unregister room s)
        else (done (failed e), s))
      (λ s'. (wait_leave room player reason rest s.next, open_reply s'))

-- A reply that was dropped is no error if the room is closed.
abbrev pub receive_leave :
    Bool → RoomId → PlayerId → Text → List RoomId → ReplyId → Option Slot → Call
receive_leave over room player reason rest reply (some (leave_done (ok left))) =
    sweep_leave left room player reason rest
receive_leave over room player reason rest reply (some (leave_done (err e))) = done (failed e)
receive_leave over room player reason rest reply (some sender_dropped) =
    if over
    then sweep_leave false room player reason rest
    else done (failed (internal (text "离房操作未完成")))
receive_leave over room player reason rest reply _ = wait_leave room player reason rest reply

-- The closed room is unregistered, and what follows depends on whether the player was in it.
unfoldable pub step_sweep :
    RoomService → Bool → RoomId → PlayerId → Text → List RoomId → Call × RoomService
unfolding is_closed
step_sweep s left room player reason rest = (
  if left then announce_leave room player reason rest else leave_next player reason rest,
  if is_closed s room then unregister room s else s,
)

-- `close_all` goes on to the next room whether or not the command was queued.
unfoldable pub step_close : RoomService → Text → List RoomId → Call × RoomService
unfolding send
step_close s reason [] = (done finished, s)
step_close s reason (room ∷ rooms) =
    sent s room (shut reason) (send_close reason (room ∷ rooms)) (λ e. (send_close reason rooms, s))
      (λ s'. (send_close reason rooms, s'))

abbrev pub found : Bool × RoomService → Call → Call → Call × RoomService
found (there, s) here missing = (if there then here else missing, s)

-- One step of a call.
unfoldable pub advance : RoomServiceConfig → DateTime → RoomService → Call → Call × RoomService
unfolding create_and_join step_join step_chat step_leave step_sweep step_close handle_for
    live_handles is_closed
advance config now s (create_room player nickname sink) =
    create_and_join config now s player nickname sink
advance config now s (look_join created room player nickname sink) =
    found (handle_for s room) (send_join created room player nickname sink)
      (fail_join created room no_room)
advance config now s (send_join created room player nickname sink) =
    step_join s created room player nickname sink
advance config now s (wait_join created room player reply) =
    (receive_join created room player reply (lookup reply s.replies), s)
advance config now s (announce_join room player) =
    (done (entered room), publish (player_joined_room room player now) s)
advance config now s (discard_room room e) = (done (failed e), unregister room s)
advance config now s (look_chat room player message) =
    found (handle_for s room) (send_chat room player message) (done (failed no_room))
advance config now s (send_chat room player message) = step_chat s room player message
advance config now s (look_leave room player reason rest) =
    found (handle_for s room) (send_leave room player reason rest) (leave_next player reason rest)
advance config now s (send_leave room player reason rest) = step_leave s room player reason rest
advance config now s (wait_leave room player reason rest reply) =
    (receive_leave (is_closed s room) room player reason rest reply (lookup reply s.replies), s)
advance config now s (sweep_leave left room player reason rest) =
    step_sweep s left room player reason rest
advance config now s (announce_leave room player reason rest) =
    (leave_next player reason rest, publish (player_left_room room player reason now) s)
advance config now s (list_rooms player reason) =
    let (rooms, s') = live_handles s in (leave_next player reason rooms, s')
advance config now s (drain_rooms reason) =
    (send_close reason s.registry, record s { registry = [] })
advance config now s (send_close reason rooms) = step_close s reason rooms
advance config now s (done outcome) = (done outcome, s)
