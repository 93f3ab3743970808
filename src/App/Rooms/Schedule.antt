-- ===== src/App/Rooms/Schedule.antt =====
-- crates/application/src/room: the interleaving of the calls of the service with the rooms' tasks.
use longship_x.Prelude.{
  Bool, true, false, ◌&&◌, ◌||◌, not, none, some, List, [], ◌∷◌, any, contains, if◌then◌else◌,
  nat_eq, ◌==◌,
}
use longship_x.Prelude.Map.{lookup, insert, remove, values}
use longship_x.Domain.Error.{RoomId, DateTime}
use longship_x.App.Rooms.Tasks.{turn, starve}
use longship_x.App.Rooms.{
  RoomServiceConfig, Call, create_room, look_join, send_join, wait_join, announce_join,
  discard_room, look_chat, send_chat, look_leave, send_leave, wait_leave, sweep_leave,
  announce_leave, list_rooms, drain_rooms, send_close, done, CallId, RoomService, put_task, settle,
}
use longship_x.App.Rooms.Calls.{advance}

-- Who goes next: a new call, a call's next step at an instant, a call whose caller drops it, a turn of a
-- room's task, and a task that finds that its last handle is gone.
pub data Choice : Type 0 where
  begin : CallId → Call → Choice
  go : CallId → DateTime → Choice
  cancel : CallId → Choice
  turn_of starve_of : RoomId → Choice

-- The operations, as `begin` takes them.
abbrev pub is_first : Call → Bool
is_first (create_room player nickname sink) = true
is_first (look_join created room player nickname sink) = not created
is_first (look_chat room player message) = true
is_first (look_leave room player reason []) = true
is_first (list_rooms player reason) = true
is_first (drain_rooms reason) = true
is_first (done outcome) = true
is_first _ = false

-- A call that has a handle of the room in scope.
abbrev pub holds : RoomId → Call → Bool
holds id (look_join created room player nickname sink) = created && (room == id)
holds id (send_join created room player nickname sink) = room == id
holds id (wait_join created room player reply) = room == id
holds id (announce_join room player) = room == id
holds id (discard_room room e) = room == id
holds id (send_chat room player message) = room == id
holds id (look_leave room player reason rest) = contains rest id
holds id (send_leave room player reason rest) = (room == id) || contains rest id
holds id (wait_leave room player reason rest reply) = (room == id) || contains rest id
holds id (sweep_leave left room player reason rest) = (room == id) || contains rest id
holds id (announce_leave room player reason rest) = (room == id) || contains rest id
holds id (send_close reason rooms) = contains rooms id
holds id _ = false

unfoldable pub is_held : RoomService → RoomId → Bool
is_held s room = contains s.registry room || any (holds room) (values s.calls)

unfoldable pub turn_room : RoomService → RoomId → RoomService
unfolding turn
turn_room s room = elim (lookup room s.tasks) [
  | none ↦ s
  | some t ↦
      let (t', told) = turn t in
      record s { tasks = insert room t' s.tasks; replies = settle told s.replies }
]

unfoldable pub starve_room : RoomService → RoomId → RoomService
unfolding is_held starve
starve_room s room = elim (lookup room s.tasks) [
  | none ↦ s
  | some t ↦ if is_held s room then s else put_task room (starve t) s
]

unfoldable pub advance_call : RoomServiceConfig → RoomService → CallId → DateTime → RoomService
unfolding advance
advance_call config s id now = elim (lookup id s.calls) [
  | none ↦ s
  | some call ↦
      let (call', s') = advance config now s call in record s' { calls = insert id call' s'.calls }
]

unfoldable pub step : RoomServiceConfig → RoomService → Choice → RoomService
unfolding turn_room starve_room advance_call
step config s (begin id call) =
    if is_first call then record s { calls = insert id call s.calls } else s
step config s (go id now) = advance_call config s id now
step config s (cancel id) = record s { calls = remove id s.calls }
step config s (turn_of room) = turn_room s room
step config s (starve_of room) = starve_room s room

unfoldable pub run : RoomServiceConfig → RoomService → List Choice → RoomService
unfolding step
run config s [] = s
run config s (c ∷ cs) = run config (step config s c) cs
