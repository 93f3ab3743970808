-- ===== src/App/Rooms.antt =====
-- crates/application/src/room/service.rs: the service of all rooms. Calls of it, the tasks of the rooms
-- and cancelled calls interleave: a schedule chooses who goes next, and a call goes from one point
-- where it waits or takes the registry's lock to the next. A choice that cannot be made changes nothing.
-- A handle is the identifier of its room; a task stays in the table when it has ended.
pub mod Tasks
pub mod Calls
pub mod Schedule
pub mod Owed
pub mod Texts
mod Tests
use longship_x.Prelude.{
  ℕ, suc, Bool, true, false, ◌&&◌, ◌||◌, not, Option, none, some, Result, ok, err, List, [], ◌∷◌,
  retain, contains, any, length, ltb, if◌then◌else◌, nat_eq, ◌==◌, fail_if,
}
use longship_x.Prelude.Map.{Map, lookup, insert, remove, values}
use longship_x.Prelude.Text.{Text, text, trim, is_empty}
use longship_x.Domain.Error.{PlayerId, RoomId, DateTime}
use longship_x.App.Error.{AppError, internal, not_found, validation}
use longship_x.App.Ports.{DomainEvent}
use longship_x.App.Actor.{RoomCommand, SinkId, ReplyId, max_chat_chars}
use longship_x.App.Rooms.Tasks.{Task, Notice, join_reply, leave_reply, dropped}

pub record RoomServiceConfig : Type 0 where
  pub command_capacity : ℕ
  pub max_players : ℕ

-- A one-shot channel for a reply, as its receiver finds it.
pub data Slot : Type 0 where
  awaited : Slot
  join_done : Result (Unit {0}) AppError → Slot
  leave_done : Result Bool AppError → Slot
  sender_dropped : Slot

pub data Outcome : Type 0 where
  entered : RoomId → Outcome
  finished : Outcome
  failed : AppError → Outcome

-- Where a call stands. A join says whether it has created its room; a leave lists the rooms that
-- `leave_all` still has to leave.
pub data Call : Type 0 where
  create_room : PlayerId → Text → SinkId → Call
  look_join : Bool → RoomId → PlayerId → Text → SinkId → Call
  send_join : Bool → RoomId → PlayerId → Text → SinkId → Call
  wait_join : Bool → RoomId → PlayerId → ReplyId → Call
  announce_join : RoomId → PlayerId → Call
  discard_room : RoomId → AppError → Call
  look_chat : RoomId → PlayerId → Text → Call
  send_chat : RoomId → PlayerId → Text → Call
  look_leave : RoomId → PlayerId → Text → List RoomId → Call
  send_leave : RoomId → PlayerId → Text → List RoomId → Call
  wait_leave : RoomId → PlayerId → Text → List RoomId → ReplyId → Call
  sweep_leave : Bool → RoomId → PlayerId → Text → List RoomId → Call
  announce_leave : RoomId → PlayerId → Text → List RoomId → Call
  list_rooms : PlayerId → Text → Call
  drain_rooms : Text → Call
  send_close : Text → List RoomId → Call
  done : Outcome → Call

abbrev pub CallId : Type 0
CallId = ℕ

-- `next` numbers the rooms and the reply channels: `Uuid::now_v7` and `oneshot::channel` never give
-- the same twice.
pub record RoomService : Type 0 where
  pub registry : List RoomId
  pub tasks : Map RoomId Task
  pub replies : Map ReplyId Slot
  pub calls : Map CallId Call
  pub published : List DomainEvent
  pub next : ℕ

unfoldable pub new : RoomService
new = record { registry = []; tasks = []; replies = []; calls = []; published = []; next = 0 }

-- The beginning of each public operation.
abbrev pub join_or_create : Option RoomId → PlayerId → Text → SinkId → Call
join_or_create (some id) player nickname sink = look_join false id player nickname sink
join_or_create none player nickname sink = create_room player nickname sink

-- `chat` checks the text before it looks for the room.
unfoldable pub check_chat : Text → Result (Unit {0}) AppError
check_chat message =
    if is_empty (trim message)
    then err (validation (text "聊天内容不能为空"))
    else fail_if (ltb max_chat_chars (length (trim message))) (validation (text "聊天内容不能超过 512 字"))

unfoldable pub chat : RoomId → PlayerId → Text → Call
unfolding check_chat
chat room player message = elim (check_chat message) [
  | err e ↦ done (failed e)
  | ok u ↦ look_chat room player (trim message)
]

abbrev pub leave : RoomId → PlayerId → Text → Call
leave room player reason = look_leave room player reason []

-- The next room of `leave_all`, or its end.
abbrev pub leave_next : PlayerId → Text → List RoomId → Call
leave_next player reason [] = done finished
leave_next player reason (room ∷ rooms) = look_leave room player reason rooms

unfoldable pub is_closed : RoomService → RoomId → Bool
is_closed s room = elim (lookup room s.tasks) [ none ↦ true | some t ↦ t.closed ]

abbrev pub unregister : RoomId → RoomService → RoomService
unregister room s = record s { registry = retain (λ id. not (id == room)) s.registry }

abbrev pub put_task : RoomId → Task → RoomService → RoomService
put_task room t s = record s { tasks = insert room t s.tasks }

unfoldable pub handle_for : RoomService → RoomId → Bool × RoomService
unfolding is_closed
handle_for s room =
    if contains s.registry room
    then if is_closed s room then (false, unregister room s) else (true, s)
    else (false, s)

unfoldable pub live_handles : RoomService → List RoomId × RoomService
unfolding is_closed
live_handles s =
    let live = retain (λ room. not (is_closed s room)) s.registry in
    (live, record s { registry = live })

unfoldable pub active_rooms : RoomService → ℕ
active_rooms s = length s.registry

-- A failure to publish is only warned about.
abbrev pub publish : DomainEvent → RoomService → RoomService
publish event s = record s { published = event ∷ s.published }

-- The room is gone for the caller.
abbrev pub no_room : AppError
no_room = not_found (text "房间不存在")

-- What notices do to the reply channels.
abbrev pub settle : List Notice → Map ReplyId Slot → Map ReplyId Slot
settle [] m = m
settle (join_reply r out ∷ ns) m = settle ns (insert r (join_done out) m)
settle (leave_reply r out ∷ ns) m = settle ns (insert r (leave_done out) m)
settle (dropped r ∷ ns) m = settle ns (insert r sender_dropped m)
