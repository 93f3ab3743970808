-- ===== src/App/Actor.antt =====
-- crates/application/src/room/actor.rs: the task that owns a room. Commands arrive one at a time;
-- handling one returns the actor's new state, what it sends, in order, and whether the task ends.
-- A sink and a reply channel are handles: what is sent to them is a value.
pub mod Membership
pub mod Effects
pub mod Replies
pub mod Life
pub mod Ending
mod Tests
use longship_x.Prelude.{
  ℕ, Bool, true, false, ◌&&◌, ◌||◌, none, some, Result, ok, err, List, [], ◌∷◌, ◌++◌, map, length,
  ltb, if◌then◌else◌, nat_eq, ◌==◌,
}
use longship_x.Prelude.Map.{Map, lookup, insert, remove, values}
use longship_x.Prelude.Text.{Text, text, trim, is_empty}
use longship_x.Domain.Error.{PlayerId}
use longship_x.Domain.Room.{Room, try_join, try_leave, close, member_count}
use longship_x.App.Error.{AppError, from_domain}
use longship_x.App.Sink.{RoomEvent, member_joined, member_left, chat, closed}

abbrev pub max_chat_chars : ℕ
max_chat_chars = 512

abbrev pub SinkId : Type 0
SinkId = ℕ

abbrev pub ReplyId : Type 0
ReplyId = ℕ

pub data RoomCommand : Type 0 where
  join : PlayerId → Text → SinkId → ReplyId → RoomCommand
  say : PlayerId → Text → RoomCommand
  leave : PlayerId → Text → ReplyId → RoomCommand
  shut : Text → RoomCommand

pub record Member : Type 0 where
  pub nickname : Text
  pub sink : SinkId

pub record RoomActor : Type 0 where
  pub room : Room
  pub members : Map PlayerId Member
  pub had_members : Bool

-- What the actor sends: the two kinds of reply, an event to a sink, and the flag that tells the
-- handles that the room is closed.
pub data Effect : Type 0 where
  reply_join : ReplyId → Result (Unit {0}) AppError → Effect
  reply_leave : ReplyId → Result Bool AppError → Effect
  deliver : SinkId → RoomEvent → Effect
  set_closed : Effect

unfoldable pub spawn : Room → RoomActor
spawn room = record { room = room; members = []; had_members = false }

unfoldable pub broadcast : RoomActor → RoomEvent → List Effect
broadcast a event = map (λ (member : Member). deliver member.sink event) (values a.members)

unfoldable pub finish : RoomActor → Text → RoomActor × List Effect
unfolding close
finish a reason =
    let (was_open, room) = close a.room in
    let a' = record a { room = room } in
    (a', (if was_open then broadcast a' (closed a'.room.id reason) else []) ++ set_closed ∷ [])

abbrev pub deserted : RoomActor → Bool
deserted a = a.had_members && (member_count a.room == 0)

unfoldable pub handle_join :
    RoomActor → PlayerId → Text → SinkId → ReplyId → RoomActor × List Effect
handle_join a player nickname sink reply =
    let (outcome, room) = try_join a.room player in
    elim outcome [
      | ok true ↦
          let a' : RoomActor = record {
            room = room;
            members = insert player (record { nickname = nickname; sink = sink }) a.members;
            had_members = true;
          } in
          (a', reply_join reply (ok tt) ∷ broadcast a' (member_joined a'.room.id player nickname))
      | ok false ↦ (record a { room = room }, reply_join reply (ok tt) ∷ [])
      | err e ↦ (record a { room = room }, reply_join reply (err (from_domain e)) ∷ [])
    ]

unfoldable pub handle_chat : RoomActor → PlayerId → Text → List Effect
handle_chat a player message = elim (lookup player a.members) [
  | none ↦ []
  | some member ↦
      let trimmed = trim message in
      if is_empty trimmed || ltb max_chat_chars (length trimmed)
      then []
      else broadcast a (chat a.room.id player member.nickname trimmed)
]

unfoldable pub handle_leave : RoomActor → PlayerId → Result Bool AppError × RoomActor × List Effect
unfolding finish
handle_leave a player =
    let (outcome, room) = try_leave a.room player in
    let a' = record a { room = room } in
    elim outcome [
      | ok true ↦
          let told = broadcast a' (member_left a'.room.id player) in
          let (a'', ended) = if deserted a' then finish a' (text "最后一名成员已离开") else (a', []) in
          (ok true, record a'' { members = remove player a''.members }, told ++ ended)
      | ok false ↦ (ok false, a', [])
      | err e ↦ (err (from_domain e), a', [])
    ]

-- The last component says that the task ends.
unfoldable pub handle : RoomActor → RoomCommand → RoomActor × List Effect × Bool
handle a (join player nickname sink reply) =
    let (a', effects) = handle_join a player nickname sink reply in (a', effects, deserted a')
handle a (say player message) = (a, handle_chat a player message, deserted a)
handle a (leave player reason reply) =
    let (outcome, a', effects) = handle_leave a player in
    (a', effects ++ reply_leave reply outcome ∷ [], deserted a')
handle a (shut reason) = let (a', effects) = finish a reason in (a', effects, true)

-- The task over the commands that arrive before its queue closes.
unfoldable pub run_loop : RoomActor → List RoomCommand → RoomActor × List Effect
run_loop a [] = (a, [])
run_loop a (c ∷ cs) =
    let (a', effects, ends) = handle a c in
    let later = run_loop a' cs in if ends then (a', effects) else (later.0, effects ++ later.1)

unfoldable pub run : RoomActor → List RoomCommand → RoomActor × List Effect
unfolding run_loop
run a cs =
    let (a', effects) = run_loop a cs in
    let (a'', ended) = finish a' (text "房间通道已关闭") in (a'', effects ++ ended)
