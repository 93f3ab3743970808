-- ===== src/App/Rooms/Tasks.antt =====
-- crates/application/src/room/actor.rs: the task of a room from outside, as RoomHandle sees it: the
-- bounded queue of its commands, its loop a turn at a time, and the flag that tells that it is closed.
pub mod Turns
pub mod Drain
use longship_x.Prelude.{
  ℕ, Bool, true, false, ◌||◌, Option, none, some, Result, ok, err, List, [], ◌∷◌, ◌++◌, length, ltb,
  if◌then◌else◌,
}
use longship_x.Prelude.Text.{text}
use longship_x.Domain.Room.{Room}
use longship_x.App.Error.{AppError, not_found, busy}
use longship_x.App.Actor.{
  RoomActor, RoomCommand, join, say, leave, shut, ReplyId, Effect, reply_join, reply_leave, deliver,
  set_closed, spawn, handle, finish,
}

-- The loop of `run`: it serves commands; it has left the loop and has not finished; its receiver is
-- gone, and with it what was still queued.
pub data Phase : Type 0 where
  serving ending ended : Phase

pub record Task : Type 0 where
  pub actor : RoomActor
  pub commands : List RoomCommand
  pub capacity : ℕ
  pub phase : Phase
  pub closed : Bool

unfoldable pub spawn_task : Room → ℕ → Task
unfolding spawn
spawn_task room capacity = record {
  actor = spawn room;
  commands = [];
  capacity = capacity;
  phase = serving;
  closed = false;
}

abbrev pub is_gone : Phase → Bool
is_gone serving = false
is_gone ending = false
is_gone ended = true

abbrev pub queue_command : Task → RoomCommand → Task
queue_command t c = record t { commands = t.commands ++ c ∷ [] }

-- One poll of `send`: nothing while the queue is full.
unfoldable pub send : Task → RoomCommand → Option (Result (Unit {0}) AppError) × Task
send t c =
    if is_gone t.phase
    then (some (err (not_found (text "房间不存在"))), t)
    else if ltb (length t.commands) t.capacity
    then (some (ok tt), queue_command t c)
    else (none, t)

unfoldable pub try_send : Task → RoomCommand → Result (Unit {0}) AppError × Task
try_send t c =
    if is_gone t.phase
    then (err (not_found (text "房间不存在")), t)
    else if ltb (length t.commands) t.capacity
    then (ok tt, queue_command t c)
    else (err busy, t)

-- What the callers learn from a turn: the replies to their joins and leaves, and the reply channels
-- that were dropped with the queue.
pub data Notice : Type 0 where
  join_reply : ReplyId → Result (Unit {0}) AppError → Notice
  leave_reply : ReplyId → Result Bool AppError → Notice
  dropped : ReplyId → Notice

abbrev pub notices : List Effect → List Notice
notices [] = []
notices (reply_join r out ∷ es) = join_reply r out ∷ notices es
notices (reply_leave r out ∷ es) = leave_reply r out ∷ notices es
notices (deliver s e ∷ es) = notices es
notices (set_closed ∷ es) = notices es

abbrev pub sets_closed : List Effect → Bool
sets_closed [] = false
sets_closed (set_closed ∷ es) = true
sets_closed (reply_join r out ∷ es) = sets_closed es
sets_closed (reply_leave r out ∷ es) = sets_closed es
sets_closed (deliver s e ∷ es) = sets_closed es

abbrev pub lost : List RoomCommand → List Notice
lost [] = []
lost (join player nickname sink reply ∷ cs) = dropped reply ∷ lost cs
lost (leave player reason reply ∷ cs) = dropped reply ∷ lost cs
lost (say player message ∷ cs) = lost cs
lost (shut reason ∷ cs) = lost cs

-- The task after its loop: `finish`, and the end of the task.
unfoldable pub retire : Task → Task × List Notice
unfolding finish
retire t =
    let (actor, effects) = finish t.actor (text "房间通道已关闭") in
    (
      record t {
        actor = actor;
        commands = [];
        phase = ended;
        closed = t.closed || sets_closed effects;
      },
      lost t.commands,
    )

-- One turn of the task: the next command, or the end. A task with nothing to do stays.
unfoldable pub turn : Task → Task × List Notice
unfolding handle retire
turn t = elim t.phase [
  | ended ↦ (t, [])
  | ending ↦ retire t
  | serving ↦ elim t.commands [
    | [] ↦ (t, [])
    | c ∷ cs ↦
        let (actor, effects, ends) = handle t.actor c in
        (
          record t {
            actor = actor;
            commands = cs;
            phase = if ends then ending else serving;
            closed = t.closed || sets_closed effects;
          },
          notices effects,
        )
  ]
]

-- `recv` answers `None`: every handle is gone and nothing is queued.
unfoldable pub starve : Task → Task
starve t = elim t.phase [
  | ended ↦ t
  | ending ↦ t
  | serving ↦ elim t.commands [ [] ↦ record t { phase = ending } | c ∷ cs ↦ t ]
]
