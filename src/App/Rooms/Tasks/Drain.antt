-- ===== src/App/Rooms/Tasks/Drain.antt =====
-- crates/application/src/room/actor.rs: a room's task over many turns. Nobody who has sent a command
-- waits for ever.
use longship_x.Prelude.{
  ℕ, zero, suc, ◌≤◌, ◌≡◌, refl, sym, ◌∙◌, ap, inl, inr, Bool, true, false, ◌||◌, is_some, List, [],
  ◌∷◌, ◌++◌, append-nil, length, length-append, ltb, if◌then◌else◌, Bool-cases, arith,
}
use longship_x.Prelude.Text.{text}
use longship_x.Domain.Room.{Room, is_closed}
use longship_x.Domain.Room.Members.{IsValid}
use longship_x.App.Actor.{RoomActor, RoomCommand, spawn, handle}
use longship_x.App.Actor.Life.{
  IsRunning, finish_lem, handle-ends, handle-IsRunning, spawn-IsRunning,
}
use longship_x.App.Rooms.Tasks.{
  Phase, serving, ending, ended, Task, Notice, join_reply, leave_reply, dropped, sets_closed, lost,
  spawn_task, is_gone, queue_command, send, try_send, retire, turn, starve,
}
use longship_x.App.Rooms.Tasks.Turns.{
  awaits, answered, answered-lost, answered-handle, sets_closed-finish, sets_closed-handle,
}

-- What each phase says of the actor: it runs; nothing more; it has closed its room and left no command.
abbrev pub Stage : Phase → RoomActor → List RoomCommand → Type 0
Stage serving a cs = IsRunning a
Stage ending a cs = Unit {0}
Stage ended a cs = (is_closed a.room ≡ true) × (cs ≡ [])

-- A task between two turns. The flag that the handles see agrees with the room.
pub record IsSound (t : Task) : Type 0 where
  pub bounded : length t.commands ≤ t.capacity
  pub flag : t.closed ≡ is_closed t.actor.room
  pub stage : Stage t.phase t.actor t.commands

pub spawn_task-IsSound :
    (room : Room) (capacity : ℕ)
    → IsValid room
    → is_closed room ≡ false
    → room.members ≡ []
    → IsSound (spawn_task room capacity)
unfolding spawn_task spawn
spawn_task-IsSound room capacity valid open_still empty = record {
  bounded = omega arith;
  flag = sym open_still;
  stage = spawn-IsRunning room valid open_still empty;
}

retire-IsSound : (t : Task) → IsSound t → IsSound (retire t).0
unfolding retire
retire-IsSound t v =
    let over = finish_lem t.actor (text "房间通道已关闭") in
    let told = sets_closed-finish t.actor (text "房间通道已关闭") in
    record { bounded = omega arith; flag = ground (arith, over, told); stage = (over, refl) }

served-Stage :
    (a : RoomActor) (c : RoomCommand) (cs : List RoomCommand)
    → IsRunning a
    → Stage (if (handle a c).2 then ending else serving) (handle a c).0 cs
served-Stage a c cs v = elim (Bool-cases (handle a c).2) [
  | inl ends ↦ rw ends tt
  | inr goes_on ↦ rw goes_on (handle-IsRunning a c v goes_on)
]

-- The task that serves one command.
abbrev pub served : Task → RoomCommand → List RoomCommand → Task
served t c cs = record t {
  actor = (handle t.actor c).0;
  commands = cs;
  phase = if (handle t.actor c).2 then ending else serving;
  closed = t.closed || sets_closed (handle t.actor c).1;
}

served-IsSound :
    (t : Task) (c : RoomCommand) (cs : List RoomCommand)
    → length (c ∷ cs) ≤ t.capacity
    → t.closed ≡ is_closed t.actor.room
    → IsRunning t.actor
    → IsSound (served t c cs)
served-IsSound t c cs bounded flag v =
    let (kept, ends) = handle-ends t.actor c v in
    let told = sets_closed-handle t.actor c v in
    record {
      bounded = omega (arith, bounded);
      flag = ground (arith, flag, v.open_still, ends, told);
      stage = served-Stage t.actor c cs v;
    }

-- A task from its parts, to split on its phase and its queue.
abbrev task : RoomActor → ℕ → Bool → Phase → List RoomCommand → Task
task a capacity flag phase cs = record {
  actor = a;
  commands = cs;
  capacity = capacity;
  phase = phase;
  closed = flag;
}

step-IsSound :
    (a : RoomActor) (capacity : ℕ) (flag : Bool) (phase : Phase) (cs : List RoomCommand)
    → IsSound (task a capacity flag phase cs)
    → IsSound (turn (task a capacity flag phase cs)).0
unfolding turn
step-IsSound a capacity flag ended cs v = v
step-IsSound a capacity flag ending cs v = retire-IsSound (task a capacity flag ending cs) v
step-IsSound a capacity flag serving [] v = v
step-IsSound a capacity flag serving (c ∷ cs) v =
    served-IsSound (task a capacity flag serving (c ∷ cs)) c cs v.bounded v.flag v.stage

pub turn-IsSound : (t : Task) → IsSound t → IsSound (turn t).0
turn-IsSound t v = step-IsSound t.actor t.capacity t.closed t.phase t.commands v

step-answered :
    (a : RoomActor) (capacity : ℕ) (flag : Bool) (phase : Phase) (cs : List RoomCommand)
    → IsSound (task a capacity flag phase cs)
    → let (t, told) = turn (task a capacity flag phase cs) in
      answered told ++ awaits t.commands ≡ awaits cs
unfolding turn retire
step-answered a capacity flag ended cs v = refl
step-answered a capacity flag ending cs v = append-nil (answered (lost cs)) ∙ answered-lost cs
step-answered a capacity flag serving [] v = refl
step-answered a capacity flag serving (c ∷ cs) v = answered-handle a c cs v.stage.open_still

-- A turn settles replies of the queue in their order and leaves the others queued: none is lost, none is
-- settled twice.
pub turn-answered :
    (t : Task) → IsSound t → answered (turn t).1 ++ awaits (turn t).0.commands ≡ awaits t.commands
turn-answered t v = step-answered t.actor t.capacity t.closed t.phase t.commands v

step-shorter :
    (a : RoomActor) (capacity : ℕ) (flag : Bool) (phase : Phase) (cs : List RoomCommand) (n : ℕ)
    → IsSound (task a capacity flag phase cs)
    → length cs ≤ suc n
    → length (turn (task a capacity flag phase cs)).0.commands ≤ n
unfolding turn retire
step-shorter a capacity flag ended cs n v h = rw v.stage.1 (omega arith)
step-shorter a capacity flag ending cs n v h = omega arith
step-shorter a capacity flag serving [] n v h = omega arith
step-shorter a capacity flag serving (c ∷ cs) n v h = omega (arith, h)

pub turn-shorter :
    (t : Task) (n : ℕ) → IsSound t → length t.commands ≤ suc n → length (turn t).0.commands ≤ n
turn-shorter t n v h = step-shorter t.actor t.capacity t.closed t.phase t.commands n v h

-- So many turns, with all that the callers learn from them.
unfoldable pub drain : ℕ → Task → Task × List Notice
unfolding turn
drain zero t = (t, [])
drain (suc n) t = let (t', told) = turn t in let (t'', later) = drain n t' in (t'', told ++ later)

answered-append : (xs ys : List Notice) → answered (xs ++ ys) ≡ answered xs ++ answered ys
answered-append [] ys = refl
answered-append (join_reply r out ∷ xs) ys = ap (λ l. r ∷ l) (answered-append xs ys)
answered-append (leave_reply r out ∷ xs) ys = ap (λ l. r ∷ l) (answered-append xs ys)
answered-append (dropped r ∷ xs) ys = ap (λ l. r ∷ l) (answered-append xs ys)

nil-of_length : (cs : List RoomCommand) → length cs ≤ 0 → cs ≡ []
nil-of_length [] h = refl
nil-of_length (c ∷ cs) h = absurd (omega (arith, h))

-- After as many turns as a task has commands its queue is empty, and the replies that were owed have
-- all been answered, or dropped with the queue, each exactly once and in the order of the commands:
-- no caller waits for ever, whether the task goes on, ends meanwhile or had ended.
pub drain-answered :
    (n : ℕ) (t : Task)
    → IsSound t
    → length t.commands ≤ n
    → ((drain n t).0.commands ≡ []) × (answered (drain n t).1 ≡ awaits t.commands)
unfolding drain
drain-answered zero t v h =
    let empty = nil-of_length t.commands h in (empty, sym (ap (λ l. awaits l) empty))
drain-answered (suc n) t v h =
    let t' = (turn t).0 in
    let (empty, settled) = drain-answered n t' (turn-IsSound t v) (turn-shorter t n v h) in
    (
      empty,
      answered-append (turn t).1 (drain n t').1
          ∙ (ap (λ l. answered (turn t).1 ++ l) settled ∙ turn-answered t v),
    )

pub queue-IsSound :
    (t : Task) (c : RoomCommand)
    → IsSound t
    → is_gone t.phase ≡ false
    → ltb (length t.commands) t.capacity ≡ true
    → IsSound (queue_command t c)
queue-IsSound t c v here room = record {
  bounded = ground (arith, length-append t.commands (c ∷ []), room);
  flag = v.flag;
  stage = queued t.phase here v.stage;
}
  where
    queued :
        (p : Phase)
        → is_gone p ≡ false
        → Stage p t.actor t.commands
        → Stage p t.actor (t.commands ++ c ∷ [])
    queued serving h w = w
    queued ending h w = tt
    queued ended h w = absurd (ground (arith, h))

pub starve-IsSound : (t : Task) → IsSound t → IsSound (starve t)
unfolding starve
starve-IsSound t v = starved t.actor t.capacity t.closed t.phase t.commands v
  where
    starved :
        (a : RoomActor) (capacity : ℕ) (flag : Bool) (phase : Phase) (cs : List RoomCommand)
        → IsSound (task a capacity flag phase cs)
        → IsSound (starve (task a capacity flag phase cs))
    starved a capacity flag ended cs w = w
    starved a capacity flag ending cs w = w
    starved a capacity flag serving (c ∷ cs) w = w
    starved a capacity flag serving [] w = record { bounded = w.bounded; flag = w.flag; stage = tt }

-- What a poll of `send` leaves is sound, and the command is queued exactly if the poll says so.
pub send-IsSound : (t : Task) (c : RoomCommand) → IsSound t → IsSound (send t c).1
unfolding send
send-IsSound t c v = elim (Bool-cases (is_gone t.phase)) [
  | inl gone ↦ rw gone v
  | inr here ↦ elim (Bool-cases (ltb (length t.commands) t.capacity)) [
    | inl room ↦ rw (here, room) (queue-IsSound t c v here room)
    | inr full ↦ rw (here, full) v
  ]
]

pub try_send-IsSound : (t : Task) (c : RoomCommand) → IsSound t → IsSound (try_send t c).1
unfolding try_send
try_send-IsSound t c v = elim (Bool-cases (is_gone t.phase)) [
  | inl gone ↦ rw gone v
  | inr here ↦ elim (Bool-cases (ltb (length t.commands) t.capacity)) [
    | inl room ↦ rw (here, room) (queue-IsSound t c v here room)
    | inr full ↦ rw (here, full) v
  ]
]

step-send :
    (a : RoomActor) (capacity : ℕ) (flag : Bool) (phase : Phase) (cs : List RoomCommand)
    (c : RoomCommand)
    → IsSound (task a capacity flag phase cs)
    → 1 ≤ capacity
    → is_some (send (turn (task a capacity flag phase cs)).0 c).0 ≡ true
unfolding turn retire send
step-send a capacity flag ended cs c v h = refl
step-send a capacity flag ending cs c v h = refl
step-send a capacity flag serving [] c v h = ground arith
step-send a capacity flag serving (d ∷ cs) c v h = ground (arith, v.bounded)

-- A `send` never waits for more than one turn of the task, if its queue has a capacity at all.
pub send-turn :
    (t : Task) (c : RoomCommand) → IsSound t → 1 ≤ t.capacity → is_some (send (turn t).0 c).0 ≡ true
send-turn t c v h = step-send t.actor t.capacity t.closed t.phase t.commands c v h
