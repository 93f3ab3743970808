-- ===== src/App/Rooms/Owed/Steps.antt =====
-- crates/application/src/room/service.rs: a call's step keeps the tasks sound and every reply owed.
use longship_x.Prelude.{
  ℕ, ◌≡◌, refl, sym, ap, subst, inl, inr, Bool, true, false, Option, none, some, is_some, List, [],
  ◌∷◌, Bool-cases, Option-cases, ltb, length, nat_eq, arith, contains, ◌++◌,
}
use longship_x.Prelude.Map.{lookup, insert, lookup-insert}
use longship_x.Prelude.Text.{Text, text}
use longship_x.Domain.Error.{PlayerId, RoomId, DateTime}
use longship_x.Domain.Room.{open_room}
use longship_x.Domain.Room.Members.{open_room-IsValid}
use longship_x.App.Error.{AppError, not_found}
use longship_x.App.Actor.{RoomCommand, SinkId, ReplyId}
use longship_x.App.Rooms.Tasks.{Task, spawn_task, is_gone, queue_command, send}
use longship_x.App.Rooms.Tasks.Turns.{awaits}
use longship_x.App.Rooms.Tasks.Drain.{IsSound, spawn_task-IsSound, queue-IsSound}
use longship_x.App.Rooms.Owed.{
  Replies, Core, queue-Core, open-Core, spawn-Core, awaits-append, contains-append,
}
use longship_x.App.Rooms.{
  RoomServiceConfig, awaited, Call, wait_join, wait_leave, RoomService, leave_next, is_closed,
  unregister, put_task, handle_for, no_room,
}
use longship_x.App.Rooms.Calls.{sent, open_reply, fail_join, create_and_join, found}

abbrev pub CoreOf : RoomService → Type 0
CoreOf s = Core s.tasks s.replies s.next

-- The reply that a call waits for.
abbrev pub waits : Call → Option ReplyId
waits (wait_join created room player reply) = some reply
waits (wait_leave room player reason rest reply) = some reply
waits _ = none

abbrev pub Known : Replies → Call → Type 0
Known m call = (r : ReplyId) → waits call ≡ some r → is_some (lookup r m) ≡ true

abbrev pub Grows : Replies → Replies → Type 0
Grows m m' = (r : ReplyId) → is_some (lookup r m) ≡ true → is_some (lookup r m') ≡ true

-- What a step of a call must keep, and what it may not touch.
pub record Kept (s : RoomService) (x : Call × RoomService) : Type 0 where
  pub core : CoreOf x.1
  pub known : Known x.1.replies x.0
  pub grows : Grows s.replies x.1.replies
  pub others : x.1.calls ≡ s.calls

-- Nothing happens to tasks and replies, and the next point waits for no reply.
pub idle-Kept :
    (s s' : RoomService) (call : Call)
    → CoreOf s
    → s'.tasks ≡ s.tasks
    → s'.replies ≡ s.replies
    → s'.next ≡ s.next
    → s'.calls ≡ s.calls
    → waits call ≡ none
    → Kept s (call, s')
idle-Kept s s' call core et er en ec w = record {
  core =
      subst (λ ts. Core ts s'.replies s'.next) (sym et)
        (subst (λ rs. Core s.tasks rs s'.next) (sym er)
          (subst (λ n. Core s.tasks s.replies n) (sym en) (core)));
  known = λ r h. absurd (ground (arith, w, h));
  grows = λ r h. subst (λ rs. is_some (lookup r rs) ≡ true) (sym er) h;
  others = ec;
}

pub idle : (s : RoomService) (call : Call) → CoreOf s → waits call ≡ none → Kept s (call, s)
idle s call core w = idle-Kept s s call core refl refl refl refl w

-- The three ways a `send` goes, with what a queued command needs.
pub sent-Kept :
    (s : RoomService) (room : RoomId) (command : RoomCommand) (stay : Call)
    (fail : AppError → Call × RoomService) (queued : RoomService → Call × RoomService)
    → Kept s (stay, s)
    → ((e : AppError) → Kept s (fail e))
    → ((t : Task)
        → lookup room s.tasks ≡ some t
        → IsSound (queue_command t command)
        → Kept s (queued (put_task room (queue_command t command) s)))
    → CoreOf s
    → Kept s (sent s room command stay fail queued)
unfolding send
sent-Kept s room command stay fail queued stays fails queues core =
    elim (Option-cases (lookup room s.tasks)) [
      | inl missing ↦ rw (missing, sent) (fails no_room)
      | inr (t, there) ↦ elim (Bool-cases (is_gone t.phase)) [
        | inl gone ↦ rw (there, sent, gone) (fails (not_found (text "房间不存在")))
        | inr here ↦ elim (Bool-cases (ltb (length t.commands) t.capacity)) [
          | inl free ↦
              let queue : (send t command).1 ≡ queue_command t command = rw (here, free) refl in
              let sound = queue-IsSound t command (core.sound room t there) here free in
              rw (there, sent, here, free)
                (subst (λ t'. Kept s (queued (put_task room t' s))) (sym queue)
                  (queues t there sound))
          | inr full ↦ rw (there, sent, here, full) stays
        ]
      ]
    ]

-- A command without a reply is queued, and the call goes on to a point that waits for none.
pub plain-Kept :
    (s : RoomService) (room : RoomId) (t : Task) (command : RoomCommand) (call : Call)
    → CoreOf s
    → lookup room s.tasks ≡ some t
    → IsSound (queue_command t command)
    → waits call ≡ none
    → Kept s (call, put_task room (queue_command t command) s)
plain-Kept s room t command call core there sound w = record {
  core = queue-Core s.tasks s.replies s.next room t command core there sound;
  known = λ r h. absurd (ground (arith, w, h));
  grows = λ r h. h;
  others = refl;
}

-- A command with a new reply channel is queued, and the call waits for that reply.
pub reply-Kept :
    (s : RoomService) (room : RoomId) (t : Task) (command : RoomCommand) (call : Call)
    → CoreOf s
    → lookup room s.tasks ≡ some t
    → IsSound (queue_command t command)
    → contains (awaits (command ∷ [])) s.next ≡ true
    → waits call ≡ some s.next
    → Kept s (call, open_reply (put_task room (queue_command t command) s))
reply-Kept s room t command call core there sound asks w =
    let tasks = insert room (queue_command t command) s.tasks in
    let has : contains (awaits (t.commands ++ command ∷ [])) s.next ≡ true = ground (
      arith,
      ap (λ l. contains l s.next) (awaits-append t.commands (command ∷ [])),
      contains-append (awaits t.commands) (awaits (command ∷ [])) s.next,
      asks,
    ) in
    record {
      core =
          open-Core tasks s.replies s.next
            (queue-Core s.tasks s.replies s.next room t command core there sound)
            (
              room,
              queue_command t command,
              ground (arith, lookup-insert room room (queue_command t command) s.tasks),
              has,
            );
      known = λ r h. ground (arith, lookup-insert s.next r awaited s.replies, w, h);
      grows = λ r h. ground (arith, lookup-insert s.next r awaited s.replies, h);
      others = refl;
    }

pub waits-fail_join :
    (created : Bool) (room : RoomId) (e : AppError) → waits (fail_join created room e) ≡ none
waits-fail_join true room e = refl
waits-fail_join false room e = refl

pub waits-leave_next :
    (player : PlayerId) (reason : Text) (rooms : List RoomId)
    → waits (leave_next player reason rooms) ≡ none
waits-leave_next player reason [] = refl
waits-leave_next player reason (room ∷ rooms) = refl

pub create_and_join-Kept :
    (config : RoomServiceConfig) (now : DateTime) (s : RoomService) (player : PlayerId)
    (nickname : Text) (sink : SinkId)
    → CoreOf s
    → Kept s (create_and_join config now s player nickname sink)
unfolding create_and_join
create_and_join-Kept config now s player nickname sink core = record {
  core = spawn-Core s.tasks s.replies s.next _ core (opened s.next config.max_players);
  known = λ r h. absurd (ground (arith, h));
  grows = λ r h. h;
  others = refl;
}
  where
    opened : (id n : ℕ) → IsSound (spawn_task (open_room id n now) config.command_capacity)
    opened id n =
        spawn_task-IsSound (open_room id n now) config.command_capacity (open_room-IsValid id n now)
          (unfold open_room in refl) (unfold open_room in refl)

pub handle_for-Kept :
    (s : RoomService) (room : RoomId) (here missing : Call)
    → CoreOf s
    → waits here ≡ none
    → waits missing ≡ none
    → Kept s (found (handle_for s room) here missing)
unfolding handle_for
handle_for-Kept s room here missing core wh wm = elim (Bool-cases (contains s.registry room)) [
  | inl there ↦ elim (Bool-cases (is_closed s room)) [
    | inl over ↦
        rw (there, over) (idle-Kept s (unregister room s) missing core refl refl refl refl wm)
    | inr runs ↦ rw (there, runs) (idle s here core wh)
  ]
  | inr gone ↦ rw gone (idle s missing core wm)
]
