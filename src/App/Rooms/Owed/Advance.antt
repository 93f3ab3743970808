-- ===== src/App/Rooms/Owed/Advance.antt =====
-- crates/application/src/room/service.rs: each operation's steps, and the step of any call.
use longship_x.Prelude.{
  ◌≡◌, refl, sym, subst, inl, inr, Bool, true, false, Option, none, some, is_some, ok, err, List,
  [], ◌∷◌, Bool-cases, Option-cases, if◌then◌else◌, ltb, length, nat_eq, arith, contains,
}
use longship_x.Prelude.Map.{lookup}
use longship_x.Prelude.Text.{Text, text}
use longship_x.Domain.Error.{PlayerId, RoomId, DateTime}
use longship_x.App.Error.{internal, busy}
use longship_x.App.Actor.{join, say, leave, shut, SinkId, ReplyId}
use longship_x.App.Rooms.Tasks.{is_gone, queue_command, try_send}
use longship_x.App.Rooms.Tasks.Drain.{queue-IsSound}
use longship_x.App.Rooms.{
  RoomServiceConfig, Slot, awaited, join_done, leave_done, sender_dropped, finished, failed, Call,
  create_room, look_join, send_join, wait_join, announce_join, discard_room, look_chat, send_chat,
  look_leave, send_leave, wait_leave, sweep_leave, announce_leave, list_rooms, drain_rooms,
  send_close, done, RoomService, leave_next, is_closed, unregister, put_task, live_handles, no_room,
}
use longship_x.App.Rooms.Calls.{
  open_reply, fail_join, step_join, receive_join, step_chat, step_leave, receive_leave, step_sweep,
  step_close, advance,
}
use longship_x.App.Rooms.Owed.Steps.{
  CoreOf, waits, Known, Kept, sent-Kept, idle-Kept, idle, plain-Kept, reply-Kept, waits-fail_join,
  waits-leave_next, create_and_join-Kept, handle_for-Kept,
}

contains_self : (r : ReplyId) → contains (r ∷ []) r ≡ true
contains_self r = ground arith

step_join-Kept :
    (s : RoomService) (created : Bool) (room : RoomId) (player : PlayerId) (nickname : Text)
    (sink : SinkId)
    → CoreOf s
    → Kept s (step_join s created room player nickname sink)
unfolding step_join
step_join-Kept s created room player nickname sink core =
    let command = join player nickname sink s.next in
    let next = wait_join created room player s.next in
    sent-Kept s room command (send_join created room player nickname sink)
      (λ e. (fail_join created room e, s)) (λ s'. (next, open_reply s'))
      (idle s (send_join created room player nickname sink) core refl)
      (λ e. idle s (fail_join created room e) core (waits-fail_join created room e))
      (λ t there sound.
        reply-Kept s room t command next core there sound (contains_self s.next) refl)
      core

step_leave-Kept :
    (s : RoomService) (room : RoomId) (player : PlayerId) (reason : Text) (rest : List RoomId)
    → CoreOf s
    → Kept s (step_leave s room player reason rest)
unfolding step_leave
step_leave-Kept s room player reason rest core =
    let command = leave player reason s.next in
    let next = wait_leave room player reason rest s.next in
    let gone = leave_next player reason rest in
    sent-Kept s room command (send_leave room player reason rest)
      (λ e. if is_closed s room then (gone, unregister room s) else (done (failed e), s))
      (λ s'. (next, open_reply s')) (idle s (send_leave room player reason rest) core refl)
      (λ e. elim (Bool-cases (is_closed s room)) [
        | inl over ↦ rw over (
            idle-Kept s (unregister room s) gone core refl refl refl refl
              (waits-leave_next player reason rest))
        | inr runs ↦ rw runs (idle s (done (failed e)) core refl)
      ])
      (λ t there sound.
        reply-Kept s room t command next core there sound (contains_self s.next) refl)
      core

step_close-Kept :
    (s : RoomService) (reason : Text) (rooms : List RoomId)
    → CoreOf s
    → Kept s (step_close s reason rooms)
unfolding step_close
step_close-Kept s reason [] core = idle s (done finished) core refl
step_close-Kept s reason (room ∷ rooms) core =
    let next = send_close reason rooms in
    sent-Kept s room (shut reason) (send_close reason (room ∷ rooms)) (λ e. (next, s))
      (λ s'. (next, s')) (idle s (send_close reason (room ∷ rooms)) core refl)
      (λ e. idle s next core refl)
      (λ t there sound. plain-Kept s room t (shut reason) next core there sound refl) core

step_chat-Kept :
    (s : RoomService) (room : RoomId) (player : PlayerId) (message : Text)
    → CoreOf s
    → Kept s (step_chat s room player message)
unfolding step_chat try_send
step_chat-Kept s room player message core =
    let command = say player message in
    elim (Option-cases (lookup room s.tasks)) [
      | inl missing ↦ rw (missing, step_chat) (idle s (done (failed no_room)) core refl)
      | inr (t, there) ↦ elim (Bool-cases (is_gone t.phase)) [
        | inl gone ↦ rw (there, step_chat, gone) (idle s (done (failed no_room)) core refl)
        | inr here ↦ elim (Bool-cases (ltb (length t.commands) t.capacity)) [
          | inl free ↦
              let queue : (try_send t command).1 ≡ queue_command t command = rw (here, free) refl in
              let sound = queue-IsSound t command (core.sound room t there) here free in
              rw (there, step_chat, here, free)
                (subst (λ t'. Kept s (done finished, put_task room t' s)) (sym queue)
                  (plain-Kept s room t command (done finished) core there sound refl))
          | inr full ↦ rw (there, step_chat, here, full) (idle s (done (failed busy)) core refl)
        ]
      ]
    ]

step_sweep-Kept :
    (s : RoomService) (left : Bool) (room : RoomId) (player : PlayerId) (reason : Text)
    (rest : List RoomId)
    → CoreOf s
    → Kept s (step_sweep s left room player reason rest)
unfolding step_sweep
step_sweep-Kept s left room player reason rest core =
    let next =
      if left then announce_leave room player reason rest else leave_next player reason rest in
    let silent : waits next ≡ none = ground (arith, waits-leave_next player reason rest) in
    elim (Bool-cases (is_closed s room)) [
      | inl over ↦ rw over (idle-Kept s (unregister room s) next core refl refl refl refl silent)
      | inr runs ↦ rw runs (idle s next core silent)
    ]

-- A call that keeps waiting waits for the reply that it has waited for.
still-Kept :
    (s : RoomService) (reply : ReplyId) (call : Call)
    → CoreOf s
    → is_some (lookup reply s.replies) ≡ true
    → ((r : ReplyId) → waits call ≡ some r → reply ≡ r)
    → Kept s (call, s)
still-Kept s reply call core known same = record {
  core = core;
  known = λ r h. subst (λ k. is_some (lookup k s.replies) ≡ true) (same r h) known;
  grows = λ r h. h;
  others = refl;
}

waits-receive_join :
    (created : Bool) (room : RoomId) (player : PlayerId) (reply : ReplyId) (o : Option Slot)
    (r : ReplyId)
    → waits (receive_join created room player reply o) ≡ some r
    → reply ≡ r
waits-receive_join created room player reply none r h = ground (arith, h)
waits-receive_join created room player reply (some awaited) r h = ground (arith, h)
waits-receive_join created room player reply (some (leave_done out)) r h = ground (arith, h)
waits-receive_join created room player reply (some (join_done (ok u))) r h = ground (arith, h)
waits-receive_join created room player reply (some (join_done (err e))) r h =
    ground (arith, h, waits-fail_join created room e)
waits-receive_join created room player reply (some sender_dropped) r h =
    ground (arith, h, waits-fail_join created room (internal (text "房间已关闭,加入结果未知")))

waits-receive_leave :
    (over : Bool) (room : RoomId) (player : PlayerId) (reason : Text) (rest : List RoomId)
    (reply : ReplyId) (o : Option Slot) (r : ReplyId)
    → waits (receive_leave over room player reason rest reply o) ≡ some r
    → reply ≡ r
waits-receive_leave over room player reason rest reply none r h = ground (arith, h)
waits-receive_leave over room player reason rest reply (some awaited) r h = ground (arith, h)
waits-receive_leave over room player reason rest reply (some (join_done out)) r h =
    ground (arith, h)
waits-receive_leave over room player reason rest reply (some (leave_done (ok left))) r h =
    ground (arith, h)
waits-receive_leave over room player reason rest reply (some (leave_done (err e))) r h =
    ground (arith, h)
waits-receive_leave true room player reason rest reply (some sender_dropped) r h = ground (arith, h)
waits-receive_leave false room player reason rest reply (some sender_dropped) r h =
    ground (arith, h)

pub advance-Kept :
    (config : RoomServiceConfig) (now : DateTime) (s : RoomService) (call : Call)
    → CoreOf s
    → Known s.replies call
    → Kept s (advance config now s call)
unfolding advance live_handles
advance-Kept config now s (create_room player nickname sink) core known =
    create_and_join-Kept config now s player nickname sink core
advance-Kept config now s (look_join created room player nickname sink) core known =
    handle_for-Kept s room _ _ core refl (waits-fail_join created room no_room)
advance-Kept config now s (send_join created room player nickname sink) core known =
    step_join-Kept s created room player nickname sink core
advance-Kept config now s (wait_join created room player reply) core known =
    still-Kept s reply _ core (known reply refl)
      (waits-receive_join created room player reply (lookup reply s.replies))
advance-Kept config now s (announce_join room player) core known =
    idle-Kept s _ _ core refl refl refl refl refl
advance-Kept config now s (discard_room room e) core known =
    idle-Kept s _ _ core refl refl refl refl refl
advance-Kept config now s (look_chat room player message) core known =
    handle_for-Kept s room _ _ core refl refl
advance-Kept config now s (send_chat room player message) core known =
    step_chat-Kept s room player message core
advance-Kept config now s (look_leave room player reason rest) core known =
    handle_for-Kept s room _ _ core refl (waits-leave_next player reason rest)
advance-Kept config now s (send_leave room player reason rest) core known =
    step_leave-Kept s room player reason rest core
advance-Kept config now s (wait_leave room player reason rest reply) core known =
    still-Kept s reply _ core (known reply refl) (
      waits-receive_leave (is_closed s room) room player reason rest reply (lookup reply s.replies))
advance-Kept config now s (sweep_leave left room player reason rest) core known =
    step_sweep-Kept s left room player reason rest core
advance-Kept config now s (announce_leave room player reason rest) core known =
    idle-Kept s _ _ core refl refl refl refl (waits-leave_next player reason rest)
advance-Kept config now s (list_rooms player reason) core known =
    idle-Kept s _ _ core refl refl refl refl (waits-leave_next player reason (live_handles s).0)
advance-Kept config now s (drain_rooms reason) core known =
    idle-Kept s _ _ core refl refl refl refl refl
advance-Kept config now s (send_close reason rooms) core known = step_close-Kept s reason rooms core
advance-Kept config now s (done outcome) core known = idle s (done outcome) core refl
