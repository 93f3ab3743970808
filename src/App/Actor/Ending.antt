-- ===== src/App/Actor/Ending.antt =====
-- The end of the actor's task: every member is told of it, exactly once.
use longship_x.Prelude.{
  ◌≡◌, inl, inr, refl, sym, ◌∙◌, ap, Bool, true, false, Result, List, [], ◌∷◌, ◌++◌, append-nil,
  append_assoc, contains, if◌then◌else◌, nat_eq, arith, Bool-cases, Option-cases,
}
use longship_x.Prelude.Map.{insert, Map, lookup}
use longship_x.Prelude.Text.{Text, text, trim}
use longship_x.Domain.Error.{PlayerId}
use longship_x.Domain.Room.{Room, try_join, close, is_closed}
use longship_x.Domain.Room.Members.{IsValid, try_leave_lem}
use longship_x.App.Error.{AppError}
use longship_x.App.Sink.{closed, member_left, member_joined, chat}
use longship_x.App.Actor.{
  RoomActor, Member, RoomCommand, join, say, leave, shut, SinkId, ReplyId, reply_leave, set_closed,
  spawn, broadcast, finish, handle_join, handle_chat, handle_leave, handle, deserted, run_loop, run,
}
use longship_x.App.Actor.Replies.{vacated, ended, try_leave_result}
use longship_x.App.Actor.Effects.{closed_to, sinks, closed_to-append, closed_to-broadcast}
use longship_x.App.Actor.Life.{
  IsRunning, finish_lem, handle-ends, handle_join-IsRunning, handle-IsRunning, spawn-IsRunning,
}

closed_to-finish :
    (a : RoomActor) (reason : Text)
    → closed_to (finish a reason).1 ≡ (if is_closed a.room then [] else sinks a.members)
unfolding finish close closed_to
closed_to-finish a reason =
    let a' : RoomActor = record a { room = (close a.room).1 } in
    let event = closed a'.room.id reason in
    ground (
      arith,
      closed_to-append (broadcast a' event) (set_closed ∷ []),
      closed_to-broadcast a' event,
      append-nil (sinks a.members),
    )

closed_to-ended :
    (a : RoomActor)
    → closed_to (ended a).1
      ≡ (if deserted a then (if is_closed a.room then [] else sinks a.members) else [])
unfolding closed_to
closed_to-ended a = ground (arith, closed_to-finish a (text "最后一名成员已离开"))

closed_to-ended_open :
    (a : RoomActor)
    → is_closed a.room ≡ false
    → closed_to (ended a).1 ≡ (if deserted a then sinks a.members else [])
closed_to-ended_open a h = closed_to-ended a ∙ ap choose h
  where
    choose : Bool → List SinkId
    choose c = if deserted a then (if c then [] else sinks a.members) else []

deserted-finish : (a : RoomActor) (reason : Text) → deserted (finish a reason).0 ≡ deserted a
unfolding finish close
deserted-finish a reason = ground arith

deserted-ended : (a : RoomActor) → deserted (ended a).0 ≡ deserted a
deserted-ended a = ground (arith, deserted-finish a (text "最后一名成员已离开"))

closed_to-join :
    (a : RoomActor) (player : PlayerId) (nickname : Text) (sink : SinkId) (reply : ReplyId)
    → closed_to (handle_join a player nickname sink reply).1 ≡ []
unfolding handle_join closed_to try_join
closed_to-join a player nickname sink reply =
    let member : Member = record { nickname = nickname; sink = sink } in
    let a' : RoomActor = record {
      room = record (a.room) { members = a.room.members ++ player ∷ [] };
      members = insert player member a.members;
      had_members = true;
    } in
    ground (arith, closed_to-broadcast a' (member_joined a.room.id player nickname))

closed_to-chat :
    (a : RoomActor) (player : PlayerId) (message : Text)
    → closed_to (handle_chat a player message) ≡ []
unfolding handle_chat closed_to
closed_to-chat a player message = elim (Option-cases (lookup player a.members)) [
  | inl e ↦ ground arith
  | inr (member, e) ↦
      ground (arith, closed_to-broadcast a (chat a.room.id player member.nickname (trim message)))
]

closed_to-leave :
    (a : RoomActor) (player : PlayerId)
    → IsRunning a
    → closed_to (handle_leave a player).2
      ≡ (if deserted (handle_leave a player).1 then sinks a.members else [])
unfolding handle_leave
closed_to-leave a player v =
    let a' = vacated a player in
    let told = broadcast a' (member_left a'.room.id player) in
    let out = try_leave_result a player v.open_still in
    let still : is_closed a'.room ≡ false = ground (arith, try_leave_lem a.room player) in
    elim (Bool-cases (contains a.room.members player)) [
      | inl member ↦
          rw (out, member, handle_leave)
            (closed_to-append told (ended a').1
              ∙ (ap (λ l. l ++ closed_to (ended a').1) (closed_to-broadcast a' _)
                  ∙ (closed_to-ended_open a' still
                      ∙ ap (λ (d : Bool). if d then sinks a.members else [])
                          (sym (deserted-ended a')))))
      | inr absent ↦
          let same : deserted a' ≡ false = ground (arith, try_leave_lem a.room player) in
          rw (out, absent, handle_leave) (rw same (unfold closed_to in refl))
    ]

closed_to_reply :
    (reply : ReplyId) (out : Result Bool AppError) → closed_to (reply_leave reply out ∷ []) ≡ []
unfolding closed_to
closed_to_reply reply out = refl

-- Every member is told of the end once: a command that ends the task sends `Closed` to each sink that
-- was registered before it, and no other command sends it to anybody.
pub handle-closed_to :
    (a : RoomActor) (c : RoomCommand)
    → IsRunning a
    → closed_to (handle a c).1 ≡ (if (handle a c).2 then sinks a.members else [])
unfolding handle
handle-closed_to a (join player nickname sink reply) v =
    let r = handle_join-IsRunning a player nickname sink reply v in
    closed_to-join a player nickname sink reply ∙ rw r.1 refl
handle-closed_to a (say player message) v = closed_to-chat a player message ∙ rw v.inhabited refl
handle-closed_to a (leave player reason reply) v =
    closed_to-append (handle_leave a player).2 (reply_leave reply (handle_leave a player).0 ∷ [])
    ∙ (ap (λ l. closed_to (handle_leave a player).2 ++ l)
          (closed_to_reply reply (handle_leave a player).0)
        ∙ (append-nil _ ∙ closed_to-leave a player v))
handle-closed_to a (shut reason) v = closed_to-finish a reason ∙ rw v.open_still refl

-- The table of members when the command arrives that ends the task, or when the queue closes.
unfoldable pub last_members : RoomActor → List RoomCommand → Map PlayerId Member
last_members a [] = a.members
last_members a (c ∷ cs) =
    let later = last_members (handle a c).0 cs in if (handle a c).2 then a.members else later

closed_to-finish_open :
    (a : RoomActor) (reason : Text)
    → is_closed a.room ≡ false
    → closed_to (finish a reason).1 ≡ sinks a.members
closed_to-finish_open a reason h = closed_to-finish a reason ∙ rw h refl

closed_to-finish_closed :
    (a : RoomActor) (reason : Text) → is_closed a.room ≡ true → closed_to (finish a reason).1 ≡ []
closed_to-finish_closed a reason h = closed_to-finish a reason ∙ rw h refl

-- The final message of `run`.
abbrev final : Text
final = text "房间通道已关闭"

run_loop-closed_to :
    (a : RoomActor) (cs : List RoomCommand)
    → IsRunning a
    → closed_to ((run_loop a cs).1 ++ (finish (run_loop a cs).0 final).1)
      ≡ sinks (last_members a cs)
unfolding run_loop last_members
run_loop-closed_to a [] v = closed_to-finish_open a final v.open_still
run_loop-closed_to a (c ∷ cs) v = elim (Bool-cases (handle a c).2) [
  | inl stops ↦
      let gone = sym (handle-ends a c v).1 ∙ stops in
      rw stops (
        closed_to-append (handle a c).1 (finish (handle a c).0 final).1
        ∙ (ap (λ l. closed_to (handle a c).1 ++ l)
              (closed_to-finish_closed (handle a c).0 final gone)
            ∙ (append-nil _ ∙ (handle-closed_to a c v ∙ rw stops refl))))
  | inr goes_on ↦
      let a' = (handle a c).0 in
      let later = run_loop a' cs in
      let silent : closed_to (handle a c).1 ≡ [] = handle-closed_to a c v ∙ rw goes_on refl in
      rw goes_on (
        ap closed_to (append_assoc (handle a c).1 later.1 (finish later.0 final).1)
        ∙ (closed_to-append (handle a c).1 (later.1 ++ (finish later.0 final).1)
            ∙ (ap (λ l. l ++ closed_to (later.1 ++ (finish later.0 final).1)) silent
                ∙ run_loop-closed_to a' cs (handle-IsRunning a c v goes_on))))
]

-- However the task ends, by a `Close`, by the last member's leaving or because its queue closed, the
-- room is closed, and `Closed` has been sent exactly once to each sink that was registered when the
-- end came, and to no other.
pub run-closed_to :
    (room : Room) (cs : List RoomCommand)
    → IsValid room
    → is_closed room ≡ false
    → room.members ≡ []
    → (is_closed (run (spawn room) cs).0.room ≡ true)
      × (closed_to (run (spawn room) cs).1 ≡ sinks (last_members (spawn room) cs))
unfolding run
run-closed_to room cs valid open_still empty = (
  finish_lem (run_loop (spawn room) cs).0 final,
  run_loop-closed_to (spawn room) cs (spawn-IsRunning room valid open_still empty),
)
