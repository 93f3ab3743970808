-- ===== src/App/Rooms/Tasks/Turns.antt =====
-- crates/application/src/room/actor.rs: what a turn of a room's task keeps true.
use longship_x.Prelude.{
  ◌≡◌, refl, sym, ◌∙◌, ap, inl, inr, Bool, true, false, ◌||◌, List, [], ◌∷◌, ◌++◌, map,
  if◌then◌else◌, Bool-cases, Option-cases, contains, nat_eq, arith,
}
use longship_x.Prelude.Map.{values, insert, lookup}
use longship_x.Prelude.Text.{Text, text, trim}
use longship_x.Domain.Error.{PlayerId}
use longship_x.Domain.Room.{close, is_closed, try_join}
use longship_x.Domain.Room.Members.{try_leave_lem}
use longship_x.App.Sink.{RoomEvent, closed, member_joined, member_left, chat}
use longship_x.App.Actor.{
  RoomActor, Member, RoomCommand, join, say, leave, shut, SinkId, ReplyId, Effect, reply_join,
  reply_leave, deliver, set_closed, broadcast, finish, handle_join, handle_chat, handle_leave,
  handle, deserted,
}
use longship_x.App.Actor.Effects.{Answer, joined, left, answers, deliveries}
use longship_x.App.Actor.Replies.{vacated, ended, expected, handle-answers, try_leave_result}
use longship_x.App.Actor.Life.{IsRunning, handle_join-IsRunning}
use longship_x.App.Rooms.Tasks.{
  Notice, join_reply, leave_reply, dropped, notices, sets_closed, lost,
}

-- The replies that a queue of commands still owes, and those that a list of notices settles.
abbrev pub awaits : List RoomCommand → List ReplyId
awaits [] = []
awaits (join player nickname sink reply ∷ cs) = reply ∷ awaits cs
awaits (leave player reason reply ∷ cs) = reply ∷ awaits cs
awaits (say player message ∷ cs) = awaits cs
awaits (shut reason ∷ cs) = awaits cs

abbrev pub answered : List Notice → List ReplyId
answered [] = []
answered (join_reply r out ∷ ns) = r ∷ answered ns
answered (leave_reply r out ∷ ns) = r ∷ answered ns
answered (dropped r ∷ ns) = r ∷ answered ns

abbrev reply_of : Answer → ReplyId
reply_of (joined r b) = r
reply_of (left r b) = r

answered-notices : (es : List Effect) → answered (notices es) ≡ map reply_of (answers es)
unfolding answers
answered-notices [] = refl
answered-notices (reply_join r out ∷ es) = ap (λ l. r ∷ l) (answered-notices es)
answered-notices (reply_leave r out ∷ es) = ap (λ l. r ∷ l) (answered-notices es)
answered-notices (deliver s e ∷ es) = answered-notices es
answered-notices (set_closed ∷ es) = answered-notices es

pub answered-lost : (cs : List RoomCommand) → answered (lost cs) ≡ awaits cs
answered-lost [] = refl
answered-lost (join player nickname sink reply ∷ cs) = ap (λ l. reply ∷ l) (answered-lost cs)
answered-lost (leave player reason reply ∷ cs) = ap (λ l. reply ∷ l) (answered-lost cs)
answered-lost (say player message ∷ cs) = answered-lost cs
answered-lost (shut reason ∷ cs) = answered-lost cs

-- The replies of one command, before those of the rest.
awaits-expected :
    (a a' : RoomActor) (c : RoomCommand) (cs : List RoomCommand)
    → map reply_of (expected a a' c) ++ awaits cs ≡ awaits (c ∷ cs)
awaits-expected a a' (join player nickname sink reply) cs = refl
awaits-expected a a' (say player message) cs = refl
awaits-expected a a' (leave player reason reply) cs = refl
awaits-expected a a' (shut reason) cs = refl

pub answered-handle :
    (a : RoomActor) (c : RoomCommand) (cs : List RoomCommand)
    → is_closed a.room ≡ false
    → answered (notices (handle a c).1) ++ awaits cs ≡ awaits (c ∷ cs)
answered-handle a c cs h =
    ap (λ l. l ++ awaits cs)
      (answered-notices (handle a c).1 ∙ ap (λ l. map reply_of l) (handle-answers a c h))
    ∙ awaits-expected a (handle a c).0 c cs

-- The flag is set by the command that ends the task, and by no other.
sets_closed-append :
    (xs ys : List Effect) → sets_closed (xs ++ ys) ≡ (sets_closed xs || sets_closed ys)
sets_closed-append [] ys = refl
sets_closed-append (reply_join r out ∷ xs) ys = sets_closed-append xs ys
sets_closed-append (reply_leave r out ∷ xs) ys = sets_closed-append xs ys
sets_closed-append (deliver s e ∷ xs) ys = sets_closed-append xs ys
sets_closed-append (set_closed ∷ xs) ys = refl

sets_closed-deliveries :
    (event : RoomEvent) (ms : List Member) → sets_closed (deliveries event ms) ≡ false
sets_closed-deliveries event [] = refl
sets_closed-deliveries event (m ∷ ms) = sets_closed-deliveries event ms

sets_closed-broadcast :
    (a : RoomActor) (event : RoomEvent) → sets_closed (broadcast a event) ≡ false
unfolding broadcast
sets_closed-broadcast a event = sets_closed-deliveries event (values a.members)

pub sets_closed-finish : (a : RoomActor) (reason : Text) → sets_closed (finish a reason).1 ≡ true
unfolding finish
sets_closed-finish a reason =
    let a' : RoomActor = record a { room = (close a.room).1 } in
    let told = if (close a.room).0 then broadcast a' (closed a'.room.id reason) else [] in
    ground (arith, sets_closed-append told (set_closed ∷ []))

sets_closed-join :
    (a : RoomActor) (player : PlayerId) (nickname : Text) (sink : SinkId) (reply : ReplyId)
    → sets_closed (handle_join a player nickname sink reply).1 ≡ false
unfolding handle_join try_join
sets_closed-join a player nickname sink reply =
    let a' : RoomActor = record {
      room = record (a.room) { members = a.room.members ++ player ∷ [] };
      members = insert player (record { nickname = nickname; sink = sink }) a.members;
      had_members = true;
    } in
    ground (arith, sets_closed-broadcast a' (member_joined a.room.id player nickname))

sets_closed-chat :
    (a : RoomActor) (player : PlayerId) (message : Text)
    → sets_closed (handle_chat a player message) ≡ false
unfolding handle_chat
sets_closed-chat a player message = elim (Option-cases (lookup player a.members)) [
  | inl e ↦ ground arith
  | inr (member, e) ↦
      ground (arith, sets_closed-broadcast a (chat a.room.id player member.nickname (trim message)))
]

sets_closed-ended : (a : RoomActor) → sets_closed (ended a).1 ≡ deserted a
sets_closed-ended a = ground (arith, sets_closed-finish a (text "最后一名成员已离开"))

deserted-ended : (a : RoomActor) → deserted (ended a).0 ≡ deserted a
unfolding finish close
deserted-ended a = ground arith

sets_closed-leave :
    (a : RoomActor) (player : PlayerId)
    → IsRunning a
    → sets_closed (handle_leave a player).2 ≡ deserted (handle_leave a player).1
unfolding handle_leave
sets_closed-leave a player v =
    let a' = vacated a player in
    let told = broadcast a' (member_left a'.room.id player) in
    let out = try_leave_result a player v.open_still in
    elim (Bool-cases (contains a.room.members player)) [
      | inl member ↦
          rw (out, member, handle_leave)
            (sets_closed-append told (ended a').1
              ∙ (ap (λ (b : Bool). b || sets_closed (ended a').1) (sets_closed-broadcast a' _)
                  ∙ (sets_closed-ended a' ∙ sym (deserted-ended a'))))
      | inr absent ↦
          let same : deserted a' ≡ false =
            ground (arith, try_leave_lem a.room player, v.inhabited) in
          rw (out, absent, handle_leave) (sym same)
    ]

pub sets_closed-handle :
    (a : RoomActor) (c : RoomCommand) → IsRunning a → sets_closed (handle a c).1 ≡ (handle a c).2
unfolding handle
sets_closed-handle a (join player nickname sink reply) v =
    sets_closed-join a player nickname sink reply
    ∙ sym (handle_join-IsRunning a player nickname sink reply v).1
sets_closed-handle a (say player message) v = sets_closed-chat a player message ∙ sym v.inhabited
sets_closed-handle a (leave player reason reply) v =
    let outcome = (handle_leave a player).0 in
    ground (
      arith,
      sets_closed-append (handle_leave a player).2 (reply_leave reply outcome ∷ []),
      sets_closed-leave a player v,
    )
sets_closed-handle a (shut reason) v = sets_closed-finish a reason
