-- ===== src/App/Actor/Replies.antt =====
-- What the effects of one command are: who is answered, and whose sink gets an event.
use longship_x.Prelude.{
  ◌≡◌, refl, ◌∙◌, ap, true, false, ◌&&◌, not, some, ok, List, [], ◌∷◌, ◌++◌, length, contains, leb,
  if◌then◌else◌, nat_eq, arith, Bool-cases, Option-cases, inl, inr,
}
use longship_x.Prelude.Map.{insert, lookup}
use longship_x.Prelude.Text.{Text, text, trim, is_empty}
use longship_x.Domain.Error.{PlayerId}
use longship_x.Domain.Room.{try_join, try_leave, close, is_closed}
use longship_x.Domain.Room.Members.{try_leave_lem, contains-append_self}
use longship_x.App.Sink.{member_joined, member_left, chat, closed}
use longship_x.App.Actor.{
  RoomActor, Member, RoomCommand, join, say, leave, shut, SinkId, ReplyId, Effect, reply_leave,
  set_closed, broadcast, finish, handle_join, handle_chat, handle_leave, handle, deserted,
}
use longship_x.App.Actor.Effects.{
  Answer, joined, left, answers, Saying, chat_to, each, nickname_of, sinks, answers-append,
  chat_to-deliveries, answers-broadcast,
}
use longship_x.App.Actor.Membership.{Inv, lookup-keys}

pub is_empty-length : (t : Text) → is_empty t ≡ not (leb 1 (length t))
is_empty-length [] = refl
is_empty-length (c ∷ t) = ground arith

-- What a member says.
abbrev pub saying_of : RoomActor → PlayerId → Text → Saying
saying_of a player said = record {
  room = a.room.id;
  sender = player;
  nickname = nickname_of a player;
  message = said;
}

-- A chat message goes, trimmed and under the sender's name, to every member's sink, the sender's too, if
-- its sender is a member and its trimmed text has 1 to 512 characters, and to nobody otherwise.
pub handle_chat-chat_to :
    (a : RoomActor) (player : PlayerId) (message : Text)
    → Inv a
    → chat_to (handle_chat a player message) ≡ (
        if contains a.room.members player
          && (leb 1 (length (trim message)) && leb (length (trim message)) 512)
        then each (saying_of a player (trim message)) (sinks a.members)
        else [])
unfolding handle_chat broadcast chat_to
handle_chat-chat_to a player message v = elim (Option-cases (lookup player a.members)) [
  | inl none_there ↦ ground (arith, lookup-keys player a.members)
  | inr (member, found) ↦ ground (
    arith,
    found,
    lookup-keys player a.members,
    is_empty-length (trim message),
    chat_to-deliveries (saying_of a player (trim message)) a.members,
  )
]

-- How each command is answered, by what the actor holds before it and after it.
abbrev pub expected : RoomActor → RoomActor → RoomCommand → List Answer
expected a a' (join player nickname sink reply) =
    joined reply (contains a'.room.members player) ∷ []
expected a a' (leave player reason reply) = left reply (some (contains a.room.members player)) ∷ []
expected a a' (say player message) = []
expected a a' (shut reason) = []

answers-finish : (a : RoomActor) (reason : Text) → answers (finish a reason).1 ≡ []
unfolding finish close answers
answers-finish a reason =
    let told =
      broadcast (record a { room = (close a.room).1 }) (closed (close a.room).1.id reason) in
    ground (
      arith,
      answers-append told (set_closed ∷ []),
      answers-broadcast (record a { room = (close a.room).1 }) (closed (close a.room).1.id reason),
    )

answers-join :
    (a : RoomActor) (player : PlayerId) (nickname : Text) (sink : SinkId) (reply : ReplyId)
    → is_closed a.room ≡ false
    → let (a', effects) = handle_join a player nickname sink reply in
      answers effects ≡ joined reply (contains a'.room.members player) ∷ []
unfolding handle_join try_join answers
answers-join a player nickname sink reply running =
    let member : Member = record { nickname = nickname; sink = sink } in
    let a' : RoomActor = record {
      room = record (a.room) { members = a.room.members ++ player ∷ [] };
      members = insert player member a.members;
      had_members = true;
    } in
    ground (
      arith,
      answers-broadcast a' (member_joined a.room.id player nickname),
      contains-append_self a.room.members player,
    )

answers-chat :
    (a : RoomActor) (player : PlayerId) (message : Text)
    → answers (handle_chat a player message) ≡ []
unfolding handle_chat answers
answers-chat a player message = elim (Option-cases (lookup player a.members)) [
  | inl e ↦ ground arith
  | inr (member, e) ↦
      ground (arith, answers-broadcast a (chat a.room.id player member.nickname (trim message)))
]

-- The actor after the domain rule has run, and what it does when nobody is left.
abbrev pub vacated : RoomActor → PlayerId → RoomActor
vacated a player = record a { room = (try_leave a.room player).1 }

abbrev pub ended : RoomActor → RoomActor × List Effect
ended a = if deserted a then finish a (text "最后一名成员已离开") else (a, [])

answers-ended : (a : RoomActor) → answers (ended a).1 ≡ []
unfolding answers
answers-ended a = ground (arith, answers-finish a (text "最后一名成员已离开"))

pub try_leave_result :
    (a : RoomActor) (player : PlayerId)
    → is_closed a.room ≡ false
    → (try_leave a.room player).0 ≡ ok (contains a.room.members player)
try_leave_result a player running = ground (arith, try_leave_lem a.room player)

answers-leave :
    (a : RoomActor) (player : PlayerId)
    → is_closed a.room ≡ false
    → ((handle_leave a player).0 ≡ ok (contains a.room.members player))
      × (answers (handle_leave a player).2 ≡ [])
unfolding handle_leave answers
answers-leave a player running =
    let out = try_leave_result a player running in
    let a' = vacated a player in
    let told = broadcast a' (member_left a'.room.id player) in
    elim (Bool-cases (contains a.room.members player)) [
      | inl member ↦
          rw (out, member, handle_leave)
            (
              refl,
              answers-append told (ended a').1
                  ∙ (ap (λ l. l ++ answers (ended a').1) (answers-broadcast a' _)
                      ∙ answers-ended a'),
            )
      | inr absent ↦ rw (out, absent, handle_leave) (refl, refl)
    ]

-- While the room is open every command is answered exactly as it should be: a join once, with
-- success exactly if the player is a member afterwards; a leave once, with whether the player was a
-- member before; chat and close not at all.
pub handle-answers :
    (a : RoomActor) (c : RoomCommand)
    → is_closed a.room ≡ false
    → answers (handle a c).1 ≡ expected a (handle a c).0 c
unfolding handle answers
handle-answers a (join player nickname sink reply) h = answers-join a player nickname sink reply h
handle-answers a (say player message) h = answers-chat a player message
handle-answers a (leave player reason reply) h =
    let (out, silent) = answers-leave a player h in
    answers-append (handle_leave a player).2 (reply_leave reply (handle_leave a player).0 ∷ [])
    ∙ rw (silent, out) refl
handle-answers a (shut reason) h = answers-finish a reason
