-- ===== src/App/Rooms/Texts.antt =====
-- crates/application/src/room/service.rs: the check of a chat text, which the room's actor repeats.
use longship_x.Prelude.{◌≡◌, ◌&&◌, is_ok, [], length, contains, leb, if◌then◌else◌, nat_eq, arith}
use longship_x.Prelude.Text.{Text, trim}
use longship_x.Prelude.Text.Trim.{trim-trim}
use longship_x.Domain.Error.{PlayerId}
use longship_x.App.Actor.{RoomActor, say, handle}
use longship_x.App.Actor.Effects.{chat_to, each, sinks}
use longship_x.App.Actor.Membership.{Inv}
use longship_x.App.Actor.Replies.{handle_chat-chat_to, saying_of, is_empty-length}
use longship_x.App.Rooms.{check_chat}

check_chat-length :
    (message : Text)
    → is_ok (check_chat message)
      ≡ (leb 1 (length (trim message)) && leb (length (trim message)) 512)
unfolding check_chat
check_chat-length message = ground (arith, is_empty-length (trim message))

-- The service's check of a chat text and the actor's agree: the trimmed text that the service would queue
-- reaches every member's sink, as it is and under the sender's name, if the sender is a member and
-- the service accepts the text, and nobody otherwise; no accepted text is dropped by the actor.
pub check_chat-chat_to :
    (a : RoomActor) (player : PlayerId) (message : Text)
    → Inv a
    → chat_to (handle a (say player (trim message))).1 ≡ (
        if contains a.room.members player && is_ok (check_chat message)
        then each (saying_of a player (trim message)) (sinks a.members)
        else [])
unfolding handle
check_chat-chat_to a player message v = ground (
  arith,
  trim-trim message,
  check_chat-length message,
  handle_chat-chat_to a player (trim message) v,
)
