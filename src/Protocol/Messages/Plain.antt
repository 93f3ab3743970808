-- ===== src/Protocol/Messages/Plain.antt =====
-- crates/protocol/proto/game.proto: a plain way to write the messages, one field after the other, on
-- which the laws that the codecs ask of prost hold.
pub mod Fields
use longship_x.Prelude.{
  ℕ, zero, suc, Bool, Option, none, some, Result, ok, err, List, [], ◌∷◌, ◌++◌, ◌≡◌, refl, ap, ◌∙◌,
}
use longship_x.Prelude.Integer.{ℤ}
use longship_x.Prelude.Text.{Text, text}
use longship_x.Protocol.Generated.{
  GetProfileRequest, get_profile_request, BindRequest, HeartbeatPing, JoinRoomRequest,
  LeaveRoomRequest, RoomChatRequest, BindResult, HeartbeatAck, ProfileResponse, ErrorNotification,
  ServerShutdownNotice, RoomEventNotification, Event, member_joined, member_left, room_chat,
  room_closed, Message, Schema, ReadsBack, Lossless,
}
use longship_x.Protocol.Messages.Plain.Fields.{Field, nat, string, bool, int, optional, both}

-- A type of messages by fields that stand for it.
record Format (A : Type 0) : Type 1 where
  Fields : Type 0
  field : Field Fields
  to : A → Fields
  from : Fields → A
  from-to : (a : A) → from (to a) ≡ a

module _ {A : Type 0} (f : Format A) where
  abbrev finish : Option (f.Fields × List ℕ) → Result A Text
  finish none = err (text "truncated")
  finish (some (x, rest)) = ok (f.from x)

  abbrev written : Message A
  written = record {
    encode_to_vec = λ a. f.field.put (f.to a) [];
    decode = λ bytes. finish (f.field.get bytes);
  }

  written-ReadsBack : ReadsBack written
  written-ReadsBack a = ap finish (f.field.get-put (f.to a) []) ∙ ap ok (f.from-to a)

-- An event as the number of its case and four texts, of which it may leave some empty.
abbrev EventFields : Type 0
EventFields = ℕ × ((Text × Text) × (Text × Text))

abbrev event_fields : Option Event → EventFields
event_fields none = (0, (([], []), ([], [])))
event_fields (some (member_joined room player nickname)) = (1, ((room, player), (nickname, [])))
event_fields (some (member_left room player)) = (2, ((room, player), ([], [])))
event_fields (some (room_chat room sender nickname said)) = (3, ((room, sender), (nickname, said)))
event_fields (some (room_closed room reason)) = (4, ((room, reason), ([], [])))

abbrev event_of : EventFields → Option Event
event_of (zero, fields) = none
event_of (suc zero, ((room, player), (nickname, _))) = some (member_joined room player nickname)
event_of (suc (suc zero), ((room, player), _)) = some (member_left room player)
event_of (suc (suc (suc zero)), ((room, sender), (nickname, said))) =
    some (room_chat room sender nickname said)
event_of (suc (suc (suc (suc n))), ((room, reason), _)) = some (room_closed room reason)

event_of-event_fields : (e : Option Event) → event_of (event_fields e) ≡ e
event_of-event_fields none = refl
event_of-event_fields (some (member_joined room player nickname)) = refl
event_of-event_fields (some (member_left room player)) = refl
event_of-event_fields (some (room_chat room sender nickname said)) = refl
event_of-event_fields (some (room_closed room reason)) = refl

abbrev event : Field EventFields
event = both nat (both (both string string) (both string string))

abbrev answer : Field (Bool × (Option Text × (Option Text × Option Text)))
answer = both bool (both (optional string) (both (optional string) (optional string)))

abbrev numbers : Field (Option ℕ × (Option ℕ × Option ℤ))
numbers = both (optional nat) (both (optional nat) (optional int))

only_profile : (m : GetProfileRequest) → get_profile_request ≡ m
only_profile get_profile_request = refl

abbrev bind_request : Format BindRequest
bind_request = record {
  Fields = Text;
  field = string;
  to = λ m. m.token;
  from = λ token. record { token = token };
  from-to = λ m. refl;
}

abbrev heartbeat_ping : Format HeartbeatPing
heartbeat_ping = record {
  Fields = ℤ;
  field = int;
  to = λ m. m.client_ts_ms;
  from = λ ts. record { client_ts_ms = ts };
  from-to = λ m. refl;
}

abbrev join_room_request : Format JoinRoomRequest
join_room_request = record {
  Fields = Option Text;
  field = optional string;
  to = λ m. m.room_id;
  from = λ id. record { room_id = id };
  from-to = λ m. refl;
}

abbrev leave_room_request : Format LeaveRoomRequest
leave_room_request = record {
  Fields = Option Text;
  field = optional string;
  to = λ m. m.room_id;
  from = λ id. record { room_id = id };
  from-to = λ m. refl;
}

abbrev room_chat_request : Format RoomChatRequest
room_chat_request = record {
  Fields = Text;
  field = string;
  to = λ m. m.text;
  from = λ t. record { text = t };
  from-to = λ m. refl;
}

abbrev profile_request : Format GetProfileRequest
profile_request = record {
  Fields = ℕ;
  field = nat;
  to = λ _. 0;
  from = λ _. get_profile_request;
  from-to = only_profile;
}

abbrev bind_result : Format BindResult
bind_result = record {
  Fields = Bool × (Option Text × (Option Text × Option Text));
  field = answer;
  to = λ m. (m.ok, (m.player_id, (m.nickname, m.error)));
  from = λ f. record { ok = f.0; player_id = f.1.0; nickname = f.1.1.0; error = f.1.1.1 };
  from-to = λ m. refl;
}

abbrev heartbeat_ack : Format HeartbeatAck
heartbeat_ack = record {
  Fields = ℤ;
  field = int;
  to = λ m. m.server_ts_ms;
  from = λ ts. record { server_ts_ms = ts };
  from-to = λ m. refl;
}

abbrev profile_response : Format ProfileResponse
profile_response = record {
  Fields =
      (Bool × (Option Text × (Option Text × Option Text))) × (Option ℕ × (Option ℕ × Option ℤ));
  field = both answer numbers;
  to = λ m. ((m.ok, (m.player_id, (m.nickname, m.error))), (m.level, (m.exp, m.last_login_at_ms)));
  from = λ f. record {
    ok = f.0.0;
    player_id = f.0.1.0;
    nickname = f.0.1.1.0;
    level = f.1.0;
    exp = f.1.1.0;
    last_login_at_ms = f.1.1.1;
    error = f.0.1.1.1;
  };
  from-to = λ m. refl;
}

abbrev room_event_notification : Format RoomEventNotification
room_event_notification = record {
  Fields = EventFields;
  field = event;
  to = λ m. event_fields m.event;
  from = λ f. record { event = event_of f };
  from-to = λ m. ap (λ e. record { event = e }) (event_of-event_fields m.event);
}

abbrev error_notification : Format ErrorNotification
error_notification = record {
  Fields = ℕ × Text;
  field = both nat string;
  to = λ m. (m.code, m.message);
  from = λ f. record { code = f.0; message = f.1 };
  from-to = λ m. refl;
}

abbrev server_shutdown_notice : Format ServerShutdownNotice
server_shutdown_notice = record {
  Fields = Text;
  field = string;
  to = λ m. m.message;
  from = λ t. record { message = t };
  from-to = λ m. refl;
}

pub plain : Schema
plain = record {
  bind_request = written bind_request;
  heartbeat_ping = written heartbeat_ping;
  join_room_request = written join_room_request;
  leave_room_request = written leave_room_request;
  room_chat_request = written room_chat_request;
  profile_request = written profile_request;
  bind_result = written bind_result;
  heartbeat_ack = written heartbeat_ack;
  profile_response = written profile_response;
  room_event_notification = written room_event_notification;
  error_notification = written error_notification;
  server_shutdown_notice = written server_shutdown_notice;
}

pub plain-Lossless : Lossless plain
unfolding plain
plain-Lossless = record {
  bind_request = written-ReadsBack bind_request;
  heartbeat_ping = written-ReadsBack heartbeat_ping;
  join_room_request = written-ReadsBack join_room_request;
  leave_room_request = written-ReadsBack leave_room_request;
  room_chat_request = written-ReadsBack room_chat_request;
  profile_request = written-ReadsBack profile_request;
  bind_result = written-ReadsBack bind_result;
  heartbeat_ack = written-ReadsBack heartbeat_ack;
  profile_response = written-ReadsBack profile_response;
  room_event_notification = written-ReadsBack room_event_notification;
  error_notification = written-ReadsBack error_notification;
  server_shutdown_notice = written-ReadsBack server_shutdown_notice;
}
