-- ===== src/Protocol/Generated.antt =====
-- crates/protocol/proto/game.proto: the messages as the records that prost makes of them. What prost
-- does to write and read them is a parameter, with the law that a message reads back as it was written.
use longship_x.Prelude.{ℕ, Bool, Option, Result, List, ◌≡◌}
use longship_x.Prelude.Integer.{ℤ}
use longship_x.Prelude.Text.{Text}

pub record BindRequest : Type 0 where
  pub token : Text

pub record HeartbeatPing : Type 0 where
  pub client_ts_ms : ℤ

pub record JoinRoomRequest : Type 0 where
  pub room_id : Option Text

pub record LeaveRoomRequest : Type 0 where
  pub room_id : Option Text

pub record RoomChatRequest : Type 0 where
  pub text : Text

pub data GetProfileRequest : Type 0 where
  get_profile_request : GetProfileRequest

pub record BindResult : Type 0 where
  pub ok : Bool
  pub player_id : Option Text
  pub nickname : Option Text
  pub error : Option Text

pub record HeartbeatAck : Type 0 where
  pub server_ts_ms : ℤ

pub record ProfileResponse : Type 0 where
  pub ok : Bool
  pub player_id : Option Text
  pub nickname : Option Text
  pub level : Option ℕ
  pub exp : Option ℕ
  pub last_login_at_ms : Option ℤ
  pub error : Option Text

pub record ErrorNotification : Type 0 where
  pub code : ℕ
  pub message : Text

pub record ServerShutdownNotice : Type 0 where
  pub message : Text

-- The oneof of `RoomEventNotification`, with the fields of its messages: the room first, then the
-- player and, where there are, the nickname and the text, or the reason.
pub data Event : Type 0 where
  member_joined : Text → Text → Text → Event
  member_left : Text → Text → Event
  room_chat : Text → Text → Text → Text → Event
  room_closed : Text → Text → Event

pub record RoomEventNotification : Type 0 where
  pub event : Option Event

-- `prost::Message` of one type, with the text of a `DecodeError`.
pub record Message (A : Type 0) : Type 0 where
  pub encode_to_vec : A → List ℕ
  pub decode : List ℕ → Result A Text

pub record Schema : Type 0 where
  pub bind_request : Message BindRequest
  pub heartbeat_ping : Message HeartbeatPing
  pub join_room_request : Message JoinRoomRequest
  pub leave_room_request : Message LeaveRoomRequest
  pub room_chat_request : Message RoomChatRequest
  pub profile_request : Message GetProfileRequest
  pub bind_result : Message BindResult
  pub heartbeat_ack : Message HeartbeatAck
  pub profile_response : Message ProfileResponse
  pub room_event_notification : Message RoomEventNotification
  pub error_notification : Message ErrorNotification
  pub server_shutdown_notice : Message ServerShutdownNotice

abbrev pub ReadsBack : {A : Type 0} → Message A → Type 0
ReadsBack {A} m = (a : A) → m.decode (m.encode_to_vec a) ≡ Result.ok a

-- What prost documents of the messages of one schema.
pub record Lossless (s : Schema) : Type 0 where
  pub bind_request : ReadsBack s.bind_request
  pub heartbeat_ping : ReadsBack s.heartbeat_ping
  pub join_room_request : ReadsBack s.join_room_request
  pub leave_room_request : ReadsBack s.leave_room_request
  pub room_chat_request : ReadsBack s.room_chat_request
  pub profile_request : ReadsBack s.profile_request
  pub bind_result : ReadsBack s.bind_result
  pub heartbeat_ack : ReadsBack s.heartbeat_ack
  pub profile_response : ReadsBack s.profile_response
  pub room_event_notification : ReadsBack s.room_event_notification
  pub error_notification : ReadsBack s.error_notification
  pub server_shutdown_notice : ReadsBack s.server_shutdown_notice
