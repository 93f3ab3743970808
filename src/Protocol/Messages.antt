-- ===== src/Protocol/Messages.antt =====
-- crates/protocol/src/messages.rs and the two codecs of crates/protocol/src/lib.rs: frames to typed
-- messages and back.
pub mod Codecs
pub mod Plain
mod Tests
use longship_x.Prelude.{
  ℕ, true, false, none, some, Result, ok, err, ◌>>=◌, ◌>>◌, map_err, List, [], if◌then◌else◌,
  nat_eq, ◌==◌,
}
use longship_x.Prelude.Text.{Text}
use longship_x.Net.Codec.{Frame}
use longship_x.Protocol.Error.{ProtocolError, decode_error, unsupported_opcode}
use longship_x.Protocol.Opcodes.{
  op_c2s_bind, op_c2s_heartbeat, op_c2s_join_room, op_c2s_leave_room, op_c2s_room_chat,
  op_c2s_get_profile, op_s2c_bind_result, op_s2c_heartbeat_ack, op_s2c_profile, op_s2c_room_event,
  op_s2c_error, op_s2c_server_shutdown,
}
use longship_x.Protocol.Generated.{
  BindRequest, HeartbeatPing, JoinRoomRequest, LeaveRoomRequest, RoomChatRequest, GetProfileRequest,
  BindResult, HeartbeatAck, ProfileResponse, ErrorNotification, ServerShutdownNotice,
  RoomEventNotification, Message, Schema,
}

pub data InboundMessage : Type 0 where
  bind : BindRequest → InboundMessage
  heartbeat : HeartbeatPing → InboundMessage
  join_room : JoinRoomRequest → InboundMessage
  leave_room : LeaveRoomRequest → InboundMessage
  room_chat : RoomChatRequest → InboundMessage
  get_profile : GetProfileRequest → InboundMessage
  unknown : ℕ → InboundMessage

pub data OutboundMessage : Type 0 where
  bind_result : BindResult → OutboundMessage
  heartbeat_ack : HeartbeatAck → OutboundMessage
  profile : ProfileResponse → OutboundMessage
  room_event : RoomEventNotification → OutboundMessage
  error : ErrorNotification → OutboundMessage
  shutdown : ServerShutdownNotice → OutboundMessage

unfoldable pub opcode : InboundMessage → ℕ
opcode (bind m) = op_c2s_bind
opcode (heartbeat m) = op_c2s_heartbeat
opcode (join_room m) = op_c2s_join_room
opcode (leave_room m) = op_c2s_leave_room
opcode (room_chat m) = op_c2s_room_chat
opcode (get_profile m) = op_c2s_get_profile
opcode (unknown code) = code

-- `Type::decode(payload)?` under a constructor of the messages.
abbrev pub decode_as : {A M : Type 0} → Message A → (A → M) → List ℕ → Result M ProtocolError
decode_as m make payload = do message ← map_err decode_error (m.decode payload); ok (make message)

module _ (s : Schema) where
  unfoldable pub decode_inbound : ℕ → List ℕ → Result InboundMessage ProtocolError
  decode_inbound code payload =
      if code == op_c2s_bind
      then decode_as s.bind_request bind payload
      else if code == op_c2s_heartbeat
      then decode_as s.heartbeat_ping heartbeat payload
      else if code == op_c2s_join_room
      then decode_as s.join_room_request join_room payload
      else if code == op_c2s_leave_room
      then decode_as s.leave_room_request leave_room payload
      else if code == op_c2s_room_chat
      then decode_as s.room_chat_request room_chat payload
      else if code == op_c2s_get_profile
      then decode_as s.profile_request get_profile payload
      else ok (unknown code)

  unfoldable pub encode_outbound : OutboundMessage → Result (ℕ × List ℕ) ProtocolError
  encode_outbound (bind_result m) = ok (op_s2c_bind_result, s.bind_result.encode_to_vec m)
  encode_outbound (heartbeat_ack m) = ok (op_s2c_heartbeat_ack, s.heartbeat_ack.encode_to_vec m)
  encode_outbound (profile m) = ok (op_s2c_profile, s.profile_response.encode_to_vec m)
  encode_outbound (room_event m) = ok (op_s2c_room_event, s.room_event_notification.encode_to_vec m)
  encode_outbound (error m) = ok (op_s2c_error, s.error_notification.encode_to_vec m)
  encode_outbound (shutdown m) =
      ok (op_s2c_server_shutdown, s.server_shutdown_notice.encode_to_vec m)

  unfoldable pub decode_outbound : ℕ → List ℕ → Result OutboundMessage ProtocolError
  decode_outbound code payload =
      if code == op_s2c_bind_result
      then decode_as s.bind_result bind_result payload
      else if code == op_s2c_heartbeat_ack
      then decode_as s.heartbeat_ack heartbeat_ack payload
      else if code == op_s2c_profile
      then decode_as s.profile_response profile payload
      else if code == op_s2c_room_event
      then decode_as s.room_event_notification room_event payload
      else if code == op_s2c_error
      then decode_as s.error_notification error payload
      else if code == op_s2c_server_shutdown
      then decode_as s.server_shutdown_notice shutdown payload
      else err (unsupported_opcode code)

  -- `GameCodec`, the server's side.
  unfoldable pub game_decode : Frame → Result InboundMessage ProtocolError
  unfolding decode_inbound
  game_decode frame = decode_inbound frame.opcode frame.payload

  unfoldable pub game_encode : OutboundMessage → Result Frame ProtocolError
  unfolding encode_outbound
  game_encode message = do
    (code, payload) ← encode_outbound message
    ok (record { opcode = code; payload = payload })

  -- `ClientCodec`, the client's side.
  unfoldable pub client_decode : Frame → Result OutboundMessage ProtocolError
  unfolding decode_outbound
  client_decode frame = decode_outbound frame.opcode frame.payload

  abbrev client_parts : InboundMessage → Result (ℕ × List ℕ) ProtocolError
  client_parts (bind m) = ok (op_c2s_bind, s.bind_request.encode_to_vec m)
  client_parts (heartbeat m) = ok (op_c2s_heartbeat, s.heartbeat_ping.encode_to_vec m)
  client_parts (join_room m) = ok (op_c2s_join_room, s.join_room_request.encode_to_vec m)
  client_parts (leave_room m) = ok (op_c2s_leave_room, s.leave_room_request.encode_to_vec m)
  client_parts (room_chat m) = ok (op_c2s_room_chat, s.room_chat_request.encode_to_vec m)
  client_parts (get_profile m) = ok (op_c2s_get_profile, s.profile_request.encode_to_vec m)
  client_parts (unknown code) = err (unsupported_opcode code)

  unfoldable pub client_encode : InboundMessage → Result Frame ProtocolError
  client_encode message = do
    (code, payload) ← client_parts message
    ok (record { opcode = code; payload = payload })

unfoldable pub bind_ok : Text → Text → OutboundMessage
bind_ok player_id nickname =
    bind_result
      (record { ok = true; player_id = some player_id; nickname = some nickname; error = none })

unfoldable pub bind_rejected : Text → OutboundMessage
bind_rejected reason =
    bind_result (record { ok = false; player_id = none; nickname = none; error = some reason })

unfoldable pub error_notification : ℕ → Text → OutboundMessage
error_notification code message = error (record { code = code; message = message })
