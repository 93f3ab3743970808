-- ===== src/Protocol/Messages/Codecs.antt =====
-- crates/protocol/src/messages.rs and lib.rs: the two sides' codecs against each other.
use longship_x.Prelude.{
  ℕ, ◌≤◌, Result, ok, err, ◌>>=◌, List, if◌then◌else◌, nat_eq, ◌==◌, ◌≡◌, refl, arith, Result-cases,
  Bool-cases, inl, inr,
}
use longship_x.Net.Codec.{Frame}
use longship_x.Protocol.Error.{ProtocolError, unsupported_opcode}
use longship_x.Protocol.Generated.{Schema, Lossless, Message}
use longship_x.Protocol.Messages.{
  InboundMessage, bind, heartbeat, join_room, leave_room, room_chat, get_profile, unknown,
  OutboundMessage, bind_result, heartbeat_ack, profile, room_event, error, shutdown, opcode,
  decode_as, decode_inbound, encode_outbound, decode_outbound, game_decode, game_encode,
  client_decode, client_encode,
}
use longship_x.Protocol.Opcodes.{
  op_c2s_bind, op_c2s_heartbeat, op_c2s_join_room, op_c2s_leave_room, op_c2s_room_chat,
  op_c2s_get_profile,
}

-- What a message that a client sends is read as.
abbrev pub received : InboundMessage → Result InboundMessage ProtocolError
received (unknown code) = err (unsupported_opcode code)
received m = ok m

module _ (s : Schema) where
  -- What a client encodes, the server decodes to the same message; a message of an unknown opcode is
  -- refused by the client's codec.
  pub client_encode-game_decode :
      (l : Lossless s) (m : InboundMessage) → (client_encode s m >>= game_decode s) ≡ received m
  unfolding client_encode game_decode decode_inbound
  client_encode-game_decode l (bind m) = ground (arith, l.bind_request m)
  client_encode-game_decode l (heartbeat m) = ground (arith, l.heartbeat_ping m)
  client_encode-game_decode l (join_room m) = ground (arith, l.join_room_request m)
  client_encode-game_decode l (leave_room m) = ground (arith, l.leave_room_request m)
  client_encode-game_decode l (room_chat m) = ground (arith, l.room_chat_request m)
  client_encode-game_decode l (get_profile m) = ground (arith, l.profile_request m)
  client_encode-game_decode l (unknown code) = refl

  -- What the server encodes, a client decodes to the same message.
  pub game_encode-client_decode :
      (l : Lossless s) (m : OutboundMessage) → (game_encode s m >>= client_decode s) ≡ ok m
  unfolding game_encode client_decode encode_outbound decode_outbound
  game_encode-client_decode l (bind_result m) = ground (arith, l.bind_result m)
  game_encode-client_decode l (heartbeat_ack m) = ground (arith, l.heartbeat_ack m)
  game_encode-client_decode l (profile m) = ground (arith, l.profile_response m)
  game_encode-client_decode l (room_event m) = ground (arith, l.room_event_notification m)
  game_encode-client_decode l (error m) = ground (arith, l.error_notification m)
  game_encode-client_decode l (shutdown m) = ground (arith, l.server_shutdown_notice m)

  decode_as_opcode :
      {A : Type 0} (p : Message A) (make : A → InboundMessage) (payload : List ℕ)
      (m : InboundMessage) (code : ℕ)
      → ((a : A) → opcode (make a) ≡ code)
      → decode_as p make payload ≡ ok m
      → opcode m ≡ code
  decode_as_opcode p make payload m code h d = elim (Result-cases (p.decode payload)) [
    | inl (a, e) ↦ ground (arith, h a, d, e)
    | inr (e, q) ↦ ground (arith, d, q)
  ]

  -- One test of the `match` on the opcode.
  tested :
      (code tested_for : ℕ) (x rest : Result InboundMessage ProtocolError) (m : InboundMessage)
      → (x ≡ ok m → opcode m ≡ tested_for)
      → (rest ≡ ok m → opcode m ≡ code)
      → (if code == tested_for then x else rest) ≡ ok m
      → opcode m ≡ code
  tested code tested_for x rest m hit miss h = elim (Bool-cases (code == tested_for)) [
    | inl b ↦ ground (arith, b, hit (ground (arith, b, h)))
    | inr b ↦ miss (ground (arith, b, h))
  ]

  -- A payload that decodes gives a message of the frame's opcode, so that the message's own opcode finds
  -- the handler of the frame's.
  pub opcode-decode_inbound :
      (code : ℕ) (payload : List ℕ) (m : InboundMessage)
      → decode_inbound s code payload ≡ ok m
      → opcode m ≡ code
  unfolding decode_inbound opcode
  opcode-decode_inbound code payload m h =
      tested code op_c2s_bind _ _ m
        (decode_as_opcode s.bind_request bind payload m op_c2s_bind (λ a. refl))
        (tested code op_c2s_heartbeat _ _ m
          (decode_as_opcode s.heartbeat_ping heartbeat payload m op_c2s_heartbeat (λ a. refl))
          (tested code op_c2s_join_room _ _ m
            (decode_as_opcode s.join_room_request join_room payload m op_c2s_join_room (λ a. refl))
            (tested code op_c2s_leave_room _ _ m
              (decode_as_opcode s.leave_room_request leave_room payload m op_c2s_leave_room
                (λ a. refl))
              (tested code op_c2s_room_chat _ _ m
                (decode_as_opcode s.room_chat_request room_chat payload m op_c2s_room_chat
                  (λ a. refl))
                (tested code op_c2s_get_profile _ _ m
                  (decode_as_opcode s.profile_request get_profile payload m op_c2s_get_profile
                    (λ a. refl))
                  (λ e. ground (arith, e)))))))
        h

  -- Every message of the server has an opcode of the server's section, and a server that received it back
  -- would read it as a message of an unknown opcode.
  pub game_encode-unknown :
      (m : OutboundMessage)
      → (frame : Frame) × (game_encode s m ≡ ok frame)
        × (0x8001 ≤ frame.opcode)
        × (frame.opcode ≤ 0x8fff)
        × (game_decode s frame ≡ ok (unknown frame.opcode))
  unfolding game_encode encode_outbound game_decode decode_inbound
  game_encode-unknown (bind_result m) = (_, refl, omega arith, omega arith, refl)
  game_encode-unknown (heartbeat_ack m) = (_, refl, omega arith, omega arith, refl)
  game_encode-unknown (profile m) = (_, refl, omega arith, omega arith, refl)
  game_encode-unknown (room_event m) = (_, refl, omega arith, omega arith, refl)
  game_encode-unknown (error m) = (_, refl, omega arith, omega arith, refl)
  game_encode-unknown (shutdown m) = (_, refl, omega arith, omega arith, refl)
