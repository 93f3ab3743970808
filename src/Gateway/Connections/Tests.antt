-- ===== src/Gateway/Connections/Tests.antt =====
-- crates/gateway/src/tcp/connections.rs: a broadcast to two connections that are up, with one that drains.
use longship_x.Prelude.{◌≡◌, refl, ok, none, some, false, any, [], ◌∷◌, if◌then◌else◌, nat_eq}
use longship_x.Prelude.Map.{lookup}
use longship_x.Channel.Memory.{memory, flag}
use longship_x.Net.Codec.{Frame}
use longship_x.Protocol.Messages.{OutboundMessage, shutdown, game_encode}
use longship_x.Protocol.Messages.Plain.{plain}
use longship_x.Gateway.Connections.{
  ConnectionRegistry, SenderId, Senders, new, register, begin_drain, broadcast,
}
use longship_x.Gateway.Connections.Broadcast.{
  after_offer, takers_among, is_sender, broadcast-lookup,
}

abbrev three : ConnectionRegistry
three = record { conns = (1, none) ∷ (2, some 20) ∷ (3, some 10) ∷ [] }

registered : begin_drain (register (register (register new 1 30) 2 20) 3 10) 1 ≡ three
unfolding begin_drain register new
registered = refl

abbrev queues : Senders (memory Frame) flag
queues =
    (10, record { tx = record { values = []; room = 1; gone = false }; disconnected = false })
    ∷ (20, record { tx = record { values = []; room = 1; gone = false }; disconnected = false })
    ∷ []

abbrev notice : OutboundMessage
notice = shutdown (record { message = [] })

abbrev notice_frame : Frame
notice_frame = record {
  opcode = 0x8012;
  payload = plain.server_shutdown_notice.encode_to_vec (record { message = [] });
}

notice_encoded : game_encode plain notice ≡ ok notice_frame
unfolding game_encode
notice_encoded = refl

broadcast-lookup_example :
    ((broadcast (memory Frame) flag plain three notice queues).0
      ≡ takers_among (memory Frame) flag notice_frame (none ∷ some 20 ∷ some 10 ∷ []) queues)
    × ((j : SenderId)
        → lookup j (broadcast (memory Frame) flag plain three notice queues).1 ≡ (
            if any (is_sender j) (none ∷ some 20 ∷ some 10 ∷ [])
            then after_offer (memory Frame) flag notice_frame (lookup j queues)
            else lookup j queues))
broadcast-lookup_example =
    broadcast-lookup (memory Frame) flag plain three notice notice_frame queues notice_encoded
      (refl, (refl, tt))
