-- ===== src/Protocol/Messages/Tests.antt =====
-- crates/protocol/src/messages.rs: messages on a plain schema, and the theorems on them.
use longship_x.Prelude.{some, ok, ◌>>=◌, [], ◌≡◌, refl}
use longship_x.Prelude.Text.{text}
use longship_x.Protocol.Generated.{room_closed}
use longship_x.Protocol.Messages.{
  InboundMessage, bind, unknown, OutboundMessage, room_event, decode_inbound, game_decode,
  game_encode, client_decode, client_encode,
}
use longship_x.Protocol.Messages.Codecs.{
  received, client_encode-game_decode, game_encode-client_decode,
}
use longship_x.Protocol.Messages.Plain.{plain, plain-Lossless}

abbrev token : InboundMessage
token = bind (record { token = text "t" })

abbrev news : OutboundMessage
news = room_event (record { event = some (room_closed (text "r") (text "停机")) })

no_route : decode_inbound plain 0x7fff [] ≡ ok (unknown 0x7fff)
unfolding decode_inbound
no_route = refl

client_encode-game_decode_example :
    (client_encode plain token >>= game_decode plain) ≡ received token
client_encode-game_decode_example = client_encode-game_decode plain plain-Lossless token

game_encode-client_decode_example : (game_encode plain news >>= client_decode plain) ≡ ok news
game_encode-client_decode_example = game_encode-client_decode plain plain-Lossless news
