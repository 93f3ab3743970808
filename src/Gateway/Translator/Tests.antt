-- ===== src/Gateway/Translator/Tests.antt =====
-- crates/gateway/src/tcp/handler.rs, `room_event_translator`: two events, and a store that does not answer
-- in time for the third.
use longship_x.Prelude.{Bool, true, false, ◌≡◌, refl, List, [], ◌∷◌, length}
use longship_x.Prelude.Text.{text}
use longship_x.Channel.Memory.{memory, memory-Bounded, flag}
use longship_x.App.Sink.{RoomEvent, member_joined, member_left, chat}
use longship_x.Net.Codec.{Frame}
use longship_x.Protocol.Messages.{game_encode, error_notification}
use longship_x.Protocol.Messages.Plain.{plain}
use longship_x.Gateway.Convert.{room_event_message}
use longship_x.Gateway.Admission.{try_send}
use longship_x.Gateway.Admission.Tests.{deps, formats, bound_conn}
use longship_x.Gateway.Translator.{translate_all}
use longship_x.Gateway.Translator.Relay.{Delivery, contents, translate_all-Delivery}

abbrev arrivals : List (Bool × RoomEvent)
arrivals =
    (true, member_joined 3 8 (text "B"))
    ∷ (true, member_left 3 8)
    ∷ (false, chat 3 7 (text "A") (text "hi"))
    ∷ (true, member_joined 3 9 (text "C"))
    ∷ []

three_frames :
    length (
      contents
        (memory Frame)
        flag
        plain
        deps
        formats
        (translate_all (memory Frame) flag plain deps formats bound_conn arrivals).1)
    ≡ 3
unfolding translate_all text game_encode room_event_message try_send error_notification
three_frames = refl

translate_all-Delivery_example :
    Delivery
      (memory Frame)
      flag
      plain
      deps
      formats
      bound_conn
      arrivals
      (translate_all (memory Frame) flag plain deps formats bound_conn arrivals).0
      (translate_all (memory Frame) flag plain deps formats bound_conn arrivals).1
translate_all-Delivery_example =
    translate_all-Delivery (memory Frame) flag plain deps formats (memory-Bounded Frame) bound_conn
      arrivals
