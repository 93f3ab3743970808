-- ===== src/Gateway/Convert.antt =====
-- crates/gateway/src/tcp/convert.rs: room events to messages.
use longship_x.Prelude.{some}
use longship_x.App.Sink.{RoomEvent}
use longship_x.Protocol.Generated.{
  Event, RoomEventNotification, member_joined, member_left, room_chat, room_closed,
}
use longship_x.Protocol.Messages.{OutboundMessage, room_event}
use longship_x.Gateway.Context.{Formats}

module _ (f : Formats) where
  abbrev payload : RoomEvent → Event
  payload (RoomEvent.member_joined room player nickname) =
      member_joined (f.show_uuid room) (f.show_uuid player) nickname
  payload (RoomEvent.member_left room player) = member_left (f.show_uuid room) (f.show_uuid player)
  payload (RoomEvent.chat room sender nickname said) =
      room_chat (f.show_uuid room) (f.show_uuid sender) nickname said
  payload (RoomEvent.closed room reason) = room_closed (f.show_uuid room) reason

  unfoldable pub room_event_to_notification : RoomEvent → RoomEventNotification
  room_event_to_notification event = record { event = some (payload event) }

  unfoldable pub room_event_message : RoomEvent → OutboundMessage
  unfolding room_event_to_notification
  room_event_message event = room_event (room_event_to_notification event)
