-- ===== src/App/Sink.antt =====
-- crates/application/src/room/sink.rs, and the events of crates/application/src/room/actor.rs. A
-- member's sink is a bounded queue of events with a flag that is raised when an event is lost.
pub mod Delivery
mod Tests
use longship_x.Prelude.{true}
use longship_x.Prelude.Text.{Text}
use longship_x.Channel.{Mpsc, Watch, TrySend, sent}
use longship_x.Domain.Error.{RoomId, PlayerId}

pub data RoomEvent : Type 0 where
  member_joined : RoomId → PlayerId → Text → RoomEvent
  member_left : RoomId → PlayerId → RoomEvent
  chat : RoomId → PlayerId → Text → Text → RoomEvent
  closed : RoomId → Text → RoomEvent

unfoldable pub room_id : RoomEvent → RoomId
room_id (member_joined room player nickname) = room
room_id (member_left room player) = room
room_id (chat room sender nickname text) = room
room_id (closed room reason) = room

module _ (m : Mpsc RoomEvent) (w : Watch) where
  pub record RoomEventSink : Type 0 where
    pub tx : m.Queue
    pub failed : w.Flag

  abbrev kept : TrySend → RoomEventSink → RoomEventSink
  kept sent s = s
  kept _ s = record s { failed = w.send_replace true s.failed }

  unfoldable pub try_send : RoomEventSink → RoomEvent → RoomEventSink
  try_send s event =
      let (outcome, tx) = m.try_send event s.tx in kept outcome (record s { tx = tx })
