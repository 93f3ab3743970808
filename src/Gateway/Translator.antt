-- ===== src/Gateway/Translator.antt =====
-- crates/gateway/src/tcp/handler.rs, `room_event_translator`: the task that passes a room's events on to
-- a connection. Whether the token store answers in time is an argument for each event; the queue that
-- the task takes the events from is the list of them.
pub mod Relay
mod Tests
use longship_x.Prelude.{Bool, true, false, Result, ok, err, is_ok, List, [], ◌∷◌, if◌then◌else◌}
use longship_x.Prelude.Text.{text}
use longship_x.Channel.{Mpsc, Watch}
use longship_x.App.Sink.{RoomEvent}
use longship_x.Net.Codec.{Frame}
use longship_x.Net.Backpressure.{OutboundSender, disconnect, try_send_frame}
use longship_x.Protocol.Error.{ProtocolError}
use longship_x.Protocol.Opcodes.{err_not_authenticated}
use longship_x.Protocol.Generated.{Schema}
use longship_x.Protocol.Messages.{game_encode}
use longship_x.Gateway.Context.{GatewayDeps, Formats, ConnContext, validate_session}
use longship_x.Gateway.Convert.{room_event_message}
use longship_x.Gateway.Admission.{Connection, notified}

module _ (m : Mpsc Frame) (wt : Watch) (s : Schema) {W : Type 0} (deps : GatewayDeps W)
    (f : Formats) where
  -- The frame goes to the queue; an event that cannot be encoded disconnects the client.
  unfoldable pub forward :
      Connection m wt s deps f → Result Frame ProtocolError → Bool × Connection m wt s deps f
  unfolding try_send_frame disconnect
  forward conn (err e) = (false, record conn { outbound = disconnect m wt conn.outbound })
  forward conn (ok frame) =
      let (outcome, outbound) = try_send_frame m wt conn.outbound frame in
      (is_ok outcome, record conn { outbound = outbound })

  -- The answer `false` ends the task.
  unfoldable pub translate :
      Connection m wt s deps f → Bool → RoomEvent → Bool × Connection m wt s deps f
  unfolding forward validate_session
  translate conn timely event =
      let (valid, ctx) = validate_session deps timely conn.ctx in
      let conn' : Connection m wt s deps f = record conn { ctx = ctx } in
      if valid
      then forward conn' (game_encode s (room_event_message f event))
      else (false, notified m wt s deps f conn' err_not_authenticated (text "会话无效或已过期"))

  -- The task over the events that arrive.
  unfoldable pub translate_all :
      Connection m wt s deps f → List (Bool × RoomEvent) → Bool × Connection m wt s deps f
  unfolding translate
  translate_all conn [] = (true, conn)
  translate_all conn ((timely, event) ∷ events) =
      let (goes_on, conn') = translate conn timely event in
      let later = translate_all conn' events in if goes_on then later else (false, conn')
