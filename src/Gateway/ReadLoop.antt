-- ===== src/Gateway/ReadLoop.antt =====
-- crates/gateway/src/tcp/handler.rs, `run_read_loop`: the loop of a connection, one poll of its `select!`
-- at a time. The branches are tried in the order of the source (`biased`). What is ready in a poll, the
-- clock and what a dispatch has done when its deadline interrupts it are arguments.
pub mod Deadline
mod Tests
use longship_x.Prelude.{
  ℕ, ◌+◌, Bool, true, false, not, ◌&&◌, Option, none, some, Result, ok, err, List, [], ◌∷◌, leb,
  if◌then◌else◌,
}
use longship_x.Prelude.Text.{Text, text}
use longship_x.Channel.{Mpsc, Watch}
use longship_x.Domain.Error.{DateTime}
use longship_x.Domain.Session.{Session, touch_heartbeat}
use longship_x.Net.Codec.{Frame}
use longship_x.Net.Error.{
  NetError, io, tls, tls_config, frame_too_large, malformed, queue_full, closed, is_disconnect,
}
use longship_x.Net.Backpressure.{OutboundSender, is_closed, disconnect}
use longship_x.Protocol.Opcodes.{err_timeout, err_frame_too_large, err_protocol}
use longship_x.Protocol.Generated.{Schema}
use longship_x.Protocol.Messages.{shutdown}
use longship_x.Gateway.AuthGate.{IpAddr}
use longship_x.Gateway.Context.{GatewayDeps, Formats, is_authenticated}
use longship_x.Gateway.Admission.{Moment, Connection, try_send, notified, admit_frame}

-- The code that a failed read is reported with.
abbrev pub read_code : NetError → ℕ
read_code (frame_too_large declared max) = err_frame_too_large
read_code _ = err_protocol

module _ (m : Mpsc Frame) (wt : Watch) (s : Schema) {W : Type 0} (deps : GatewayDeps W)
    (f : Formats) (show_net : NetError → Text) (heartbeat_timeout : ℕ) where
  -- The connection between two polls: the permit of `Admission` while it is held, the deadline that
  -- `Admission` sets, and the one that this round of the loop runs under.
  pub record Reading : Type 0 where
    pub conn : Connection m wt s deps f
    pub session : Session
    pub permit : Option IpAddr
    pub admission_deadline : ℕ
    pub armed : ℕ

  -- What a poll finds.
  pub record Poll : Type 0 where
    pub room_failed : Bool
    pub stopping : Bool
    pub arrived : Option (Result (Option Frame) NetError)
    pub now : ℕ
    pub wall_clock : DateTime
    pub moment : Moment
    pub in_time : Bool
    pub interrupted : Connection m wt s deps f → Connection m wt s deps f
    pub after : ℕ

  -- The deadline at the head of a round.
  abbrev pub arm : Connection m wt s deps f → ℕ → ℕ → ℕ
  arm conn admission now = if is_authenticated conn.ctx then now + heartbeat_timeout else admission

  abbrev told : Reading → ℕ → Text → Reading
  told r code said = record r { conn = notified m wt s deps f r.conn code said }

  -- A frame that the deadline did not cut off, when its dispatch has ended.
  abbrev admitted : Reading → Poll → Frame → Bool × Reading
  admitted r p frame =
      let (goes_on, conn) = admit_frame m wt s deps f r.conn p.moment frame in
      (
        goes_on,
        record r {
          conn = conn;
          permit = if goes_on && is_authenticated conn.ctx then none else r.permit;
          armed = arm conn r.admission_deadline p.after;
        },
      )

  unfoldable pub on_frame : Reading → Poll → Frame → Bool × Reading
  unfolding admit_frame touch_heartbeat
  on_frame r p frame =
      let r' = record r { session = touch_heartbeat r.session p.wall_clock } in
      if leb r.armed p.now
      then (false, told r' err_timeout (text "会话超时"))
      else if not (is_authenticated r.conn.ctx) && not p.in_time
      then (false, told (record r' { conn = p.interrupted r.conn }) err_timeout (text "会话超时"))
      else admitted r' p frame

  abbrev pub on_read : Reading → Poll → Option (Result (Option Frame) NetError) → Bool × Reading
  on_read r p (some (ok (some frame))) = on_frame r p frame
  on_read r p (some (ok none)) = (false, r)
  on_read r p (some (err e)) =
      (false, if is_disconnect e then r else told r (read_code e) (show_net e))
  on_read r p none =
      if leb r.armed p.now then (false, told r err_timeout (text "会话超时")) else (true, r)

  -- The answer `false` ends the loop. `disconnected()` is ready once the sender is marked or its receiver,
  -- with the writer task, is gone.
  unfoldable pub turn : Reading → Poll → Bool × Reading
  unfolding on_frame try_send disconnect is_disconnect
  turn r p =
      if is_closed m wt r.conn.outbound
      then (false, r)
      else if p.room_failed
      then (
        false,
        record r { conn = record (r.conn) { outbound = disconnect m wt r.conn.outbound } },
      )
      else if p.stopping
      then (
        false,
        record r {
          conn =
              (try_send m wt s deps f r.conn
                (shutdown (record { message = text "服务器即将维护,请保存进度并重连" }))).1;
        },
      )
      else on_read r p p.arrived

  -- The loop over the polls that it makes.
  unfoldable pub run : Reading → List Poll → Bool × Reading
  unfolding turn
  run r [] = (true, r)
  run r (p ∷ ps) =
      let (goes_on, r') = turn r p in
      let later = run r' ps in if goes_on then later else (false, r')
