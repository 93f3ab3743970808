-- ===== src/Gateway/Admission.antt =====
-- crates/gateway/src/tcp/handler.rs, `admit_frame`, with `ConnContext::try_send` of context.rs: one frame
-- from its admission to its answer. The decision of the rate limiter, whether the token store answers in
-- time and the clock's reading are arguments.
pub mod Gate
pub mod Tests
use longship_x.Prelude.{
  ℕ, Bool, true, false, not, ◌&&◌, none, some, Result, ok, err, is_ok, if◌then◌else◌, nat_eq, ◌==◌,
}
use longship_x.Prelude.Integer.{ℤ}
use longship_x.Prelude.Text.{Text, text}
use longship_x.Channel.{Mpsc, Watch}
use longship_x.App.Error.{internal}
use longship_x.Net.Codec.{Frame}
use longship_x.Net.Backpressure.{OutboundSender, try_send_frame}
use longship_x.Protocol.Error.{ProtocolError}
use longship_x.Protocol.Opcodes.{
  op_c2s_bind, err_protocol, err_rate_limited, err_not_authenticated, err_auth_required_first,
  err_already_bound,
}
use longship_x.Protocol.Generated.{Schema}
use longship_x.Protocol.Messages.{
  InboundMessage, OutboundMessage, opcode, game_decode, game_encode, error_notification,
}
use longship_x.Protocol.Router.{Answer, dispatch}
use longship_x.Gateway.Context.{
  GatewayDeps, Formats, ConnContext, is_authenticated, validate_session,
}
use longship_x.Gateway.Handlers.{app_error_notification, build_router}

-- What surrounds one frame.
pub record Moment : Type 0 where
  pub within_rate : Bool
  pub timely : Bool
  pub now : ℤ

module _ (m : Mpsc Frame) (wt : Watch) (s : Schema) {W : Type 0} (deps : GatewayDeps W)
    (f : Formats) where
  pub record Connection : Type 0 where
    pub ctx : ConnContext W
    pub outbound : OutboundSender m wt

  -- Whether the message was queued.
  abbrev pub queued : Connection → Result Frame ProtocolError → Bool × Connection
  queued conn (err e) = (false, conn)
  queued conn (ok frame) =
      let (outcome, outbound) = try_send_frame m wt conn.outbound frame in
      (is_ok outcome, record conn { outbound = outbound })

  unfoldable pub try_send : Connection → OutboundMessage → Bool × Connection
  try_send conn message = queued conn (game_encode s message)

  -- An error notification, whether or not it can be queued.
  abbrev pub notified : Connection → ℕ → Text → Connection
  notified conn code message = (try_send conn (error_notification code message)).1

  abbrev answered : Connection → Answer → Bool × Connection
  answered conn (ok (some reply)) = try_send conn reply
  answered conn (ok none) = (true, conn)
  answered conn (err e) = try_send conn (app_error_notification (internal (f.show_protocol e)))

  -- What remains once the session is found valid.
  unfoldable pub admit_valid : Connection → ℤ → InboundMessage → Bool × Connection
  unfolding opcode
  admit_valid conn now message =
      if is_authenticated conn.ctx && (opcode message == op_c2s_bind)
      then (true, notified conn err_already_bound (text "连接已完成绑定"))
      else let (answer, ctx) = dispatch (build_router deps f now) conn.ctx message in
        answered (record conn { ctx = ctx }) answer

  unfoldable pub admit_message : Connection → Moment → InboundMessage → Bool × Connection
  unfolding admit_valid opcode
  admit_message conn at message =
      if not (is_authenticated conn.ctx) && not (opcode message == op_c2s_bind)
      then (false, notified conn err_auth_required_first (text "必须先完成绑定"))
      else if is_authenticated conn.ctx
      then (let (valid, ctx) = validate_session deps at.timely conn.ctx in
          let conn' : Connection = record conn { ctx = ctx } in
          if valid
          then admit_valid conn' at.now message
          else (false, notified conn' err_not_authenticated (text "会话无效或已过期")))
      else admit_valid conn at.now message

  abbrev decoded : Connection → Moment → Result InboundMessage ProtocolError → Bool × Connection
  decoded conn at (err e) = (false, notified conn err_protocol (f.show_protocol e))
  decoded conn at (ok message) = admit_message conn at message

  -- The answer `false` ends the connection.
  unfoldable pub admit_frame : Connection → Moment → Frame → Bool × Connection
  unfolding admit_message
  admit_frame conn at frame =
      if at.within_rate
      then decoded conn at (game_decode s frame)
      else (false, notified conn err_rate_limited (text "请求过于频繁"))
