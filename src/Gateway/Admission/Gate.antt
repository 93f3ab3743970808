-- ===== src/Gateway/Admission/Gate.antt =====
-- crates/gateway/src/tcp/handler.rs: what a connection may do before it is bound, and who it is after.
use longship_x.Prelude.{
  ℕ, Bool, true, false, not, ◌&&◌, none, some, Result, ok, err, List, [], ◌∷◌, if◌then◌else◌,
  nat_eq, ◌==◌, ◌≡◌, refl, ap, ◌∙◌, inl, inr, arith,
}
use longship_x.Prelude.Integer.{ℤ}
use longship_x.Prelude.Text.{Text, text}
use longship_x.Channel.{Mpsc, Watch}
use longship_x.Net.Codec.{Frame}
use longship_x.Protocol.Error.{ProtocolError}
use longship_x.Protocol.Opcodes.{op_c2s_bind, err_auth_required_first, err_rate_limited}
use longship_x.Protocol.Generated.{Schema}
use longship_x.Protocol.Messages.{
  InboundMessage, OutboundMessage, opcode, game_decode, game_encode, error_notification,
}
use longship_x.Protocol.Messages.Codecs.{opcode-decode_inbound}
use longship_x.Protocol.Router.{Answer, dispatch}
use longship_x.Gateway.Context.{
  AuthedPlayer, GatewayDeps, Formats, ConnContext, is_authenticated, validate_session,
}
use longship_x.Gateway.Handlers.{build_router}
use longship_x.Gateway.Handlers.Identity.{Identified, dispatch-Identified}
use longship_x.Gateway.Admission.{
  Moment, Connection, queued, try_send, notified, answered, admit_valid, admit_message, decoded,
  admit_frame,
}

module _ (m : Mpsc Frame) (wt : Watch) (s : Schema) {W : Type 0} (deps : GatewayDeps W)
    (f : Formats) where
  queued-ctx :
      (conn : Connection m wt s deps f) (frame : Result Frame ProtocolError)
      → (queued m wt s deps f conn frame).1.ctx ≡ conn.ctx
  queued-ctx conn (err e) = refl
  queued-ctx conn (ok frame) = refl

  try_send-ctx :
      (conn : Connection m wt s deps f) (message : OutboundMessage)
      → (try_send m wt s deps f conn message).1.ctx ≡ conn.ctx
  unfolding try_send
  try_send-ctx conn message = queued-ctx conn (game_encode s message)

  decoded-unbound :
      (conn : Connection m wt s deps f) (at : Moment) (r : Result InboundMessage ProtocolError)
      → is_authenticated conn.ctx ≡ false
      → ((message : InboundMessage) → r ≡ ok message → (opcode message == op_c2s_bind) ≡ false)
      → ((decoded m wt s deps f conn at r).0 ≡ false)
        × ((decoded m wt s deps f conn at r).1.ctx ≡ conn.ctx)
  unfolding admit_message
  decoded-unbound conn at (err e) h n = (refl, try_send-ctx conn _)
  decoded-unbound conn at (ok message) h n = (
    ground (arith, h, n message refl),
    ground (
      arith,
      h,
      n message refl,
      try_send-ctx conn (error_notification err_auth_required_first (text "必须先完成绑定")),
    ),
  )

  -- Until it is bound, a connection may send nothing but `BIND`: a frame of any other opcode ends it, and
  -- neither what the connection is nor the services see anything of the frame.
  pub admit_frame-unbound :
      (conn : Connection m wt s deps f) (at : Moment) (frame : Frame)
      → is_authenticated conn.ctx ≡ false
      → (frame.opcode == op_c2s_bind) ≡ false
      → ((admit_frame m wt s deps f conn at frame).0 ≡ false)
        × ((admit_frame m wt s deps f conn at frame).1.ctx ≡ conn.ctx)
  unfolding admit_frame game_decode
  admit_frame-unbound conn at frame h n = by_rate at.within_rate
    where
      by_rate :
          (b : Bool)
          → ((if b
                then decoded m wt s deps f conn at (game_decode s frame)
                else (false, notified m wt s deps f conn err_rate_limited (text "请求过于频繁"))).0
              ≡ false)
            × ((if b
                  then decoded m wt s deps f conn at (game_decode s frame)
                  else (false, notified m wt s deps f conn err_rate_limited (text "请求过于频繁"))).1.ctx
                ≡ conn.ctx)
      by_rate false = (refl, try_send-ctx conn _)
      by_rate true = decoded-unbound conn at (game_decode s frame) h (λ message e.
          ap (λ code. code == op_c2s_bind)
            (opcode-decode_inbound s frame.opcode frame.payload message e)
          ∙ n)

  -- The connection is bound to the player.
  abbrev pub BoundTo : AuthedPlayer → Connection m wt s deps f → Type 0
  BoundTo p conn = conn.ctx.auth.player ≡ some p

  validate_session-auth :
      (timely : Bool) (ctx : ConnContext W) → (validate_session deps timely ctx).1.auth ≡ ctx.auth
  unfolding validate_session
  validate_session-auth timely ctx = ground arith

  answered-ctx :
      (conn : Connection m wt s deps f) (a : Answer)
      → (answered m wt s deps f conn a).1.ctx ≡ conn.ctx
  answered-ctx conn (ok none) = refl
  answered-ctx conn (ok (some reply)) = try_send-ctx conn reply
  answered-ctx conn (err e) = try_send-ctx conn _

  dispatch-player :
      (now : ℤ) (ctx : ConnContext W) (message : InboundMessage) (p : AuthedPlayer)
      → ctx.auth.player ≡ some p
      → (dispatch (build_router deps f now) ctx message).1.auth.player ≡ some p
  unfolding Identified
  dispatch-player now ctx message p h = by_identity (dispatch-Identified deps f now ctx message)
    where
      by_identity :
          Identified deps f ctx (dispatch (build_router deps f now) ctx message).1
          → (dispatch (build_router deps f now) ctx message).1.auth.player ≡ some p
      by_identity (inl same) = same ∙ h
      by_identity (inr (free, token, q, now_bound, kept, named)) = absurd (ground (arith, h, free))

  if-BoundTo :
      (p : AuthedPlayer) (b : Bool) (x y : Bool × Connection m wt s deps f)
      → BoundTo p x.1
      → BoundTo p y.1
      → BoundTo p (if b then x else y).1
  if-BoundTo p true x y hx hy = hx
  if-BoundTo p false x y hx hy = hy

  notified-BoundTo :
      (conn : Connection m wt s deps f) (code : ℕ) (said : Text) (p : AuthedPlayer)
      → BoundTo p conn
      → BoundTo p (notified m wt s deps f conn code said)
  notified-BoundTo conn code said p h =
      ap (λ c. c.auth.player) (try_send-ctx conn (error_notification code said)) ∙ h

  admit_valid-BoundTo :
      (conn : Connection m wt s deps f) (now : ℤ) (message : InboundMessage) (p : AuthedPlayer)
      → BoundTo p conn
      → BoundTo p (admit_valid m wt s deps f conn now message).1
  unfolding admit_valid
  admit_valid-BoundTo conn now message p h =
      if-BoundTo p (is_authenticated conn.ctx && (opcode message == op_c2s_bind)) _ _
        (notified-BoundTo conn _ _ p h)
        (ap (λ c. c.auth.player)
            (answered-ctx _ (dispatch (build_router deps f now) conn.ctx message).0)
          ∙ dispatch-player now conn.ctx message p h)

  admit_message-BoundTo :
      (conn : Connection m wt s deps f) (at : Moment) (message : InboundMessage) (p : AuthedPlayer)
      → BoundTo p conn
      → BoundTo p (admit_message m wt s deps f conn at message).1
  unfolding admit_message
  admit_message-BoundTo conn at message p h =
      let validated = validate_session deps at.timely conn.ctx in
      let same = ap (λ auth. auth.player) (validate_session-auth at.timely conn.ctx) ∙ h in
      if-BoundTo p (not (is_authenticated conn.ctx) && not (opcode message == op_c2s_bind)) _ _
        (notified-BoundTo conn _ _ p h)
        (if-BoundTo p (is_authenticated conn.ctx) _ _
          (if-BoundTo p validated.0 _ _
            (admit_valid-BoundTo (record conn { ctx = validated.1 }) at.now message p same)
            (notified-BoundTo (record conn { ctx = validated.1 }) _ _ p same))
          (admit_valid-BoundTo conn at.now message p h))

  decoded-BoundTo :
      (conn : Connection m wt s deps f) (at : Moment) (r : Result InboundMessage ProtocolError)
      (p : AuthedPlayer)
      → BoundTo p conn
      → BoundTo p (decoded m wt s deps f conn at r).1
  decoded-BoundTo conn at (err e) p h = notified-BoundTo conn _ _ p h
  decoded-BoundTo conn at (ok message) p h = admit_message-BoundTo conn at message p h

  pub admit_frame-BoundTo :
      (conn : Connection m wt s deps f) (at : Moment) (frame : Frame) (p : AuthedPlayer)
      → BoundTo p conn
      → BoundTo p (admit_frame m wt s deps f conn at frame).1
  unfolding admit_frame
  admit_frame-BoundTo conn at frame p h =
      if-BoundTo p at.within_rate _ _ (decoded-BoundTo conn at (game_decode s frame) p h)
        (notified-BoundTo conn _ _ p h)

  -- The frames of a connection, each admitted while the ones before let it go on.
  unfoldable pub admit_all :
      Connection m wt s deps f → List (Moment × Frame) → Connection m wt s deps f
  admit_all conn [] = conn
  admit_all conn ((at, frame) ∷ rest) =
      let (goes_on, conn') = admit_frame m wt s deps f conn at frame in
      let later = admit_all conn' rest in if goes_on then later else conn'

  if_goes_on :
      (p : AuthedPlayer) (b : Bool) (x y : Connection m wt s deps f)
      → BoundTo p x
      → BoundTo p y
      → BoundTo p (if b then x else y)
  if_goes_on p true x y hx hy = hx
  if_goes_on p false x y hx hy = hy

  -- A connection that is bound to a player stays that player's through every sequence of frames, whatever
  -- the peer sends and the services answer.
  pub admit_all-BoundTo :
      (conn : Connection m wt s deps f) (frames : List (Moment × Frame)) (p : AuthedPlayer)
      → conn.ctx.auth.player ≡ some p
      → (admit_all conn frames).ctx.auth.player ≡ some p
  unfolding admit_all
  admit_all-BoundTo conn [] p h = h
  admit_all-BoundTo conn ((at, frame) ∷ rest) p h =
      if_goes_on p (admit_frame m wt s deps f conn at frame).0 _ _
        (admit_all-BoundTo (admit_frame m wt s deps f conn at frame).1 rest p
          (admit_frame-BoundTo conn at frame p h))
        (admit_frame-BoundTo conn at frame p h)
