-- ===== src/Gateway/Handlers.antt =====
-- crates/gateway/src/tcp/handlers.rs and router_setup.rs: the handlers of the messages, and their table.
-- A handler's message arrives through the table, which any message may enter.
pub mod Identity
use longship_x.Prelude.{
  ℕ, Bool, true, false, Option, none, some, Result, ok, err, is_ok, if◌then◌else◌, nat_eq, ◌==◌,
  ◌&&◌,
}
use longship_x.Prelude.Integer.{ℤ}
use longship_x.Prelude.Text.{Text, text, trim, is_empty}
use longship_x.Domain.Error.{PlayerId, RoomId, RepoError}
use longship_x.Domain.Player.{Player}
use longship_x.App.Error.{
  AppError, validation, unauthorized, forbidden, not_found, conflict, busy, rate_limited, storage,
  post_commit, internal,
}
use longship_x.App.Progression.{PlayerProfile, get_profile}
use longship_x.Protocol.Error.{handler_error}
use longship_x.Protocol.Opcodes.{
  op_c2s_bind, op_c2s_heartbeat, op_c2s_join_room, op_c2s_leave_room, op_c2s_room_chat,
  op_c2s_get_profile, err_protocol, err_rate_limited, err_not_authenticated, err_already_bound,
  err_server_busy, err_invalid_input, err_conflict, err_not_found, err_forbidden,
}
use longship_x.Protocol.Messages.{
  OutboundMessage, bind, heartbeat, join_room, leave_room, room_chat,
  get_profile as get_profile_message, heartbeat_ack, profile, bind_ok, bind_rejected,
  error_notification,
}
use longship_x.Protocol.Router.{Answer, Handler, Router, new, route}
use longship_x.Gateway.Context.{
  AuthedPlayer, GatewayDeps, Formats, ConnContext, is_authenticated, set_authed, set_current_room,
}

unfoldable pub app_error_notification : AppError → OutboundMessage
unfolding error_notification
app_error_notification (validation msg) = error_notification err_invalid_input msg
app_error_notification (unauthorized msg) = error_notification err_not_authenticated msg
app_error_notification (forbidden msg) = error_notification err_forbidden msg
app_error_notification (not_found msg) = error_notification err_not_found msg
app_error_notification (conflict msg) = error_notification err_conflict msg
app_error_notification busy = error_notification err_server_busy (text "服务繁忙,请稍后重试")
app_error_notification rate_limited = error_notification err_rate_limited (text "请求过于频繁")
app_error_notification (post_commit reason) =
    error_notification err_protocol (text "数据已提交,事件发布失败,请勿重试整个操作")
app_error_notification (storage reason) = error_notification err_protocol (text "服务器内部错误")
app_error_notification (internal reason) = error_notification err_protocol (text "服务器内部错误")

abbrev pub not_bound : Answer
not_bound = ok (some (error_notification err_not_authenticated (text "请先完成绑定")))

module _ {W : Type 0} (deps : GatewayDeps W) (f : Formats) where
  abbrev parsed : Option ℕ → Result (Option RoomId) Text
  parsed none = err (text "room_id 不是合法的 UUID")
  parsed (some id) = ok (some id)

  unfoldable pub parse_optional_room_id : Option Text → Result (Option RoomId) Text
  parse_optional_room_id none = ok none
  parse_optional_room_id (some raw) =
      if is_empty (trim raw) then ok none else parsed (f.parse_uuid (trim raw))

  -- `BIND`, from the inside out: the player that was read, the player that the token names, the token.
  unfoldable pub bind_player :
      Text → PlayerId → Result (Option Player) RepoError → ConnContext W → Answer × ConnContext W
  unfolding bind_ok
  bind_player token id (err e) ctx = (err (handler_error (f.show_repo e)), ctx)
  bind_player token id (ok none) ctx = (err (handler_error (text "token 对应的玩家不存在")), ctx)
  bind_player token id (ok (some player)) ctx = (
    ok (some (bind_ok (f.show_uuid id) player.nickname)),
    set_authed (record { player_id = id; nickname = player.nickname }) token ctx,
  )

  unfoldable pub bind_resolved :
      Text → Result (Option PlayerId) AppError → ConnContext W → Answer × ConnContext W
  unfolding bind_player bind_rejected
  bind_resolved token (err e) ctx = (err (handler_error (f.show_app e)), ctx)
  bind_resolved token (ok none) ctx = (ok (some (bind_rejected (text "token 无效或已过期"))), ctx)
  bind_resolved token (ok (some id)) ctx =
      let (found, world) = deps.players.find_by_id id ctx.world in
      bind_player token id found (record ctx { world = world })

  unfoldable pub handle_bind : Handler (ConnContext W)
  unfolding bind_resolved bind_rejected error_notification
  handle_bind ctx (bind request) =
      if is_authenticated ctx
      then (ok (some (error_notification err_already_bound (text "连接已完成绑定"))), ctx)
      else if is_empty (trim request.token)
      then (ok (some (bind_rejected (text "缺少 token"))), ctx)
      else let (answer, world) = deps.tokens.resolve (trim request.token) ctx.world in
        bind_resolved (trim request.token) answer (record ctx { world = world })
  handle_bind ctx _ = (err (handler_error (text "BIND 路由收到异构消息")), ctx)

  -- `now` is the clock's reading.
  unfoldable pub handle_heartbeat : ℤ → Handler (ConnContext W)
  handle_heartbeat now ctx (heartbeat ping) =
      (ok (some (heartbeat_ack (record { server_ts_ms = now }))), ctx)
  handle_heartbeat now ctx _ = (err (handler_error (text "HEARTBEAT 路由收到异构消息")), ctx)

  -- The answer to a call whose success says nothing.
  abbrev pub quiet : {A : Type 0} → Result A AppError → Answer
  quiet (ok a) = ok none
  quiet (err e) = ok (some (app_error_notification e))

  abbrev joined : Result RoomId AppError → ConnContext W → ConnContext W
  joined (ok room) ctx = set_current_room (some room) ctx
  joined (err e) ctx = ctx

  abbrev is_room : Option RoomId → RoomId → Bool
  is_room none room = false
  is_room (some id) room = id == room

  unfoldable pub join_target :
      AuthedPlayer → Result (Option RoomId) Text → ConnContext W → Answer × ConnContext W
  unfolding app_error_notification error_notification
  join_target player (err reason) ctx =
      (ok (some (error_notification err_invalid_input reason)), ctx)
  join_target player (ok target) ctx = elim ctx.auth.current_room [
    | some current ↦
        if is_room target current
        then (ok none, ctx)
        else (ok (some (error_notification err_conflict (text "请先离开当前房间"))), ctx)
    | none ↦
        let (outcome, world) =
          deps.rooms.join_or_create target player.player_id player.nickname ctx.world in
        (quiet outcome, joined outcome (record ctx { world = world }))
  ]

  unfoldable pub handle_join_room : Handler (ConnContext W)
  unfolding join_target parse_optional_room_id error_notification
  handle_join_room ctx (join_room request) = elim ctx.auth.player [
    | none ↦ (not_bound, ctx)
    | some player ↦ join_target player (parse_optional_room_id request.room_id) ctx
  ]
  handle_join_room ctx _ = (err (handler_error (text "JOIN_ROOM 路由收到异构消息")), ctx)

  unfoldable pub leave_target :
      AuthedPlayer → Result (Option RoomId) Text → ConnContext W → Answer × ConnContext W
  unfolding app_error_notification error_notification
  leave_target player (err reason) ctx =
      (ok (some (error_notification err_invalid_input reason)), ctx)
  leave_target player (ok (some room)) ctx =
      let (outcome, world) =
        deps.rooms.leave room player.player_id (text "client leave") ctx.world in
      let left = record ctx { world = world } in
      (
        quiet outcome,
        if is_ok outcome && is_room left.auth.current_room room
            then set_current_room none left
            else left,
      )
  leave_target player (ok none) ctx =
      let (outcome, world) =
        deps.rooms.leave_all player.player_id (text "client leave") ctx.world in
      let left = record ctx { world = world } in
      (quiet outcome, if is_ok outcome then set_current_room none left else left)

  unfoldable pub handle_leave_room : Handler (ConnContext W)
  unfolding leave_target parse_optional_room_id error_notification
  handle_leave_room ctx (leave_room request) = elim ctx.auth.player [
    | none ↦ (not_bound, ctx)
    | some player ↦ leave_target player (parse_optional_room_id request.room_id) ctx
  ]
  handle_leave_room ctx _ = (err (handler_error (text "LEAVE_ROOM 路由收到异构消息")), ctx)

  unfoldable pub handle_room_chat : Handler (ConnContext W)
  unfolding error_notification app_error_notification
  handle_room_chat ctx (room_chat request) = elim ctx.auth.player [
    | none ↦ (not_bound, ctx)
    | some player ↦ elim ctx.auth.current_room [
      | none ↦ (ok (some (error_notification err_not_found (text "请先加入一个房间"))), ctx)
      | some room ↦
          let (outcome, world) = deps.rooms.chat room player.player_id request.text ctx.world in
          (quiet outcome, record ctx { world = world })
    ]
  ]
  handle_room_chat ctx _ = (err (handler_error (text "ROOM_CHAT 路由收到异构消息")), ctx)

  abbrev millis : Option ℕ → Option ℤ
  millis none = none
  millis (some at) = some (f.timestamp_millis at)

  unfoldable pub shown_profile : Result PlayerProfile AppError → Answer
  unfolding app_error_notification
  shown_profile (ok p) = ok (
      some (
        profile (record {
          ok = true;
          player_id = some (f.show_uuid p.player_id);
          nickname = some p.nickname;
          level = some p.level;
          exp = some p.exp;
          last_login_at_ms = millis p.last_login_at;
          error = none;
        })))
  shown_profile (err e) = ok (some (app_error_notification e))

  unfoldable pub handle_get_profile : Handler (ConnContext W)
  unfolding shown_profile error_notification get_profile
  handle_get_profile ctx (get_profile_message request) = elim ctx.auth.player [
    | none ↦ (not_bound, ctx)
    | some player ↦
        let (outcome, world) = get_profile deps.players player.player_id ctx.world in
        (shown_profile outcome, record ctx { world = world })
  ]
  handle_get_profile ctx _ = (err (handler_error (text "GET_PROFILE 路由收到异构消息")), ctx)

  unfoldable pub build_router : ℤ → Router (ConnContext W)
  unfolding new route handle_bind handle_heartbeat handle_join_room handle_leave_room
      handle_room_chat handle_get_profile
  build_router now =
      let r0 = new in
      let r1 = route r0 op_c2s_bind handle_bind in
      let r2 = route r1 op_c2s_heartbeat (handle_heartbeat now) in
      let r3 = route r2 op_c2s_join_room handle_join_room in
      let r4 = route r3 op_c2s_leave_room handle_leave_room in
      let r5 = route r4 op_c2s_room_chat handle_room_chat in
      route r5 op_c2s_get_profile handle_get_profile
