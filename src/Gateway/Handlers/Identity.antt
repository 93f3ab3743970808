-- ===== src/Gateway/Handlers/Identity.antt =====
-- crates/gateway/src/tcp/handlers.rs: who a connection is, whatever messages its peer sends.
use longship_x.Prelude.{
  Bool, true, false, Option, none, some, Option-cases, Result, ok, err, if◌then◌else◌, nat_eq, ◌≡◌,
  refl, sym, ◌⊎◌, inl, inr, arith, subst,
}
use longship_x.Prelude.Integer.{ℤ}
use longship_x.Prelude.Text.{Text, trim, is_empty}
use longship_x.Domain.Error.{PlayerId, RoomId, RepoError}
use longship_x.Domain.Player.{Player}
use longship_x.App.Error.{AppError}
use longship_x.Protocol.Generated.{BindRequest}
use longship_x.Protocol.Messages.{
  InboundMessage, bind, heartbeat, join_room, leave_room, room_chat, get_profile, unknown, opcode,
}
use longship_x.Protocol.Router.{Answer, new, route, dispatch}
use longship_x.Gateway.Context.{AuthedPlayer, GatewayDeps, Formats, ConnContext, is_authenticated}
use longship_x.Gateway.Handlers.{
  bind_player, bind_resolved, handle_bind, join_target, handle_join_room, leave_target,
  handle_leave_room, handle_room_chat, handle_get_profile, build_router, parse_optional_room_id,
}

module _ {W : Type 0} (deps : GatewayDeps W) (f : Formats) where
  -- A connection keeps its player, or it had none and has now the one that the store names for the token
  -- it keeps.
  unfoldable pub Identified : ConnContext W → ConnContext W → Type 0
  Identified ctx ctx' =
      (ctx'.auth.player ≡ ctx.auth.player)
      ⊎ ((ctx.auth.player ≡ none)
          × (token : Text) × (p : AuthedPlayer) × (ctx'.auth.player ≡ some p)
          × (ctx'.auth.session_token ≡ some token)
          × ((deps.tokens.resolve token ctx.world).0 ≡ ok (some p.player_id)))

  if-Identified :
      (ctx : ConnContext W) (b : Bool) (x y : Answer × ConnContext W)
      → Identified ctx x.1
      → (b ≡ false → Identified ctx y.1)
      → Identified ctx (if b then x else y).1
  if-Identified ctx true x y hx hy = hx
  if-Identified ctx false x y hx hy = hy refl

  bind_player-Identified :
      (ctx : ConnContext W) (world : W) (token : Text) (id : PlayerId)
      (found : Result (Option Player) RepoError)
      → ctx.auth.player ≡ none
      → (deps.tokens.resolve token ctx.world).0 ≡ ok (some id)
      → Identified ctx (bind_player deps f token id found (record ctx { world = world })).1
  unfolding Identified bind_player
  bind_player-Identified ctx world token id (err e) h r = inl refl
  bind_player-Identified ctx world token id (ok none) h r = inl refl
  bind_player-Identified ctx world token id (ok (some player)) h r =
      inr (h, token, _, refl, refl, r)

  bind_resolved-Identified :
      (ctx : ConnContext W) (world : W) (token : Text) (answer : Result (Option PlayerId) AppError)
      → ctx.auth.player ≡ none
      → (deps.tokens.resolve token ctx.world).0 ≡ answer
      → Identified ctx (bind_resolved deps f token answer (record ctx { world = world })).1
  unfolding bind_resolved Identified
  bind_resolved-Identified ctx world token (err e) h r = inl refl
  bind_resolved-Identified ctx world token (ok none) h r = inl refl
  bind_resolved-Identified ctx world token (ok (some id)) h r =
      bind_player-Identified ctx (deps.players.find_by_id id world).1 token id
        (deps.players.find_by_id id world).0 h r

  handle_bind-Identified :
      (ctx : ConnContext W) (request : BindRequest)
      → Identified ctx (handle_bind deps f ctx (bind request)).1
  unfolding handle_bind Identified
  handle_bind-Identified ctx request =
      if-Identified ctx (is_authenticated ctx) _ _ (inl refl) (λ free.
        if-Identified ctx (is_empty (trim request.token)) _ _ (inl refl) (λ given.
          bind_resolved-Identified ctx (deps.tokens.resolve (trim request.token) ctx.world).1
            (trim request.token) (deps.tokens.resolve (trim request.token) ctx.world).0
            (ground (arith, free)) refl))

  join_target-player :
      (ctx : ConnContext W) (player : AuthedPlayer) (target : Result (Option RoomId) Text)
      → (join_target deps f player target ctx).1.auth.player ≡ ctx.auth.player
  unfolding join_target
  join_target-player ctx player (err reason) = refl
  join_target-player ctx player (ok target) = ground arith

  leave_target-player :
      (ctx : ConnContext W) (player : AuthedPlayer) (target : Result (Option RoomId) Text)
      → (leave_target deps f player target ctx).1.auth.player ≡ ctx.auth.player
  unfolding leave_target
  leave_target-player ctx player (err reason) = refl
  leave_target-player ctx player (ok none) = ground arith
  leave_target-player ctx player (ok (some room)) = ground arith

  -- What the table does with a message.
  routed : ℤ → ConnContext W → InboundMessage → ConnContext W
  routed now ctx (bind request) = (handle_bind deps f ctx (bind request)).1
  routed now ctx (join_room request) = (handle_join_room deps f ctx (join_room request)).1
  routed now ctx (leave_room request) = (handle_leave_room deps f ctx (leave_room request)).1
  routed now ctx (room_chat request) = (handle_room_chat deps f ctx (room_chat request)).1
  routed now ctx (get_profile request) = (handle_get_profile deps f ctx (get_profile request)).1
  routed now ctx (heartbeat ping) = ctx
  routed now ctx (unknown code) = ctx

  dispatch-routed :
      (now : ℤ) (ctx : ConnContext W) (m : InboundMessage)
      → (dispatch (build_router deps f now) ctx m).1 ≡ routed now ctx m
  unfolding dispatch build_router route new opcode routed
  dispatch-routed now ctx (bind request) = refl
  dispatch-routed now ctx (heartbeat ping) = refl
  dispatch-routed now ctx (join_room request) = refl
  dispatch-routed now ctx (leave_room request) = refl
  dispatch-routed now ctx (room_chat request) = refl
  dispatch-routed now ctx (get_profile request) = refl
  dispatch-routed now ctx (unknown code) = ground arith

  routed-Identified :
      (now : ℤ) (ctx : ConnContext W) (m : InboundMessage) → Identified ctx (routed now ctx m)
  unfolding routed Identified handle_join_room handle_leave_room handle_room_chat handle_get_profile
  routed-Identified now ctx (bind request) = handle_bind-Identified ctx request
  routed-Identified now ctx (heartbeat ping) = inl refl
  routed-Identified now ctx (join_room request) = inl (elim (Option-cases ctx.auth.player) [
    | inl h ↦ ground (arith, h)
    | inr (p, h) ↦
        ground (arith, h, join_target-player ctx p (parse_optional_room_id deps f request.room_id))
  ])
  routed-Identified now ctx (leave_room request) = inl (elim (Option-cases ctx.auth.player) [
    | inl h ↦ ground (arith, h)
    | inr (p, h) ↦
        ground (arith, h, leave_target-player ctx p (parse_optional_room_id deps f request.room_id))
  ])
  routed-Identified now ctx (room_chat request) = inl (ground arith)
  routed-Identified now ctx (get_profile request) = inl (ground arith)
  routed-Identified now ctx (unknown code) = inl refl

  -- Whatever message the table is given, the connection keeps the player that it has; a connection without
  -- one gets one by a token alone, the player whom the token store names for it.
  pub dispatch-Identified :
      (now : ℤ) (ctx : ConnContext W) (m : InboundMessage)
      → Identified ctx (dispatch (build_router deps f now) ctx m).1
  dispatch-Identified now ctx m =
      subst (Identified ctx) (sym (dispatch-routed now ctx m)) (routed-Identified now ctx m)
