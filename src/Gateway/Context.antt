-- ===== src/Gateway/Context.antt =====
-- crates/gateway/src/tcp/context.rs: what a connection's handlers share. The lock around AuthState makes
-- each access one step; the services act on one world.
use longship_x.Prelude.{ℕ, Bool, true, false, Option, none, some, Result, ok, is_some, nat_eq, ◌==◌}
use longship_x.Prelude.Integer.{ℤ}
use longship_x.Prelude.Text.{Text}
use longship_x.Domain.Error.{PlayerId, RoomId, DateTime, RepoError}
use longship_x.App.Error.{AppError}
use longship_x.App.Ports.{Action, SessionTokenStore, PlayerRepository}
use longship_x.Protocol.Error.{ProtocolError}

pub record AuthedPlayer : Type 0 where
  pub player_id : PlayerId
  pub nickname : Text

pub record AuthState : Type 0 where
  pub player : Option AuthedPlayer
  pub session_token : Option Text
  pub current_room : Option RoomId

unfoldable pub unbound : AuthState
unbound = record { player = none; session_token = none; current_room = none }

-- The calls of RoomService that a connection makes.
pub record Rooms (W : Type 0) : Type 0 where
  pub join_or_create : Option RoomId → PlayerId → Text → Action W RoomId
  pub leave : RoomId → PlayerId → Text → Action W (Unit {0})
  pub leave_all : PlayerId → Text → Action W (Unit {0})
  pub chat : RoomId → PlayerId → Text → Action W (Unit {0})

pub record GatewayDeps (W : Type 0) : Type 0 where
  pub tokens : SessionTokenStore W
  pub players : PlayerRepository W
  pub rooms : Rooms W

-- What uuid, chrono and `Display` do with the values that messages carry.
pub record Formats : Type 0 where
  pub parse_uuid : Text → Option ℕ
  pub show_uuid : ℕ → Text
  pub timestamp_millis : DateTime → ℤ
  pub show_app : AppError → Text
  pub show_repo : RepoError → Text
  pub show_protocol : ProtocolError → Text

pub record ConnContext (W : Type 0) : Type 0 where
  pub auth : AuthState
  pub world : W

abbrev pub same_player : PlayerId → Result (Option PlayerId) AppError → Bool
same_player player (ok (some id)) = id == player
same_player player _ = false

module _ {W : Type 0} where
  abbrev pub is_authenticated : ConnContext W → Bool
  is_authenticated ctx = is_some ctx.auth.player

  abbrev pub set_authed : AuthedPlayer → Text → ConnContext W → ConnContext W
  set_authed player token ctx = record ctx {
    auth = record {
      player = some player;
      session_token = some token;
      current_room = ctx.auth.current_room;
    };
  }

  abbrev pub set_current_room : Option RoomId → ConnContext W → ConnContext W
  set_current_room room ctx = record ctx {
    auth = record {
      player = ctx.auth.player;
      session_token = ctx.auth.session_token;
      current_room = room;
    };
  }

  -- `timely` tells whether the store answers before the timeout.
  unfoldable pub validate_session : GatewayDeps W → Bool → ConnContext W → Bool × ConnContext W
  validate_session deps timely ctx = elim ctx.auth.player [
    | none ↦ (false, ctx)
    | some player ↦ elim ctx.auth.session_token [
      | none ↦ (false, ctx)
      | some token ↦ elim timely [
        | false ↦ (false, ctx)
        | true ↦
            let (answer, world) = deps.tokens.resolve token ctx.world in
            (same_player player.player_id answer, record ctx { world = world })
      ]
    ]
  ]
