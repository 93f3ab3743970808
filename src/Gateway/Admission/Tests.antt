-- ===== src/Gateway/Admission/Tests.antt =====
-- crates/gateway/src/tcp/handler.rs: a connection on a world of two tokens, and the theorems on it.
use longship_x.Prelude.{ℕ, true, false, none, some, ok, [], ◌∷◌, if◌then◌else◌, nat_eq, ◌≡◌, refl}
use longship_x.Prelude.Integer.{pos}
use longship_x.Prelude.Text.{text, text_eq, text_beq}
use longship_x.Channel.Memory.{memory, flag}
use longship_x.Net.Codec.{Frame}
use longship_x.Domain.Player.{Player}
use longship_x.App.Ports.{SessionTokenStore, PlayerRepository}
use longship_x.Protocol.Messages.{bind}
use longship_x.Protocol.Messages.Plain.{plain}
use longship_x.Protocol.Router.{dispatch}
use longship_x.Gateway.Context.{AuthedPlayer, GatewayDeps, Rooms, Formats}
use longship_x.Gateway.Handlers.{build_router}
use longship_x.Gateway.Handlers.Identity.{Identified, dispatch-Identified}
use longship_x.Gateway.Admission.{Moment, Connection, admit_frame}
use longship_x.Gateway.Admission.Gate.{admit_frame-unbound, admit_all, admit_all-BoundTo}

-- The world counts the calls.
abbrev pub tokens : SessionTokenStore ℕ
tokens = record {
  create = λ player ttl calls. (ok (text "aa"), calls);
  resolve = λ token calls. (ok (if text_beq token (text "aa") then some 7 else none), calls);
  revoke_player = λ player calls. (ok tt, calls);
}

abbrev pub hero : Player
hero = record {
  id = 7;
  account_id = 1;
  nickname = text "A";
  level = 1;
  exp = 0;
  last_login_at = none;
  created_at = 0;
}

abbrev pub players : PlayerRepository ℕ
players = record {
  find_by_id = λ id calls. (ok (some hero), calls);
  find_by_account = λ id calls. (ok (some hero), calls);
  save = λ player calls. (ok tt, calls);
  gain_exp = λ id amount calls. (ok none, calls);
  record_login = λ id at calls. (ok none, calls);
}

abbrev pub rooms : Rooms ℕ
rooms = record {
  join_or_create = λ target player nickname calls. (ok 3, calls);
  leave = λ room player reason calls. (ok tt, calls);
  leave_all = λ player reason calls. (ok tt, calls);
  chat = λ room player said calls. (ok tt, calls);
}

abbrev pub deps : GatewayDeps ℕ
deps = record { tokens = tokens; players = players; rooms = rooms }

abbrev pub formats : Formats
formats = record {
  parse_uuid = λ t. none;
  show_uuid = λ id. text "id";
  timestamp_millis = λ at. pos at;
  show_app = λ e. text "error";
  show_repo = λ e. text "error";
  show_protocol = λ e. text "error";
}

abbrev pub Conn : Type 0
Conn = Connection (memory Frame) flag plain deps formats

abbrev pub fresh : Conn
fresh = record {
  ctx = record {
    auth = record { player = none; session_token = none; current_room = none };
    world = 0;
  };
  outbound = record { tx = record { values = []; room = 4; gone = false }; disconnected = false };
}

abbrev pub calm : Moment
calm = record { within_rate = true; timely = true; now = pos 5 }

abbrev a7 : AuthedPlayer
a7 = record { player_id = 7; nickname = text "A" }

abbrev pub bound_conn : Conn
bound_conn = record {
  ctx = record {
    auth = record { player = some a7; session_token = some (text "aa"); current_room = none };
    world = 0;
  };
  outbound = fresh.outbound;
}

admit_frame-unbound_example :
    ((admit_frame
        (memory Frame)
        flag
        plain
        deps
        formats
        fresh
        calm
        (record { opcode = 2; payload = [] })).0
      ≡ false)
    × ((admit_frame
          (memory Frame)
          flag
          plain
          deps
          formats
          fresh
          calm
          (record { opcode = 2; payload = [] })).1.ctx
        ≡ fresh.ctx)
admit_frame-unbound_example =
    admit_frame-unbound (memory Frame) flag plain deps formats fresh calm
      (record { opcode = 2; payload = [] }) refl refl

admit_all-BoundTo_example :
    (admit_all (memory Frame) flag plain deps formats bound_conn (
      (calm, record { opcode = 1; payload = [] })
      ∷ (calm, record { opcode = 19; payload = [] })
      ∷ [])).ctx.auth.player
    ≡ some a7
admit_all-BoundTo_example =
    admit_all-BoundTo (memory Frame) flag plain deps formats bound_conn
      ((calm, record { opcode = 1; payload = [] })
        ∷ (calm, record { opcode = 19; payload = [] })
        ∷ [])
      a7 refl

dispatch-Identified_example :
    Identified deps formats fresh.ctx
      (dispatch
        (build_router deps formats (pos 5))
        fresh.ctx
        (bind (record { token = text "aa" }))).1
dispatch-Identified_example =
    dispatch-Identified deps formats (pos 5) fresh.ctx (bind (record { token = text "aa" }))
