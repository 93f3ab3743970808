-- ===== src/Domain/Session.antt =====
-- crates/domain/src/session/aggregate.rs: one connection as the server sees it.
use longship_x.Prelude.{ℕ, ◌+◌, Bool, Option, none, some, ltb, is_some}
use longship_x.Domain.Error.{Uuid, PlayerId, DateTime}

pub record Session : Type 0 where
  pub id : Uuid
  pub player_id : Option PlayerId
  pub connected_at : DateTime
  pub last_heartbeat_at : DateTime

unfoldable pub new : Uuid → DateTime → Session
new id now = record { id = id; player_id = none; connected_at = now; last_heartbeat_at = now }

unfoldable pub bind_player : Session → PlayerId → DateTime → Session
bind_player s player_id now = record s { player_id = some player_id; last_heartbeat_at = now }

unfoldable pub is_authenticated : Session → Bool
is_authenticated s = is_some s.player_id

unfoldable pub touch_heartbeat : Session → DateTime → Session
touch_heartbeat s now = record s { last_heartbeat_at = now }

-- `now - last_heartbeat_at > timeout`, with a timeout that is not negative.
unfoldable pub is_heartbeat_expired : Session → DateTime → ℕ → Bool
is_heartbeat_expired s now timeout = ltb (s.last_heartbeat_at + timeout) now
