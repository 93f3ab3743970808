-- ===== src/Infra/Converters.antt =====
-- crates/infrastructure/src/persistence/converters.rs and entities: rows of the database and the
-- aggregates. The columns are signed: `i16`, `i32` and `i64`. A row with every column set stands for an
-- active model, and a time with an offset is the instant that it denotes.
pub mod RoundTrip
mod Tests
use longship_x.Prelude.{
  ℕ, suc, ◌≤◌, Option, none, some, Result, ok, err, ◌>>=◌, ◌++◌, map_err, List, [], leb,
  if◌then◌else◌, nat_eq, ◌==◌,
}
use longship_x.Prelude.Integer.{ℤ, pos, negsuc}
use longship_x.Prelude.Text.{Text, text, decimal}
use longship_x.Domain.Error.{
  Uuid, DateTime, DomainError, invalid_value, room_full, room_closed, not_member,
  illegal_transition, RepoError, storage,
}
use longship_x.Domain.Value.{try_new_username, try_new_nickname}
use longship_x.Domain.Account.{Account, AccountStatus, active, suspended, banned}
use longship_x.Domain.Player.{Player}

pub record AccountModel : Type 0 where
  pub id : Uuid
  pub username : Text
  pub password_hash : Text
  pub status : ℤ
  pub banned_reason : Option Text
  pub banned_until : Option DateTime
  pub created_at : DateTime

pub record PlayerModel : Type 0 where
  pub id : Uuid
  pub account_id : Uuid
  pub nickname : Text
  pub level : ℤ
  pub exp : ℤ
  pub last_login_at : Option DateTime
  pub created_at : DateTime

abbrev pub i32_max : ℕ
i32_max = 2147483647

abbrev pub i64_max : ℕ
i64_max = 9223372036854775807

-- `Display` of a signed integer.
abbrev show_integer : ℤ → Text
show_integer (pos n) = decimal n
show_integer (negsuc n) = text "-" ++ decimal (suc n)

unfoldable pub status_from_code : ℤ → Result AccountStatus RepoError
status_from_code (pos n) =
    if n == 0
    then ok active
    else if n == 1
    then ok suspended
    else if n == 2
    then ok (banned [] none)
    else err (storage (text "未知的账号状态码 " ++ decimal n))
status_from_code (negsuc n) = err (storage (text "未知的账号状态码 " ++ show_integer (negsuc n)))

unfoldable pub status_to_parts : AccountStatus → ℤ × Option Text × Option DateTime
status_to_parts active = (pos 0, none, none)
status_to_parts suspended = (pos 1, none, none)
status_to_parts (banned reason until) = (pos 2, some reason, until)

-- `Option::unwrap_or_default` of a text.
abbrev pub or_empty : Option Text → Text
or_empty none = []
or_empty (some s) = s

-- The columns of a ban, written over the status that the code gives.
abbrev pub with_ban : Option Text → Option DateTime → AccountStatus → AccountStatus
with_ban reason until active = active
with_ban reason until suspended = suspended
with_ban reason until (banned r u) = banned (or_empty reason) until

-- `max(0)`, then the unsigned type, which always has room for it.
abbrev pub clamped : ℤ → ℕ
clamped (pos n) = n
clamped (negsuc n) = 0

module _ (show_uuid : Uuid → Text) where
  -- `Display for DomainError`.
  unfoldable pub show_domain : DomainError → Text
  show_domain (invalid_value field reason) = field ++ (text " 不合法: " ++ reason)
  show_domain (room_full id) = text "房间 " ++ (show_uuid id ++ text " 已满")
  show_domain (room_closed id) = text "房间 " ++ (show_uuid id ++ text " 已关闭")
  show_domain (not_member player room) =
      text "玩家 " ++ (show_uuid player ++ (text " 不在房间 " ++ (show_uuid room ++ text " 中")))
  show_domain (illegal_transition from to) = text "房间状态机不允许从 " ++ (from ++ (text " 迁移到 " ++ to))

  unfoldable pub account_to_domain : AccountModel → Result Account RepoError
  unfolding status_from_code
  account_to_domain model = do
    username ←
        map_err (λ e. storage (text "账号数据不符合领域规则: " ++ show_domain e))
          (try_new_username model.username)
    status ← status_from_code model.status
    ok (record {
      id = model.id;
      username = username;
      password_hash = model.password_hash;
      status = with_ban model.banned_reason model.banned_until status;
      created_at = model.created_at;
    })

  unfoldable pub player_to_domain : PlayerModel → Result Player RepoError
  player_to_domain model = do
    nickname ←
        map_err (λ e. storage (text "玩家数据不符合领域规则: " ++ show_domain e))
          (try_new_nickname model.nickname)
    ok (record {
      id = model.id;
      account_id = model.account_id;
      nickname = nickname;
      level = clamped model.level;
      exp = clamped model.exp;
      last_login_at = model.last_login_at;
      created_at = model.created_at;
    })

unfoldable pub account_to_active : Account → AccountModel
unfolding status_to_parts
account_to_active account =
    let (status, reason, until) = status_to_parts account.status in
    record {
      id = account.id;
      username = account.username;
      password_hash = account.password_hash;
      status = status;
      banned_reason = reason;
      banned_until = until;
      created_at = account.created_at;
    }

-- `try_from(n).unwrap_or(MAX)`.
abbrev pub saturated : ℕ → ℕ → ℤ
saturated limit n = if leb n limit then pos n else pos limit

unfoldable pub player_to_active : Player → PlayerModel
player_to_active player = record {
  id = player.id;
  account_id = player.account_id;
  nickname = player.nickname;
  level = saturated i32_max player.level;
  exp = saturated i64_max player.exp;
  last_login_at = player.last_login_at;
  created_at = player.created_at;
}
