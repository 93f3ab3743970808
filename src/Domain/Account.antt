-- ===== src/Domain/Account.antt =====
-- crates/domain/src/account/aggregate.rs: the account aggregate and its status.
use longship_x.Prelude.{ℕ, Bool, true, false, Option, none, some, leb}
use longship_x.Prelude.Text.{Text}
use longship_x.Domain.Error.{AccountId, DateTime}
use longship_x.Domain.Value.{Username, PasswordHash}

pub data AccountStatus : Type 0 where
  active : AccountStatus
  suspended : AccountStatus
  banned : Text → Option DateTime → AccountStatus

-- A ban without an end is for ever; one whose end has come admits again.
unfoldable pub allows_login : AccountStatus → DateTime → Bool
allows_login active now = true
allows_login suspended now = false
allows_login (banned reason none) now = false
allows_login (banned reason (some until)) now = leb until now

unfoldable pub code : AccountStatus → ℕ
code active = 0
code suspended = 1
code (banned reason until) = 2

pub record Account : Type 0 where
  pub id : AccountId
  pub username : Username
  pub password_hash : PasswordHash
  pub status : AccountStatus
  pub created_at : DateTime

unfoldable pub register : AccountId → Username → PasswordHash → DateTime → Account
register id username password_hash now = record {
  id = id;
  username = username;
  password_hash = password_hash;
  status = active;
  created_at = now;
}

unfoldable pub suspend : Account → Account
suspend a = record a { status = suspended }

unfoldable pub ban : Account → Text → Option DateTime → Account
ban a reason until = record a { status = banned reason until }

unfoldable pub activate : Account → Account
activate a = record a { status = active }
