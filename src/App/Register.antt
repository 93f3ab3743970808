-- ===== src/App/Register.antt =====
-- crates/application/src/auth/register.rs: the registration of an account with its player. The drawn
-- identifiers and the instants that the source reads are arguments.
use longship_x.Prelude.{some, ok, fail_if, map_err, is_some, ◌++◌}
use longship_x.Prelude.Text.{Text, text}
use longship_x.Domain.Error.{PlayerId, AccountId, DateTime}
use longship_x.Domain.Value.{Username, try_new_username, try_new_nickname, try_new_password}
use longship_x.Domain.Account.{register}
use longship_x.Domain.Player.{Player, create}
use longship_x.App.Error.{from_domain, conflict}
use longship_x.App.Ports.{
  Action, ◌>>=◌, ◌>>◌, lift, repo, AccountRepository, RegistrationStore, PasswordHasher,
  AuditLogger,
}

pub record RegisterCommand : Type 0 where
  pub username : Text
  pub password : Text
  pub nickname : Text

pub record RegisterResult : Type 0 where
  pub account_id : AccountId
  pub player_id : PlayerId
  pub nickname : Text

pub record RegisterUseCase (W : Type 0) : Type 0 where
  pub accounts : AccountRepository W
  pub registration : RegistrationStore W
  pub hasher : PasswordHasher W
  pub audit : AuditLogger W

-- What one call draws and reads.
pub record Drawn : Type 0 where
  pub account_id : AccountId
  pub player_id : PlayerId
  pub registered_at : DateTime
  pub created_at : DateTime

module _ {W : Type 0} (use_case : RegisterUseCase W) where
  -- A failure of the log is only warned about.
  unfoldable pub audit_success : Player → Username → Action W (Unit {0})
  audit_success player username w =
      let detail = text "{\"username\":\"" ++ (username ++ text "\"}") in
      (ok tt, (use_case.audit.log (some player.id) (text "register") detail w).1)

  unfoldable pub execute : RegisterCommand → Drawn → Action W RegisterResult
  unfolding audit_success
  execute cmd drawn = do
    username ← lift (map_err from_domain (try_new_username cmd.username))
    nickname ← lift (map_err from_domain (try_new_nickname cmd.nickname))
    password ← lift (map_err from_domain (try_new_password cmd.password))
    taken ← repo (use_case.accounts.find_by_username username)
    lift (fail_if (is_some taken) (conflict (text "用户名已被占用")))
    hash ← use_case.hasher.hash password
    let account = register drawn.account_id username hash drawn.registered_at
    let player = create drawn.player_id account.id nickname drawn.created_at
    use_case.registration.register account player
    audit_success player account.username
    lift
        (ok (record { account_id = account.id; player_id = player.id; nickname = player.nickname }))
