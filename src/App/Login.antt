-- ===== src/App/Login.antt =====
-- crates/application/src/auth/login.rs: the login of an account. The world has two parts: the token
-- store's, and what the other ports act on. The two instants that the source reads are arguments.
pub mod Tokens
use longship_x.Prelude.{ℕ, not, some, Result, ok, fail_if, map_err, ok_or}
use longship_x.Prelude.Text.{Text, text}
use longship_x.Domain.Error.{PlayerId, AccountId, DateTime}
use longship_x.Domain.Value.{try_new_username}
use longship_x.Domain.Account.{Account, allows_login}
use longship_x.Domain.Player.{Player}
use longship_x.App.Error.{AppError, from_domain, unauthorized, forbidden, internal}
use longship_x.App.Ports.{
  Action, ◌>>=◌, ◌>>◌, lift, repo, AccountRepository, PlayerRepository, SessionTokenStore,
  PasswordHasher, AuditLogger,
}

pub record LoginCommand : Type 0 where
  pub username : Text
  pub password : Text

pub record LoginResult : Type 0 where
  pub token : Text
  pub player_id : PlayerId
  pub nickname : Text
  pub expires_in_secs : ℕ

pub record LoginDependencies (W S : Type 0) : Type 0 where
  pub accounts : AccountRepository W
  pub players : PlayerRepository W
  pub tokens : SessionTokenStore S
  pub hasher : PasswordHasher W
  pub audit : AuditLogger W

module _ {W S : Type 0} where
  -- A call of the token store, or of another port.
  abbrev pub on_tokens : {A : Type 0} → Action S A → Action (W × S) A
  on_tokens m (w, s) = let (r, s') = m s in (r, (w, s'))

  abbrev pub on_rest : {A : Type 0} → Action W A → Action (W × S) A
  on_rest m (w, s) = let (r, w') = m w in (r, (w', s))

  module _ (deps : LoginDependencies W S) (token_ttl : ℕ) where
    unfoldable pub load_account : Text → Action W Account
    load_account username = do
      found ← repo (deps.accounts.find_by_username username)
      lift (ok_or found (unauthorized (text "用户名或密码错误")))

    unfoldable pub ensure_login_allowed : Account → DateTime → Result (Unit {0}) AppError
    ensure_login_allowed account now =
        fail_if (not (allows_login account.status now)) (forbidden (text "账号当前不可登录"))

    unfoldable pub load_player : AccountId → Action W Player
    load_player account = do
      found ← repo (deps.players.find_by_account account)
      lift (ok_or found (internal (text "账号缺少对应的玩家档案")))

    -- A failure of the log is only warned about.
    unfoldable pub audit_login : Player → Action W (Unit {0})
    audit_login player w = (ok tt, (deps.audit.log (some player.id) (text "login") (text "{}") w).1)

    -- What comes before the token: the player whose login is recorded.
    unfoldable pub authenticate : LoginCommand → DateTime → DateTime → Action W Player
    unfolding load_account ensure_login_allowed load_player
    authenticate cmd checked_at recorded_at = do
      username ← lift (map_err from_domain (try_new_username cmd.username))
      account ← load_account username
      lift (ensure_login_allowed account checked_at)
      matches ← deps.hasher.verify cmd.password account.password_hash
      lift (fail_if (not matches) (unauthorized (text "用户名或密码错误")))
      player ← load_player account.id
      found ← repo (deps.players.record_login player.id recorded_at)
      lift (ok_or found (internal (text "账号缺少对应的玩家档案")))

    -- What comes after it: the token, then the log and the answer.
    unfoldable pub answer : Player → Text → Action (W × S) LoginResult
    unfolding audit_login
    answer player token = do
      on_rest (audit_login player)
      lift (
          ok (record {
            token = token;
            player_id = player.id;
            nickname = player.nickname;
            expires_in_secs = token_ttl;
          }))

    unfoldable pub issue : Player → Action (W × S) LoginResult
    unfolding answer
    issue player = do
      token ← on_tokens (deps.tokens.create player.id token_ttl)
      answer player token

    unfoldable pub execute : LoginCommand → DateTime → DateTime → Action (W × S) LoginResult
    unfolding authenticate issue
    execute cmd checked_at recorded_at = do
      player ← on_rest (authenticate cmd checked_at recorded_at)
      issue player
