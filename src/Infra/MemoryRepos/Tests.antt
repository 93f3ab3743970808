-- ===== src/Infra/MemoryRepos/Tests.antt =====
-- crates/infrastructure/src/persistence/repositories/memory_repos.rs: one registered player, a hasher that
-- keeps passwords as they are and a log that drops its entries, and the theorems on them.
use longship_x.Prelude.{
  true, none, some, ok, err, is_ok, [], ◌∷◌, if◌then◌else◌, nat_eq, ◌≡◌, refl, ap, arith,
}
use longship_x.Prelude.Text.{text, text_eq, text_beq, text_beq_iff, trim, is_whitespace, is_control}
use longship_x.Domain.Account.{register as new_account, Account, active, allows_login}
use longship_x.Domain.Value.{
  try_new_username, try_new_nickname, try_new_password, is_username_char, to_ascii_lowercase,
}
use longship_x.Domain.Player.{Player, create as new_player}
use longship_x.App.Error.{AppError}
use longship_x.App.Ports.{PasswordHasher, AuditLogger, EventPublisher}
use longship_x.App.Login.{LoginCommand, LoginDependencies, execute}
use longship_x.App.Login.Tokens.{Verified, execute-Verified}
use longship_x.App.Progression.Published.{Outcome, execute-Outcome}
use longship_x.App.Progression
use longship_x.Infra.TokenStore.{State, new, create}
use longship_x.Infra.TokenStore.Sessions.{IsValid, Owns, Lists}
use longship_x.Infra.TokenStore.Logins.{Resolves, port, login-Resolves}
use longship_x.Infra.MemoryRepos.{Repos}
use longship_x.Infra.MemoryRepos.Accounts.{accounts, find_by_username}
use longship_x.Infra.MemoryRepos.Players.{players, find_by_account, find_by_id, log_in}
use longship_x.Infra.MemoryRepos.Registration.{register}
use longship_x.Infra.MemoryRepos.Registered.{register-find}
use longship_x.Infra.MemoryRepos.FirstLogin.{Faithful, registering, logging_in, execute-execute}
use longship_x.App.Register
use longship_x.App.Register.{RegisterCommand, Drawn, audit_success}

abbrev account : Account
account = record {
  id = 1;
  username = text "alice";
  password_hash = text "password";
  status = active;
  created_at = 0;
}

abbrev player : Player
player = record {
  id = 7;
  account_id = 1;
  nickname = text "A";
  level = 1;
  exp = 0;
  last_login_at = none;
  created_at = 0;
}

abbrev empty : Repos
empty = record { accounts = []; players = [] }

abbrev repos : Repos
repos = record { accounts = (1, account) ∷ []; players = (7, player) ∷ [] }

registered : (register account player empty).1 ≡ repos
unfolding register text
registered = refl

abbrev plain_hasher : PasswordHasher Repos
plain_hasher = record {
  hash = λ password w. (ok password, w);
  verify = λ password hash w. (ok (text_beq password hash), w);
}

abbrev silent : AuditLogger Repos
silent = record { log = λ player action detail w. (ok tt, w) }

abbrev broken : AuditLogger Repos
broken = record { log = λ player action detail w. (err AppError.busy, w) }

abbrev deps : LoginDependencies Repos State
deps = record {
  accounts = accounts;
  players = players;
  tokens = port (text "aa") 100 1000;
  hasher = plain_hasher;
  audit = silent;
}

abbrev alice : LoginCommand
alice = record { username = text " Alice "; password = text "password" }

logs_in : is_ok (execute deps 60 alice 5 6 (repos, new)).0 ≡ true
unfolding execute port new find_by_username find_by_account log_in text try_new_username trim
    is_whitespace is_username_char to_ascii_lowercase allows_login create
logs_in = refl

new_store-IsValid : IsValid new
unfolding IsValid Owns Lists new
new_store-IsValid = (λ t. tt, λ p. tt)

abbrev no_events : EventPublisher Repos
no_events = record { publish = λ event w. (err AppError.busy, w) }

register-find_example :
    ((find_by_username (text "bob") (register account player empty).1).0 ≡ (
      if text_beq account.username (text "bob")
      then ok (some account)
      else (find_by_username (text "bob") empty).0))
    × ((find_by_account 1 (register account player empty).1).0 ≡ (
        if nat_eq.same player.account_id 1 then ok (some player) else (find_by_account 1 empty).0))
    × ((find_by_id 7 (register account player empty).1).0
        ≡ (if nat_eq.same player.id 7 then ok (some player) else (find_by_id 7 empty).0))
unfolding register
register-find_example = register-find account player empty (text "bob") 1 7 refl

execute-Verified_example : Verified deps 60 alice 5 repos
execute-Verified_example = execute-Verified deps 60 alice 5 6 repos new logs_in

login-Resolves_example :
    Resolves new 60 100
      (text "aa")
      120
      (execute (record deps { tokens = port (text "aa") 100 1000 }) 60 alice 5 6 (repos, new))
login-Resolves_example =
    login-Resolves deps 60 (text "aa") 100 1000 alice 5 6 repos new (text "aa") 120
      new_store-IsValid

execute-Outcome_example :
    Outcome players no_events
      (λ e. text "busy")
      7
      250
      repos
      (Progression.execute players no_events (λ e. text "busy") 7 250 9 repos)
execute-Outcome_example = execute-Outcome players no_events (λ e. text "busy") 7 250 9 repos

plain_hasher-Faithful : Faithful plain_hasher silent
plain_hasher-Faithful = record {
  verify-hash = λ password hash w w' v h.
      ground (arith, h, (text_beq_iff password hash).1 (ground (arith, ap (λ x. x.0) h)));
  hash_lem = λ password w. refl;
  log_lem = λ id action detail w. refl;
}

abbrev new_alice : RegisterCommand
new_alice = record { username = text " Alice "; password = text "password"; nickname = text "A" }

abbrev drawn : Drawn
drawn = record { account_id = 1; player_id = 7; registered_at = 0; created_at = 0 }

registers :
    Register.execute (registering plain_hasher silent) new_alice drawn empty
    ≡ (ok (record { account_id = 1; player_id = 7; nickname = text "A" }), repos)
unfolding Register.execute audit_success find_by_username register text try_new_username
    try_new_nickname try_new_password trim is_whitespace is_control is_username_char
    to_ascii_lowercase new_account new_player
registers = refl

execute-execute_example :
    (execute
      (logging_in plain_hasher silent (port (text "aa") 100 1000))
      60
      (record { username = text "ALICE"; password = text "password" })
      5
      6
      (repos, new)).0
    ≡ ok (record { token = text "aa"; player_id = 7; nickname = text "A"; expires_in_secs = 60 })
unfolding try_new_username text trim is_whitespace is_username_char to_ascii_lowercase create new
    port
execute-execute_example =
    execute-execute plain_hasher silent (port (text "aa") 100 1000) 60 new_alice drawn empty repos
      (record { account_id = 1; player_id = 7; nickname = text "A" })
      (record { username = text "ALICE"; password = text "password" }) 5 6 new
      (create new 7 60 (text "aa") 100 1000).1 (text "aa") plain_hasher-Faithful registers refl refl
      refl
