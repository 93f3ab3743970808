-- ===== src/Infra/MemoryRepos/Registration.antt =====
-- crates/infrastructure/src/persistence/repositories/memory_repos.rs: the registration of an account with its player.
use longship_x.Prelude.{◌||◌, Result, ok, err, any, is_some, if◌then◌else◌, nat_eq, ◌==◌}
use longship_x.Prelude.Map.{lookup, insert, values}
use longship_x.Prelude.Text.{text, text_eq}
use longship_x.Domain.Account.{Account}
use longship_x.Domain.Player.{Player}
use longship_x.App.Error.{AppError, conflict}
use longship_x.App.Ports.{RegistrationStore}
use longship_x.Infra.MemoryRepos.{Repos}

unfoldable pub register : Account → Player → Repos → Result (Unit {0}) AppError × Repos
register account player r =
    if is_some (lookup account.id r.accounts)
      || any (λ (stored : Account). stored.username == account.username) (values r.accounts)
      || is_some (lookup player.id r.players)
      || any (λ (stored : Player). stored.account_id == player.account_id) (values r.players)
    then (err (conflict (text "注册数据已存在")), r)
    else (
      ok tt,
      record {
        accounts = insert account.id account r.accounts;
        players = insert player.id player r.players;
      },
    )

abbrev pub registration : RegistrationStore Repos
registration = record { register = register }
