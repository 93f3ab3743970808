-- ===== src/Infra/MemoryRepos/Accounts.antt =====
-- crates/infrastructure/src/persistence/repositories/memory_repos.rs: the accounts.
use longship_x.Prelude.{Option, Result, ok, nat_eq, ◌==◌}
use longship_x.Prelude.Map.{lookup, insert, values}
use longship_x.Prelude.Text.{Text, text_eq}
use longship_x.Domain.Error.{AccountId, RepoError}
use longship_x.Domain.Account.{Account}
use longship_x.App.Ports.{AccountRepository}
use longship_x.Infra.MemoryRepos.{Repos, find}

unfoldable pub find_by_id : AccountId → Repos → Result (Option Account) RepoError × Repos
find_by_id id r = (ok (lookup id r.accounts), r)

unfoldable pub find_by_username : Text → Repos → Result (Option Account) RepoError × Repos
find_by_username username r =
    (ok (find (λ (account : Account). account.username == username) (values r.accounts)), r)

unfoldable pub save : Account → Repos → Result (Unit {0}) RepoError × Repos
save account r = (ok tt, record r { accounts = insert account.id account r.accounts })

abbrev pub accounts : AccountRepository Repos
accounts = record { find_by_id = find_by_id; find_by_username = find_by_username; save = save }
