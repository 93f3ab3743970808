-- ===== src/Infra/MemoryRepos/Players.antt =====
-- crates/infrastructure/src/persistence/repositories/memory_repos.rs: the players.
use longship_x.Prelude.{ℕ, Option, none, some, Result, ok, nat_eq, ◌==◌}
use longship_x.Prelude.Map.{lookup, insert, values}
use longship_x.Prelude.Text.{text_eq}
use longship_x.Domain.Error.{PlayerId, AccountId, DateTime, RepoError}
use longship_x.Domain.Player.{Player, gain_exp, record_login}
use longship_x.App.Ports.{PlayerRepository}
use longship_x.Infra.MemoryRepos.{Repos, find}

unfoldable pub gain : PlayerId → ℕ → Repos → Result (Option (Player × Option ℕ)) RepoError × Repos
unfolding gain_exp
gain id amount r = elim (lookup id r.players) [
  | none ↦ (ok none, r)
  | some player ↦
      let (grown, level) = gain_exp player amount in
      (ok (some (grown, level)), record r { players = insert id grown r.players })
]

unfoldable pub log_in : PlayerId → DateTime → Repos → Result (Option Player) RepoError × Repos
unfolding record_login
log_in id at r = elim (lookup id r.players) [
  | none ↦ (ok none, r)
  | some player ↦
      let player' = record_login player at in
      (ok (some player'), record r { players = insert id player' r.players })
]

unfoldable pub find_by_id : PlayerId → Repos → Result (Option Player) RepoError × Repos
find_by_id id r = (ok (lookup id r.players), r)

unfoldable pub find_by_account : AccountId → Repos → Result (Option Player) RepoError × Repos
find_by_account account r =
    (ok (find (λ (player : Player). player.account_id == account) (values r.players)), r)

unfoldable pub save : Player → Repos → Result (Unit {0}) RepoError × Repos
save player r = (ok tt, record r { players = insert player.id player r.players })

abbrev pub players : PlayerRepository Repos
players = record {
  find_by_id = find_by_id;
  find_by_account = find_by_account;
  save = save;
  gain_exp = gain;
  record_login = log_in;
}
