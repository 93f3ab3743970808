-- ===== src/Infra/Sea/Players.antt =====
-- crates/infrastructure/src/persistence/repositories/player_repo.rs.
use longship_x.Prelude.{
  ℕ, Option, none, some, is_some, Result, ok, err, List, [], ◌∷◌, leb, if◌then◌else◌,
}
use longship_x.Prelude.Integer.{ℤ, pos}
use longship_x.Prelude.Text.{Text}
use longship_x.Domain.Error.{Uuid, PlayerId, AccountId, DateTime, RepoError}
use longship_x.Domain.Player.{Player, gain_exp}
use longship_x.Infra.Converters.{PlayerModel, i32_max, i64_max, player_to_domain, player_to_active}
use longship_x.Infra.Sea.{Database, and_then, tried, asked, transposed}

abbrev pub first : List PlayerModel → Option PlayerModel
first [] = none
first (model ∷ models) = some model

-- `TryFromIntError`, which the standard library words.
abbrev pub try_from : Text → ℕ → ℕ → Result ℤ RepoError
try_from shown limit n = if leb n limit then ok (pos n) else err (RepoError.storage shown)

module _ {D : Type 0} (db : Database D) (show_uuid : Uuid → Text) (out_of_range : Text) where
  unfoldable pub find_by_id : PlayerId → D → Result (Option Player) RepoError × D
  unfolding player_to_domain
  find_by_id id d =
      and_then (asked (db.find_player id d))
        (λ found d'. (transposed (player_to_domain show_uuid) found, d'))

  unfoldable pub find_by_account : AccountId → D → Result (Option Player) RepoError × D
  unfolding player_to_domain
  find_by_account account d =
      and_then (asked (db.find_player_of account d))
        (λ found d'. (transposed (player_to_domain show_uuid) found, d'))

  unfoldable pub record_login : PlayerId → DateTime → D → Result (Option Player) RepoError × D
  unfolding player_to_domain
  record_login id at d =
      and_then (asked (db.update_login id at d))
        (λ models d'. (transposed (player_to_domain show_uuid) (first models), d'))

  unfoldable pub save : Player → D → Result (Unit {0}) RepoError × D
  unfolding player_to_active
  save player d = and_then (asked (db.find_player player.id d)) (λ found d'.
      if is_some found
      then asked (db.update_player (player_to_active player) d')
      else asked (db.insert_player (player_to_active player) d'))

  abbrev pub Grown : Type 0
  Grown = Option (Player × Option ℕ)

  -- What the transaction does with the row that it has locked.
  unfoldable pub grow : PlayerId → ℕ → PlayerModel → D → Result Grown RepoError × D
  unfolding player_to_domain
  grow id amount model d = tried (player_to_domain show_uuid model) d (λ before.
      let (player, new_level) = gain_exp before amount in
      tried (try_from out_of_range i32_max player.level) d (λ level.
        tried (try_from out_of_range i64_max player.exp) d (λ exp.
          and_then (asked (db.update_growth id level exp d)) (λ u d1.
            and_then (asked (db.commit d1)) (λ u d2. (ok (some (player, new_level)), d2))))))

  -- The handle is dropped without a commit unless the growth was stored.
  abbrev pub or_rollback : Result Grown RepoError × D → Result Grown RepoError × D
  or_rollback (ok (some grown), d) = (ok (some grown), d)
  or_rollback (ok none, d) = (ok none, db.rollback d)
  or_rollback (err e, d) = (err e, db.rollback d)

  unfoldable pub gain_exp_of : PlayerId → ℕ → D → Result Grown RepoError × D
  unfolding grow
  gain_exp_of id amount d = and_then (asked (db.begin d)) (λ u d1. or_rollback (
      and_then (asked (db.lock_player id d1))
        (λ found d2. elim found [ none ↦ (ok none, d2) | some model ↦ grow id amount model d2 ])))
