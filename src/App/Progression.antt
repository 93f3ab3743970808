-- ===== src/App/Progression.antt =====
-- crates/application/src/player/progression.rs and profile.rs, with the profile of dto.rs: experience
-- for a player, the event of a new level, and the profile that a player reads.
pub mod Published
use longship_x.Prelude.{ℕ, Option, none, some, ok, fail_if, ok_or, map_err, nat_eq, ◌==◌}
use longship_x.Prelude.Text.{Text, text}
use longship_x.Domain.Error.{PlayerId, DateTime}
use longship_x.Domain.Player.{Player}
use longship_x.App.Error.{AppError, validation, not_found, post_commit}
use longship_x.App.Ports.{
  Action, ◌>>=◌, ◌>>◌, lift, repo, PlayerRepository, EventPublisher, player_leveled_up,
}

pub record PlayerProfile : Type 0 where
  pub player_id : PlayerId
  pub nickname : Text
  pub level : ℕ
  pub exp : ℕ
  pub last_login_at : Option DateTime

abbrev pub profile_of : Player → PlayerProfile
profile_of player = record {
  player_id = player.id;
  nickname = player.nickname;
  level = player.level;
  exp = player.exp;
  last_login_at = player.last_login_at;
}

module _ {W : Type 0} (players : PlayerRepository W) where
  unfoldable pub get_profile : PlayerId → Action W PlayerProfile
  get_profile player_id = do
    found ← repo (players.find_by_id player_id)
    player ← lift (ok_or found (not_found (text "玩家不存在")))
    lift (ok (profile_of player))

  -- `shown` is the `Display` of an error.
  module _ (events : EventPublisher W) (shown : AppError → Text) where
    abbrev post_commit_error : {A : Type 0} → Action W A → Action W A
    post_commit_error m w = let (r, w') = m w in (map_err (λ e. post_commit (shown e)) r, w')

    unfoldable pub announce : PlayerId → Option ℕ → DateTime → Action W (Unit {0})
    announce player_id none at = lift (ok tt)
    announce player_id (some new_level) at =
        post_commit_error (events.publish (player_leveled_up player_id new_level at))

    -- What comes after the gain: the event of a new level, and the answer.
    unfoldable pub settle : PlayerId → DateTime → Player × Option ℕ → Action W PlayerProfile
    unfolding announce
    settle player_id at (player, new_level) = do
      announce player_id new_level at
      lift (ok (profile_of player))

    unfoldable pub execute : PlayerId → ℕ → DateTime → Action W PlayerProfile
    unfolding settle
    execute player_id amount at = do
      lift (fail_if (amount == 0) (validation (text "经验值必须大于 0")))
      found ← repo (players.gain_exp player_id amount)
      grown ← lift (ok_or found (not_found (text "玩家不存在")))
      settle player_id at grown
