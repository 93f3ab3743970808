-- ===== src/Domain/Player/Tests.antt =====
-- Runs of the level arithmetic, and its theorems at concrete players.
use longship_x.Prelude.{◌≡◌, refl, none, some, [], ◌∷◌, arith}
use longship_x.Domain.Player.{Player, u64_max, gain_exp, level_loop}
use longship_x.Domain.Player.Growth.{Gained, gain_exp-Gained, gain_exp-gain_exp}

abbrev novice : Player
novice = record {
  id = 1;
  account_id = 2;
  nickname = 0x52c7 ∷ [];
  level = 1;
  exp = 0;
  last_login_at = none;
  created_at = 0;
}

at_threshold : gain_exp novice 99 ≡ (record novice { exp = 99 }, none)
unfolding gain_exp level_loop
at_threshold = refl

several_levels : gain_exp novice 600 ≡ (record novice { level = 4 }, some 4)
unfolding gain_exp level_loop
several_levels = refl

top : (gain_exp novice u64_max).1 ≡ some 999
unfolding gain_exp level_loop
top = refl

gain_exp-Gained_example : Gained novice 650 (gain_exp novice 650).0 (gain_exp novice 650).1
gain_exp-Gained_example = gain_exp-Gained novice 650

gain_exp-gain_exp_example : (gain_exp (gain_exp novice 150).0 500).0 ≡ (gain_exp novice 650).0
gain_exp-gain_exp_example = gain_exp-gain_exp novice 150 500 (omega arith)
