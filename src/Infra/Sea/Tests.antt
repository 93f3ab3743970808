-- ===== src/Infra/Sea/Tests.antt =====
-- crates/infrastructure/src/persistence/repositories: a growth on a database of one row.
use longship_x.Prelude.{ℕ, ◌≡◌, refl, none, some, ok, [], ◌∷◌}
use longship_x.Prelude.Integer.{pos}
use longship_x.Prelude.Text.{text, decimal, trim, trim_start, is_whitespace, is_control}
use longship_x.Domain.Value.{try_new_nickname}
use longship_x.Domain.Player.{Player, gain_exp, level_loop}
use longship_x.Infra.Converters.{PlayerModel, player_to_domain}
use longship_x.Infra.Sea.{Database}
use longship_x.Infra.Sea.Players.{gain_exp_of}
use longship_x.Infra.Sea.Stored.{GrownFrom, gain_exp_of-GrownFrom}

abbrev row : PlayerModel
row = record {
  id = 7;
  account_id = 1;
  nickname = b'A' ∷ [];
  level = pos 1;
  exp = pos 90;
  last_login_at = none;
  created_at = 5;
}

-- The database counts the calls that reach it.
abbrev table : Database ℕ
table = record {
  begin = λ d. (ok tt, 1);
  commit = λ d. (ok tt, 9);
  rollback = λ d. 0;
  find_account = λ id d. (ok none, d);
  find_username = λ name d. (ok none, d);
  insert_account = λ model d. (ok tt, d);
  update_account = λ model d. (ok tt, d);
  find_player = λ id d. (ok (some row), d);
  lock_player = λ id d. (ok (some row), 2);
  find_player_of = λ id d. (ok (some row), d);
  insert_player = λ model d. (ok tt, d);
  update_player = λ model d. (ok tt, d);
  update_growth = λ id level exp d. (ok tt, 3);
  update_login = λ id at d. (ok [], d);
}

abbrev grown : Player
grown = record {
  id = 7;
  account_id = 1;
  nickname = b'A' ∷ [];
  level = 2;
  exp = 0;
  last_login_at = none;
  created_at = 5;
}

ten_more : gain_exp_of table decimal (text "range") 7 10 0 ≡ (ok (some (grown, some 2)), 9)
unfolding gain_exp_of player_to_domain try_new_nickname trim trim_start is_whitespace is_control
    gain_exp level_loop
ten_more = refl

gain_exp_of-GrownFrom_example : GrownFrom table decimal (text "range") 7 10 0 grown (some 2) 9
gain_exp_of-GrownFrom_example =
    gain_exp_of-GrownFrom table decimal (text "range") 7 10 0 grown (some 2) 9 ten_more
