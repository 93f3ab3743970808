-- ===== src/Infra/Converters/Tests.antt =====
-- crates/infrastructure/src/persistence/converters.rs: rows of an account that is banned and of a player.
use longship_x.Prelude.{min, ◌≡◌, refl, some, none, ok, err, [], ◌∷◌}
use longship_x.Prelude.Integer.{pos}
use longship_x.Prelude.Text.{
  text, decimal, decimal_loop, trim, trim_start, is_whitespace, is_control,
}
use longship_x.Domain.Error.{storage}
use longship_x.Domain.Value.{
  try_new_username, try_new_nickname, is_username_char, to_ascii_lowercase,
}
use longship_x.Domain.Account.{Account, banned}
use longship_x.Domain.Player.{Player}
use longship_x.Infra.Converters.{
  i32_max, i64_max, account_to_domain, account_to_active, player_to_domain, player_to_active,
  status_from_code,
}
use longship_x.Infra.Converters.RoundTrip.{
  account_to_domain-account_to_active, player_to_domain-player_to_active,
}

unknown_code : status_from_code (pos 9) ≡ err (storage (text "未知的账号状态码 9"))
unfolding status_from_code decimal decimal_loop text
unknown_code = refl

abbrev carol : Account
carol = record {
  id = 1;
  username = b'c' ∷ b'a' ∷ b'r' ∷ b'l' ∷ [];
  password_hash = b'h' ∷ [];
  status = banned (b's' ∷ b'p' ∷ b'a' ∷ b'm' ∷ []) (some 99);
  created_at = 5;
}

carol_name : try_new_username (text " CARL") ≡ ok carol.username
unfolding try_new_username trim trim_start is_whitespace is_username_char to_ascii_lowercase text
carol_name = refl

account_to_domain-account_to_active_example :
    account_to_domain decimal (account_to_active carol) ≡ ok carol
account_to_domain-account_to_active_example =
    account_to_domain-account_to_active decimal carol (text " CARL") carol_name

abbrev ann : Player
ann = record {
  id = 7;
  account_id = 1;
  nickname = b'A' ∷ b'n' ∷ b'n' ∷ [];
  level = 3;
  exp = 9223372036854775809;
  last_login_at = none;
  created_at = 5;
}

ann_name : try_new_nickname (text " Ann ") ≡ ok ann.nickname
unfolding try_new_nickname trim trim_start is_whitespace is_control text
ann_name = refl

player_to_domain-player_to_active_example :
    player_to_domain decimal (player_to_active ann)
    ≡ ok (record ann { level = min 3 i32_max; exp = min 9223372036854775809 i64_max })
player_to_domain-player_to_active_example =
    player_to_domain-player_to_active decimal ann (text " Ann ") ann_name
