-- ===== src/Domain/Value/Tests.antt =====
-- Validated values at concrete inputs.
use longship_x.Prelude.{◌≡◌, refl, ok, err}
use longship_x.Prelude.Text.{text, trim, is_whitespace, is_control}
use longship_x.Domain.Error.{invalid_value}
use longship_x.Domain.Value.{
  try_new_username, try_new_nickname, is_username_char, to_ascii_lowercase, try_new_password,
}

tom : try_new_username (text "  Tom_01 ") ≡ ok (text "tom_01")
unfolding try_new_username text trim is_whitespace is_username_char to_ascii_lowercase
tom = refl

short : try_new_username (text "ab") ≡ err (invalid_value (text "username") (text "长度必须在 3~32 之间"))
unfolding try_new_username text trim is_whitespace
short = refl

return_in_password :
    try_new_password (text "pass\rword") ≡ err (invalid_value (text "password") (text "不允许包含控制字符"))
unfolding try_new_password text is_control
return_in_password = refl

nick : try_new_nickname (text " 玩家 ") ≡ ok (text "玩家")
unfolding try_new_nickname text trim is_whitespace is_control
nick = refl
