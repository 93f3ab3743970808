-- ===== src/Domain/Value.antt =====
-- crates/domain/src/shared/value.rs: user names, nicknames and passwords. A newtype over `String`
-- is its text.
pub mod Normal
mod Tests
use longship_x.Prelude.{
  ℕ, ◌+◌, Bool, ◌&&◌, ◌||◌, not, Result, ok, ◌>>=◌, ◌>>◌, fail_if, length, all, any, leb, ltb, map,
  if◌then◌else◌, nat_eq, ◌==◌,
}
use longship_x.Prelude.Text.{Text, text, trim, byte_len, is_control}
use longship_x.Domain.Error.{DomainError, invalid_value}

abbrev pub Username : Type 0
Username = Text

abbrev pub Nickname : Type 0
Nickname = Text

abbrev pub PlainPassword : Type 0
PlainPassword = Text

abbrev pub PasswordHash : Type 0
PasswordHash = Text

-- `(lo..=hi).contains(&n)`.
abbrev pub in_range : ℕ → ℕ → ℕ → Bool
in_range lo hi n = leb lo n && leb n hi

abbrev pub is_ascii_upper : ℕ → Bool
is_ascii_upper c = leb b'A' c && leb c b'Z'

-- `char::is_ascii_alphanumeric`, or the underscore.
unfoldable pub is_username_char : ℕ → Bool
is_username_char c =
    (leb b'0' c && leb c b'9') || is_ascii_upper c || (leb b'a' c && leb c b'z') || (c == b'_')

-- `str::to_ascii_lowercase`, a character at a time.
unfoldable pub to_ascii_lowercase : ℕ → ℕ
to_ascii_lowercase c = if is_ascii_upper c then c + 32 else c

unfoldable pub try_new_username : Text → Result Username DomainError
try_new_username raw = do
  let trimmed = trim raw
  fail_if (not (in_range 3 32 (byte_len trimmed)))
      (invalid_value (text "username") (text "长度必须在 3~32 之间"))
  fail_if (not (all is_username_char trimmed))
      (invalid_value (text "username") (text "只能包含字母、数字与下划线"))
  ok (map to_ascii_lowercase trimmed)

unfoldable pub try_new_nickname : Text → Result Nickname DomainError
try_new_nickname raw = do
  let trimmed = trim raw
  let count = length trimmed
  fail_if ((count == 0) || ltb 32 count) (invalid_value (text "nickname") (text "长度必须在 1~32 个字符之间"))
  fail_if (any is_control trimmed) (invalid_value (text "nickname") (text "不允许包含控制字符"))
  ok trimmed

unfoldable pub try_new_password : Text → Result PlainPassword DomainError
try_new_password raw = do
  fail_if (not (in_range 8 128 (byte_len raw)))
      (invalid_value (text "password") (text "长度必须在 8~128 字节之间"))
  fail_if (any is_control raw) (invalid_value (text "password") (text "不允许包含控制字符"))
  ok raw
