-- ===== src/Gateway/Http.antt =====
-- crates/gateway/src/http: the HTTP entry. A response is its status and its body; what axum, the JSON
-- codec and the `http` crate do with texts is a parameter.
pub mod Answers
mod Tests
use longship_x.Prelude.{
  ℕ, Bool, true, false, not, ◌&&◌, ◌||◌, Option, none, some, Result, ok, err, ok_or, List, [], ◌∷◌,
  ◌++◌, if◌then◌else◌, nat_eq, ◌==◌,
}
use longship_x.Prelude.Text.{Text, text, text_eq, trim, is_empty, decimal}
use longship_x.Domain.Error.{Uuid, PlayerId, DateTime}
use longship_x.App.Error.{
  AppError, validation, unauthorized, forbidden, not_found, conflict, busy, rate_limited, storage,
  post_commit, internal,
}
use longship_x.App.Ports.{Action, SessionTokenStore, after, PlayerRepository}
use longship_x.App.Login.{LoginCommand, LoginResult}
use longship_x.App.Register.{RegisterCommand, RegisterResult}
use longship_x.App.Progression.{PlayerProfile, get_profile}

pub record ApiError : Type 0 where
  pub status : ℕ
  pub message : Text

-- `From<AppError> for ApiError`: what is internal goes to the log only.
unfoldable pub from_app : AppError → ApiError
from_app (validation msg) = record { status = 400; message = msg }
from_app (unauthorized msg) = record { status = 401; message = msg }
from_app (forbidden msg) = record { status = 403; message = msg }
from_app (not_found msg) = record { status = 404; message = msg }
from_app (conflict msg) = record { status = 409; message = msg }
from_app busy = record { status = 503; message = text "服务繁忙,请稍后重试" }
from_app rate_limited = record { status = 429; message = text "请求过于频繁" }
from_app (post_commit detail) = record { status = 500; message = text "数据已提交,事件发布失败,请勿重试整个操作" }
from_app (storage detail) = record { status = 500; message = text "服务器内部错误" }
from_app (internal detail) = record { status = 500; message = text "服务器内部错误" }

-- `str::strip_prefix`.
abbrev pub strip_prefix : Text → Text → Option Text
strip_prefix [] s = some s
strip_prefix (c ∷ cs) [] = none
strip_prefix (c ∷ cs) (d ∷ s) = let rest = strip_prefix cs s in if c == d then rest else none

-- The bodies of the successful answers.
pub data Body : Type 0 where
  registered : RegisterResult → Body
  logged_in : LoginResult → Body
  profile : PlayerProfile → Body
  healthy : Body

abbrev pub Response : Type 0
Response = Result (ℕ × Body) ApiError

-- The answer of a use case.
abbrev pub answer : {A : Type 0} → ℕ → (A → Body) → Result A AppError → Response
answer status body (ok a) = ok (status, body a)
answer status body (err e) = err (from_app e)

-- `Authorization: Bearer <token>`; a header that is missing or no text is `none`.
abbrev pub bearer : Option Text → Result Text ApiError
bearer none = err (record { status = 401; message = text "缺少 Authorization 头" })
bearer (some header) =
    ok_or (strip_prefix (text "Bearer ") header)
      (record { status = 401; message = text "Authorization 必须为 Bearer token" })

abbrev pub resolved : Result (Option PlayerId) AppError → Result PlayerId ApiError
resolved (ok (some player)) = ok player
resolved (ok none) = err (record { status = 401; message = text "token 无效或已过期" })
resolved (err e) = err (from_app e)

module _ {W : Type 0} where
  abbrev pub looked_up :
      SessionTokenStore W → Result Text ApiError → W → Result PlayerId ApiError × W
  looked_up tokens (err e) w = (err e, w)
  looked_up tokens (ok token) w =
      let (found, w') = tokens.resolve (trim token) w in (resolved found, w')

  -- `AuthUser::from_request_parts`.
  unfoldable pub authorize : SessionTokenStore W → Option Text → W → Result PlayerId ApiError × W
  authorize tokens header w = looked_up tokens (bearer header) w

  unfoldable pub register_route :
      (RegisterCommand → Action W RegisterResult) → RegisterCommand → W → Response × W
  unfolding from_app
  register_route execute request w =
      let (out, w') = execute request w in (answer 201 registered out, w')

  unfoldable pub login_route :
      (LoginCommand → Action W LoginResult) → LoginCommand → W → Response × W
  unfolding from_app
  login_route execute request w =
      let (out, w') = execute request w in (answer 200 logged_in out, w')

  abbrev pub described : PlayerRepository W → Result PlayerId ApiError × W → Response × W
  described players (err e, w) = (err e, w)
  described players (ok player, w) =
      let (out, w') = get_profile players player w in (answer 200 profile out, w')

  unfoldable pub me_route :
      SessionTokenStore W → PlayerRepository W → Option Text → W → Response × W
  unfolding authorize
  me_route tokens players header w = described players (authorize tokens header w)

-- What the `http` crate reads of an authority: all of it, its host, and its port.
pub record Authority : Type 0 where
  pub whole : Text
  pub host : Text
  pub suffix : Text
  pub port : Option ℕ

abbrev pub has_char : ℕ → Text → Bool
has_char c [] = false
has_char c (d ∷ s) = (d == c) || has_char c s

abbrev pub begins_port : Text → Option ℕ → Bool
begins_port (c ∷ s) (some port) = c == b':'
begins_port _ _ = false

unfoldable pub acceptable : Authority → Bool
acceptable a =
    not (has_char b'@' a.whole)
    && (not (is_empty a.host) && (is_empty a.suffix || begins_port a.suffix a.port))

-- Where the plain listener sends a request: nowhere, for 400, or to an HTTPS address, by 308.
unfoldable pub to_https : ℕ → (Text → Option Authority) → Option Text → Option Text → Option Text
unfolding acceptable
to_https https_port parse host path = elim host [
  | none ↦ none
  | some header ↦ elim (parse header) [
    | none ↦ none
    | some a ↦
        if acceptable a
        then some (
            text "https://"
            ++ ((if https_port == 443 then a.host else a.host ++ (text ":" ++ decimal https_port))
                ++ elim path [ none ↦ text "/" | some p ↦ p ]))
        else none
  ]
]
