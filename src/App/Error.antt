-- ===== src/App/Error.antt =====
-- crates/application/src/error.rs: the error of a use case, and what the domain's and the
-- repositories' errors become.
use longship_x.Prelude.{◌++◌}
use longship_x.Prelude.Text.{Text, text}
use longship_x.Domain.Error.{
  DomainError, invalid_value, room_full, room_closed, not_member, illegal_transition, RepoError,
}

pub data AppError : Type 0 where
  validation unauthorized forbidden not_found conflict : Text → AppError
  busy rate_limited : AppError
  storage post_commit internal : Text → AppError

unfoldable pub from_domain : DomainError → AppError
from_domain (invalid_value field reason) = validation (field ++ (text ": " ++ reason))
from_domain (room_full id) = conflict (text "房间已满")
from_domain (room_closed id) = conflict (text "房间已关闭")
from_domain (not_member player room) = validation (text "不在该房间中")
from_domain (illegal_transition from to) = internal (text "非法状态迁移")

unfoldable pub from_repo : RepoError → AppError
from_repo (RepoError.conflict reason) = conflict reason
from_repo (RepoError.storage reason) = storage reason
