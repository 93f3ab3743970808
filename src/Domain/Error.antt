-- ===== src/Domain/Error.antt =====
-- crates/domain/src/shared/error.rs: the errors of the domain rules and of the repositories.
-- A UUID is a number: the source compares and prints identifiers and does nothing else with them.
use longship_x.Prelude.{ℕ}
use longship_x.Prelude.Text.{Text}

abbrev pub Uuid : Type 0
Uuid = ℕ

abbrev pub RoomId : Type 0
RoomId = Uuid

abbrev pub PlayerId : Type 0
PlayerId = Uuid

abbrev pub AccountId : Type 0
AccountId = Uuid

-- `DateTime<Utc>`: ticks since an epoch that lies before every instant of a run.
abbrev pub DateTime : Type 0
DateTime = ℕ

pub data DomainError : Type 0 where
  invalid_value : Text → Text → DomainError
  room_full : RoomId → DomainError
  room_closed : RoomId → DomainError
  not_member : PlayerId → RoomId → DomainError
  illegal_transition : Text → Text → DomainError

pub data RepoError : Type 0 where
  storage : Text → RepoError
  conflict : Text → RepoError
