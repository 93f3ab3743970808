-- ===== src/Domain/Room.antt =====
-- crates/domain/src/room/aggregate.rs: the room aggregate, its members and its life cycle.
-- A method on `&mut self` returns its result and the new room. The identifier that
-- `Uuid::now_v7` draws is an argument of `open_room`.
pub mod Members
pub mod Lifecycle
mod Tests
use longship_x.Prelude.{
  ℕ, ◌+◌, Bool, true, false, not, Result, ok, err, List, [], ◌∷◌, ◌++◌, length, retain, contains,
  leb, if◌then◌else◌, max, nat_eq, ◌==◌,
}
use longship_x.Prelude.Text.{Text, text}
use longship_x.Domain.Error.{
  DomainError, room_full, room_closed, illegal_transition, RoomId, PlayerId, DateTime,
}

pub data RoomState : Type 0 where
  waiting in_progress settling closed : RoomState

pub record Room : Type 0 where
  pub id : RoomId
  pub members : List PlayerId
  pub max_players : ℕ
  pub state : RoomState
  pub created_at : DateTime

-- `Display for RoomState`.
pub state_name : RoomState → Text
state_name waiting = text "Waiting"
state_name in_progress = text "InProgress"
state_name settling = text "Settling"
state_name closed = text "Closed"

unfoldable pub open_room : RoomId → ℕ → DateTime → Room
open_room id max_players now = record {
  id = id;
  members = [];
  max_players = max max_players 1;
  state = waiting;
  created_at = now;
}

abbrev pub member_count : Room → ℕ
member_count r = length r.members

abbrev pub is_full : Room → Bool
is_full r = leb r.max_players (member_count r)

abbrev pub is_closed_state : RoomState → Bool
is_closed_state closed = true
is_closed_state waiting = false
is_closed_state in_progress = false
is_closed_state settling = false

abbrev pub is_closed : Room → Bool
is_closed r = is_closed_state r.state

unfoldable pub try_join : Room → PlayerId → Result Bool DomainError × Room
try_join r player =
    if is_closed r
    then (err (room_closed r.id), r)
    else if contains r.members player
    then (ok false, r)
    else if is_full r
    then (err (room_full r.id), r)
    else (ok true, record r { members = r.members ++ player ∷ [] })

unfoldable pub try_leave : Room → PlayerId → Result Bool DomainError × Room
try_leave r player =
    if is_closed r
    then (err (room_closed r.id), r)
    else let before = member_count r in
      let kept = retain (λ member. not (member == player)) r.members in
      (ok (not (length kept == before)), record r { members = kept })

-- The pairs that `transition_to` allows.
abbrev pub allowed : RoomState → RoomState → Bool
allowed waiting in_progress = true
allowed in_progress settling = true
allowed settling closed = true
allowed _ _ = false

unfoldable pub transition_to : Room → RoomState → Result (Unit {0}) DomainError × Room
unfolding state_name
transition_to r target =
    if allowed r.state target
    then (ok tt, record r { state = target })
    else (err (illegal_transition (state_name r.state) (state_name target)), r)

unfoldable pub close : Room → Bool × Room
close r = if is_closed r then (false, r) else (true, record r { state = closed })
