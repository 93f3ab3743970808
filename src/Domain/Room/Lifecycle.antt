-- ===== src/Domain/Room/Lifecycle.antt =====
-- Histories of a room: every sequence of operations, what it keeps and what it cannot undo.
use longship_x.Prelude.{
  ℕ, ◌+◌, ◌≤◌, ◌≡◌, ◌↔◌, refl, sym, ◌∙◌, subst, true, ok, err, if◌then◌else◌, ◌==◌, nat_eq, List,
  [], ◌∷◌, arith,
}
use longship_x.Domain.Error.{RoomId, PlayerId, DateTime, illegal_transition}
use longship_x.Domain.Room.{
  Room, RoomState, waiting, in_progress, settling, closed, state_name, open_room, is_closed,
  allowed, try_join, try_leave, transition_to, close,
}
use longship_x.Domain.Room.Members.{IsValid, open_room-IsValid, try_join-IsValid, try_leave-IsValid}

-- The mutating methods of `Room`.
pub data Op : Type 0 where
  join leave : PlayerId → Op
  transition : RoomState → Op
  shut : Op

unfoldable pub step : Room → Op → Room
step r (join p) = (try_join r p).1
step r (leave p) = (try_leave r p).1
step r (transition s) = (transition_to r s).1
step r shut = (close r).1

unfoldable pub run : Room → List Op → Room
unfolding step
run r [] = r
run r (o ∷ os) = run (step r o) os

-- Waiting → InProgress → Settling → Closed.
abbrev pub rank : RoomState → ℕ
rank waiting = 0
rank in_progress = 1
rank settling = 2
rank closed = 3

transition_to-IsValid : (r : Room) (s : RoomState) → IsValid r → IsValid (transition_to r s).1
unfolding transition_to
transition_to-IsValid r s v = ground arith

pub close-IsValid : (r : Room) → IsValid r → IsValid (close r).1
unfolding close
close-IsValid r v = ground arith

step-IsValid : (r : Room) (o : Op) → IsValid r → IsValid (step r o)
unfolding step
step-IsValid r (join p) v = try_join-IsValid r p v
step-IsValid r (leave p) v = try_leave-IsValid r p v
step-IsValid r (transition s) v = transition_to-IsValid r s v
step-IsValid r shut v = close-IsValid r v

run-IsValid_from : (r : Room) (os : List Op) → IsValid r → IsValid (run r os)
unfolding run
run-IsValid_from r [] v = v
run-IsValid_from r (o ∷ os) v = run-IsValid_from (step r o) os (step-IsValid r o v)

-- Whatever is done to a room that was opened with any requested capacity, its capacity is at least
-- one and is never exceeded, and no player is a member twice.
pub run-open_room-IsValid :
    (id : RoomId) (cap : ℕ) (now : DateTime) (os : List Op)
    → IsValid (run (open_room id cap now) os)
run-open_room-IsValid id cap now os = run-IsValid_from _ os (open_room-IsValid id cap now)

allowed-rank : (s t : RoomState) → (allowed s t ≡ true) ↔ (rank t ≡ rank s + 1)
allowed-rank waiting t = ground arith
allowed-rank in_progress t = ground arith
allowed-rank settling t = ground arith
allowed-rank closed t = ground arith

-- A transition succeeds exactly when its target is the next state of the order Waiting, InProgress,
-- Settling, Closed, and then sets the state alone; otherwise it names both states in its error and
-- leaves the room as it was.
pub transition_to-rank :
    (r : Room) (t : RoomState)
    → transition_to r t ≡ (
        if rank t == rank r.state + 1
        then (ok tt, record r { state = t })
        else (err (illegal_transition (state_name r.state) (state_name t)), r))
unfolding transition_to
transition_to-rank r t = ground (arith, (allowed-rank r.state t).0, (allowed-rank r.state t).1)

-- What no operation changes, and that the state never goes back.
pub record Follows (r r' : Room) : Type 0 where
  pub same_id : r'.id ≡ r.id
  pub same_capacity : r'.max_players ≡ r.max_players
  pub same_birth : r'.created_at ≡ r.created_at
  pub forward : rank r.state ≤ rank r'.state

step-Follows : (r : Room) (o : Op) → Follows r (step r o)
unfolding step try_join try_leave transition_to close
step-Follows r (join p) = ground arith
step-Follows r (leave p) = ground arith
step-Follows r (transition s) = ground (arith, (allowed-rank r.state s).0)
step-Follows r shut = ground arith

step_closed : (r : Room) (o : Op) → is_closed r ≡ true → step r o ≡ r
unfolding step try_join try_leave transition_to close
step_closed r (join p) h = ground arith
step_closed r (leave p) h = ground arith
step_closed r (transition s) h = ground arith
step_closed r shut h = ground arith

-- Through any sequence of operations the identifier, the capacity and the creation time stay, and
-- the state never goes back in its order.
pub run-Follows : (r : Room) (os : List Op) → Follows r (run r os)
unfolding run
run-Follows r [] = record {
  same_id = refl;
  same_capacity = refl;
  same_birth = refl;
  forward = omega arith;
}
run-Follows r (o ∷ os) =
    let a = step-Follows r o in
    let b = run-Follows (step r o) os in
    record {
      same_id = b.same_id ∙ a.same_id;
      same_capacity = b.same_capacity ∙ a.same_capacity;
      same_birth = b.same_birth ∙ a.same_birth;
      forward = omega (arith, a.forward, b.forward);
    }

-- A room that is closed stays exactly as it is under any sequence of operations.
pub run_closed : (r : Room) (os : List Op) → is_closed r ≡ true → run r os ≡ r
unfolding run
run_closed r [] h = refl
run_closed r (o ∷ os) h =
    let stays = step_closed r o h in subst (λ s. run s os ≡ r) (sym stays) (run_closed r os h)
