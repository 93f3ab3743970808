-- ===== src/App/Actor/Membership.antt =====
-- The actor's invariant: its table of members and the room's list name the same players.
use longship_x.Prelude.{
  ℕ, ◌≡◌, refl, ◌⊎◌, length-retain-le, true, is_some, [], ◌∷◌, ◌++◌, retain, contains,
  if◌then◌else◌, nat_eq, arith,
}
use longship_x.Prelude.Map.{Map, keys, lookup, insert, remove}
use longship_x.Prelude.Text.{Text}
use longship_x.Domain.Error.{PlayerId}
use longship_x.Domain.Room.{try_join, close, member_count}
use longship_x.Domain.Room.Members.{
  IsValid, try_join-IsValid, try_leave-IsValid, try_leave_lem, others,
}
use longship_x.Domain.Room.Lifecycle.{close-IsValid}
use longship_x.App.Actor.{RoomActor, Member, SinkId, ReplyId, finish, handle_join, handle_leave}

keys-insert :
    {V : Type 0} (k : ℕ) (v : V) (m : Map ℕ V)
    → keys (insert k v m) ≡ (if contains (keys m) k then keys m else keys m ++ k ∷ [])
keys-insert k v [] = refl
keys-insert k v ((j, w) ∷ m) = ground (arith, keys-insert k v m)

keys-remove : {V : Type 0} (k : ℕ) (m : Map ℕ V) → keys (remove k m) ≡ retain (others k) (keys m)
keys-remove k [] = refl
keys-remove k ((j, w) ∷ m) = ground (arith, keys-remove k m)

pub lookup-keys : {V : Type 0} (k : ℕ) (m : Map ℕ V) → is_some (lookup k m) ≡ contains (keys m) k
lookup-keys k [] = refl
lookup-keys k ((j, w) ∷ m) = ground (arith, lookup-keys k m)

-- Between two commands.
pub record Inv (a : RoomActor) : Type 0 where
  pub valid : IsValid a.room
  pub same_players : keys a.members ≡ a.room.members
  pub had : (member_count a.room ≡ 0) ⊎ (a.had_members ≡ true)

pub finish-Inv : (a : RoomActor) (reason : Text) → Inv a → Inv (finish a reason).0
unfolding finish close
finish-Inv a reason v = ground (arith, close-IsValid a.room v.valid)

pub handle_join-Inv :
    (a : RoomActor) (player : PlayerId) (nickname : Text) (sink : SinkId) (reply : ReplyId)
    → Inv a
    → Inv (handle_join a player nickname sink reply).0
unfolding handle_join try_join
handle_join-Inv a player nickname sink reply v =
    let member : Member = record { nickname = nickname; sink = sink } in
    ground (arith, try_join-IsValid a.room player v.valid, keys-insert player member a.members)

pub handle_leave-Inv : (a : RoomActor) (player : PlayerId) → Inv a → Inv (handle_leave a player).1
unfolding handle_leave
handle_leave-Inv a player v = ground (
  arith,
  try_leave-IsValid a.room player v.valid,
  try_leave_lem a.room player,
  keys-remove player a.members,
  length-retain-le (others player) a.room.members,
)
