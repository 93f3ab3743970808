-- ===== src/App/Actor/Life.antt =====
-- The life of the actor's task: it runs as long as the room is open.
use longship_x.Prelude.{
  ◌≡◌, inl, refl, sym, ◌∙◌, ap, true, false, [], ◌∷◌, length, length-append, nat_eq, arith,
}
use longship_x.Prelude.Text.{Text}
use longship_x.Domain.Error.{PlayerId}
use longship_x.Domain.Room.{Room, try_join, close, is_closed}
use longship_x.Domain.Room.Members.{IsValid, try_leave_lem}
use longship_x.App.Actor.{
  RoomActor, RoomCommand, join, say, leave, shut, SinkId, ReplyId, spawn, finish, handle_join,
  handle_leave, handle, deserted,
}
use longship_x.App.Actor.Membership.{Inv, finish-Inv, handle_join-Inv, handle_leave-Inv}

-- Between two commands of a task that has not ended.
pub record IsRunning (a : RoomActor) : Type 0 where
  pub inv : Inv a
  pub open_still : is_closed a.room ≡ false
  pub inhabited : deserted a ≡ false

pub finish_lem : (a : RoomActor) (reason : Text) → is_closed (finish a reason).0.room ≡ true
unfolding finish close
finish_lem a reason = ground arith

handle-Inv : (a : RoomActor) (c : RoomCommand) → Inv a → Inv (handle a c).0
unfolding handle
handle-Inv a (join player nickname sink reply) v = handle_join-Inv a player nickname sink reply v
handle-Inv a (say player message) v = v
handle-Inv a (leave player reason reply) v = handle_leave-Inv a player v
handle-Inv a (shut reason) v = finish-Inv a reason v

pub handle_join-IsRunning :
    (a : RoomActor) (player : PlayerId) (nickname : Text) (sink : SinkId) (reply : ReplyId)
    → IsRunning a
    → (is_closed (handle_join a player nickname sink reply).0.room ≡ false)
      × (deserted (handle_join a player nickname sink reply).0 ≡ false)
unfolding handle_join try_join
handle_join-IsRunning a player nickname sink reply v =
    ground (arith, length-append a.room.members (player ∷ []))

handle_leave-ends :
    (a : RoomActor) (player : PlayerId)
    → IsRunning a
    → is_closed (handle_leave a player).1.room ≡ deserted (handle_leave a player).1
unfolding handle_leave finish close
handle_leave-ends a player v = ground (arith, try_leave_lem a.room player)

-- One command to a running task keeps the invariant, and the task ends with this command exactly if
-- the command closed the room.
pub handle-ends :
    (a : RoomActor) (c : RoomCommand)
    → IsRunning a
    → Inv (handle a c).0 × ((handle a c).2 ≡ is_closed (handle a c).0.room)
unfolding handle
handle-ends a (join player nickname sink reply) v =
    let r = handle_join-IsRunning a player nickname sink reply v in
    (handle-Inv a (join player nickname sink reply) v.inv, r.1 ∙ sym r.0)
handle-ends a (say player message) v = (v.inv, v.inhabited ∙ sym v.open_still)
handle-ends a (leave player reason reply) v =
    (handle-Inv a (leave player reason reply) v.inv, sym (handle_leave-ends a player v))
handle-ends a (shut reason) v = (handle-Inv a (shut reason) v.inv, sym (finish_lem a reason))

-- A command that does not end the task leaves somebody in the room, or a room where nobody has been.
handle-deserted :
    (a : RoomActor) (c : RoomCommand) → (handle a c).2 ≡ false → deserted (handle a c).0 ≡ false
unfolding handle
handle-deserted a (join player nickname sink reply) h = h
handle-deserted a (say player message) h = h
handle-deserted a (leave player reason reply) h = h
handle-deserted a (shut reason) h = cc

pub handle-IsRunning :
    (a : RoomActor) (c : RoomCommand)
    → IsRunning a
    → (handle a c).2 ≡ false
    → IsRunning (handle a c).0
handle-IsRunning a c v h =
    let (kept, ends) = handle-ends a c v in
    record { inv = kept; open_still = sym ends ∙ h; inhabited = handle-deserted a c h }

pub spawn-IsRunning :
    (room : Room)
    → IsValid room
    → is_closed room ≡ false
    → room.members ≡ []
    → IsRunning (spawn room)
unfolding spawn
spawn-IsRunning room valid open_still empty = record {
  inv = record { valid = valid; same_players = sym empty; had = inl (ap length empty) };
  open_still = open_still;
  inhabited = refl;
}
