-- ===== src/App/Rooms/Owed/Waiting.antt =====
-- crates/application/src/room: a call of the service that waits for a reply gets one.
use longship_x.Prelude.{
  ℕ, zero, suc, ◌≤◌, ◌≡◌, refl, sym, subst, ◌⊎◌, inl, inr, Bool, true, false, Option, none, some,
  is_some, List, [], ◌∷◌, length, Option-cases, nat_eq, arith, contains,
}
use longship_x.Prelude.Map.{lookup, insert, lookup-insert}
use longship_x.Domain.Error.{RoomId}
use longship_x.App.Actor.{ReplyId, RoomCommand}
use longship_x.App.Rooms.Tasks.{Task, Notice, join_reply, leave_reply, dropped, turn}
use longship_x.App.Rooms.Tasks.Turns.{awaits, answered}
use longship_x.App.Rooms.Tasks.Drain.{IsSound, turn-answered, turn-shorter}
use longship_x.App.Rooms.{
  RoomServiceConfig, Slot, awaited, join_done, leave_done, sender_dropped, Call, CallId,
  RoomService, new, settle,
}
use longship_x.App.Rooms.Schedule.{Choice, turn_of, turn_room, step, run}
use longship_x.App.Rooms.Owed.{Replies, settled, contains-append}
use longship_x.App.Rooms.Owed.Steps.{waits}
use longship_x.App.Rooms.Owed.Always.{
  IsOwed, settle-Grows, new-IsOwed, turn_room-IsOwed, run-IsOwed,
}

-- The receiver has something to receive: a reply, or that the sender is gone.
abbrev pub is_settled : Option Slot → Bool
is_settled (some (join_done out)) = true
is_settled (some (leave_done out)) = true
is_settled (some sender_dropped) = true
is_settled (some awaited) = false
is_settled none = false

abbrev pub turns : ℕ → RoomId → List Choice
turns zero room = []
turns (suc n) room = turn_of room ∷ turns n room

settle-is_settled :
    (told : List Notice) (m : Replies) (r : ReplyId)
    → is_settled (lookup r m) ≡ true
    → is_settled (lookup r (settle told m)) ≡ true
settle-is_settled [] m r h = h
settle-is_settled (join_reply k out ∷ told) m r h =
    settle-is_settled told (insert k (join_done out) m) r
      (ground (arith, lookup-insert k r (join_done out) m, h))
settle-is_settled (leave_reply k out ∷ told) m r h =
    settle-is_settled told (insert k (leave_done out) m) r
      (ground (arith, lookup-insert k r (leave_done out) m, h))
settle-is_settled (dropped k ∷ told) m r h =
    settle-is_settled told (insert k sender_dropped m) r
      (ground (arith, lookup-insert k r sender_dropped m, h))

turn_room-is_settled :
    (s : RoomService) (room : RoomId) (r : ReplyId)
    → is_settled (lookup r s.replies) ≡ true
    → is_settled (lookup r (turn_room s room).replies) ≡ true
unfolding turn_room
turn_room-is_settled s room r h = elim (Option-cases (lookup room s.tasks)) [
  | inl missing ↦ rw (missing, turn_room) h
  | inr (t, there) ↦ rw (there, turn_room) (settle-is_settled (turn t).1 s.replies r h)
]

turns-is_settled :
    (config : RoomServiceConfig) (n : ℕ) (s : RoomService) (room : RoomId) (r : ReplyId)
    → is_settled (lookup r s.replies) ≡ true
    → is_settled (lookup r (run config s (turns n room)).replies) ≡ true
unfolding run step
turns-is_settled config zero s room r h = h
turns-is_settled config (suc n) s room r h =
    turns-is_settled config n (turn_room s room) room r (turn_room-is_settled s room r h)

turn_room-settle :
    (s : RoomService) (room : RoomId) (t : Task)
    → lookup room s.tasks ≡ some t
    → (turn_room s room).replies ≡ settle (turn t).1 s.replies
unfolding turn_room
turn_room-settle s room t there = rw (there, turn_room) refl

-- A reply that is not settled after a turn of the task that owes it is owed still.
turn_room-owes :
    (s : RoomService) (room : RoomId) (t : Task) (r : ReplyId)
    → IsSound t
    → lookup room s.tasks ≡ some t
    → contains (awaits t.commands) r ≡ true
    → lookup r (turn_room s room).replies ≡ some awaited
    → contains (awaits (turn t).0.commands) r ≡ true
unfolding turn_room
turn_room-owes s room t r v there has h =
    let told = (turn t).1 in
    let h' : lookup r (settle told s.replies) ≡ some awaited =
      subst (λ m. lookup r m ≡ some awaited) (turn_room-settle s room t there) h in
    let whole = subst (λ l. contains l r ≡ true) (sym (turn-answered t v)) has in
    ground (
      arith,
      contains-append (answered told) (awaits (turn t).0.commands) r,
      whole,
      (settled told s.replies r h').1,
    )

turned :
    (s : RoomService) (room : RoomId) (t : Task)
    → lookup room s.tasks ≡ some t
    → lookup room (turn_room s room).tasks ≡ some (turn t).0
unfolding turn_room
turned s room t there =
    rw (there, turn_room) (ground (arith, lookup-insert room room (turn t).0 s.tasks))

Slot-cases :
    (m : Replies) (r : ReplyId)
    → is_some (lookup r m) ≡ true
    → (lookup r m ≡ some awaited) ⊎ (is_settled (lookup r m) ≡ true)
Slot-cases m r h = go (lookup r m) h
  where
    go : (o : Option Slot) → is_some o ≡ true → (o ≡ some awaited) ⊎ (is_settled o ≡ true)
    go (some awaited) h = inl refl
    go (some (join_done out)) h = inr refl
    go (some (leave_done out)) h = inr refl
    go (some sender_dropped) h = inr refl
    go none h = absurd (ground (arith, h))

owes_none : (cs : List RoomCommand) (r : ReplyId) → length cs ≤ 0 → contains (awaits cs) r ≡ false
owes_none [] r h = refl
owes_none (c ∷ cs) r h = absurd (omega (arith, h))

owed-is_settled :
    (config : RoomServiceConfig) (n : ℕ) (s : RoomService) (room : RoomId) (t : Task) (r : ReplyId)
    → IsOwed s
    → is_some (lookup r s.replies) ≡ true
    → lookup room s.tasks ≡ some t
    → length t.commands ≤ n
    → contains (awaits t.commands) r ≡ true
    → is_settled (lookup r (run config s (turns n room)).replies) ≡ true
unfolding run step
owed-is_settled config zero s room t r v known there h has =
    absurd (ground (arith, owes_none t.commands r h, has))
owed-is_settled config (suc n) s room t r v known there h has =
    let s' = turn_room s room in
    let sound = v.core.sound room t there in
    let known' =
      subst (λ m. is_some (lookup r m) ≡ true) (sym (turn_room-settle s room t there))
        (settle-Grows (turn t).1 s.replies r known) in
    elim (Slot-cases s'.replies r known') [
      | inr over ↦ turns-is_settled config n s' room r over
      | inl waiting ↦
          owed-is_settled config n s' room (turn t).0 r (turn_room-IsOwed s room v) known'
            (turned s room t there) (turn-shorter t n sound h)
            (turn_room-owes s room t r sound there has waiting)
    ]

-- However calls, cancelled calls and the rooms' tasks have interleaved so far, a call that waits for a
-- reply never waits for ever: the reply is there or its sender is gone, or there is a room whose task,
-- in as many of its own turns as it has commands queued, answers the reply or drops its sender.
pub run-is_settled :
    (config : RoomServiceConfig) (cs : List Choice) (id : CallId) (call : Call) (r : ReplyId)
    → lookup id (run config new cs).calls ≡ some call
    → waits call ≡ some r
    → let s = run config new cs in
      (is_settled (lookup r s.replies) ≡ true)
      ⊎ ((room : RoomId) × (t : Task) × (lookup room s.tasks ≡ some t)
          × (is_settled (lookup r (run config s (turns (length t.commands) room)).replies) ≡ true))
run-is_settled config cs id call r there waiting =
    let s = run config new cs in
    let v = run-IsOwed config new cs new-IsOwed in
    let known = v.known id call there r waiting in
    elim (Slot-cases s.replies r known) [
      | inr over ↦ inl over
      | inl awaits_it ↦
          let (room, t, found, has) = v.core.owed r awaits_it in
          let n = length t.commands in
          inr (room, t, found, owed-is_settled config n s room t r v known found (omega arith) has)
    ]
