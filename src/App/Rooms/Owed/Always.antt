-- ===== src/App/Rooms/Owed/Always.antt =====
-- crates/application/src/room: the invariant of every schedule, and that no caller waits for ever.
use longship_x.Prelude.{
  ◌≡◌, sym, subst, inl, inr, true, some, List, [], ◌∷◌, Bool-cases, Option-cases, nat_eq, arith,
  contains,
}
use longship_x.Prelude.Map.{lookup, insert, lookup-insert, lookup-remove}
use longship_x.Domain.Error.{RoomId, DateTime}
use longship_x.App.Rooms.Tasks.{Task, Notice, join_reply, leave_reply, dropped, turn, starve}
use longship_x.App.Rooms.Tasks.Turns.{awaits}
use longship_x.App.Rooms.Tasks.Drain.{starve-IsSound}
use longship_x.App.Rooms.{
  RoomServiceConfig, join_done, leave_done, sender_dropped, Call, wait_join, wait_leave, CallId,
  RoomService, new, settle,
}
use longship_x.App.Rooms.Calls.{advance}
use longship_x.App.Rooms.Schedule.{
  Choice, is_first, begin, go, cancel, turn_of, starve_of, is_held, turn_room, starve_room,
  advance_call, step, run,
}
use longship_x.App.Rooms.Owed.{Replies, put-Core, turn-Core, looked_up}
use longship_x.App.Rooms.Owed.Steps.{CoreOf, Known, Grows, Kept}
use longship_x.App.Rooms.Owed.Advance.{advance-Kept}

pub record IsOwed (s : RoomService) : Type 0 where
  pub core : CoreOf s
  pub known : (id : CallId) (call : Call) → lookup id s.calls ≡ some call → Known s.replies call

pub new-IsOwed : IsOwed new
unfolding new
new-IsOwed = record {
  core = record {
    sound = λ room t h. absurd (ground (arith, h));
    numbered = λ room t h. absurd (ground (arith, h));
    owed = λ r h. absurd (ground (arith, h));
  };
  known = λ id call h. absurd (ground (arith, h));
}

pub settle-Grows : (told : List Notice) (m : Replies) → Grows m (settle told m)
settle-Grows [] m r h = h
settle-Grows (join_reply k out ∷ told) m r h =
    settle-Grows told (insert k (join_done out) m) r
      (ground (arith, lookup-insert k r (join_done out) m, h))
settle-Grows (leave_reply k out ∷ told) m r h =
    settle-Grows told (insert k (leave_done out) m) r
      (ground (arith, lookup-insert k r (leave_done out) m, h))
settle-Grows (dropped k ∷ told) m r h =
    settle-Grows told (insert k sender_dropped m) r
      (ground (arith, lookup-insert k r sender_dropped m, h))

pub turn_room-IsOwed : (s : RoomService) (room : RoomId) → IsOwed s → IsOwed (turn_room s room)
unfolding turn_room
turn_room-IsOwed s room v = elim (Option-cases (lookup room s.tasks)) [
  | inl missing ↦ rw (missing, turn_room) v
  | inr (t, there) ↦
      rw (there, turn_room)
        (record {
          core = turn-Core s.tasks s.replies s.next room t v.core there;
          known = λ id call h r w. settle-Grows (turn t).1 s.replies r (v.known id call h r w);
        })
]

starve-commands : (t : Task) → (starve t).commands ≡ t.commands
unfolding starve
starve-commands t = ground arith

starve_room-IsOwed : (s : RoomService) (room : RoomId) → IsOwed s → IsOwed (starve_room s room)
unfolding starve_room
starve_room-IsOwed s room v = elim (Option-cases (lookup room s.tasks)) [
  | inl missing ↦ rw (missing, starve_room) v
  | inr (t, there) ↦ elim (Bool-cases (is_held s room)) [
    | inl held ↦ rw (there, starve_room, held) v
    | inr free ↦
        rw (there, starve_room, free)
          (record {
            core =
                put-Core s.tasks s.replies s.next room t (starve t) v.core there
                  (starve-IsSound t (v.core.sound room t there))
                  (λ r h has.
                    subst (λ cs. contains (awaits cs) r ≡ true) (sym (starve-commands t)) has);
            known = v.known;
          })
  ]
]

-- The call that has moved, and the calls that have not.
moved-IsOwed :
    (s : RoomService) (id : CallId) (x : Call × RoomService)
    → IsOwed s
    → Kept s x
    → IsOwed (record (x.1) { calls = insert id x.0 x.1.calls })
moved-IsOwed s id x v kept = record {
  core = kept.core;
  known = λ j call h. elim (looked_up id j x.0 x.1.calls call h) [
    | inl (same, e) ↦ subst (λ c. Known x.1.replies c) e kept.known
    | inr (other, e) ↦
        λ r w. kept.grows r (v.known j call (subst (λ m. lookup j m ≡ some call) kept.others e) r w)
  ];
}

advance_call-IsOwed :
    (config : RoomServiceConfig) (s : RoomService) (id : CallId) (now : DateTime)
    → IsOwed s
    → IsOwed (advance_call config s id now)
unfolding advance_call
advance_call-IsOwed config s id now v = elim (Option-cases (lookup id s.calls)) [
  | inl missing ↦ rw (missing, advance_call) v
  | inr (call, there) ↦
      rw (there, advance_call)
        (moved-IsOwed s id (advance config now s call) v
          (advance-Kept config now s call v.core (v.known id call there)))
]

first-Known : (m : Replies) (call : Call) → is_first call ≡ true → Known m call
first-Known m (wait_join created room player reply) h r w = absurd (ground (arith, h))
first-Known m (wait_leave room player reason rest reply) h r w = absurd (ground (arith, h))
first-Known m _ h r w = absurd (ground (arith, w))

begin-IsOwed :
    (config : RoomServiceConfig) (s : RoomService) (id : CallId) (call : Call)
    → IsOwed s
    → IsOwed (step config s (begin id call))
unfolding step
begin-IsOwed config s id call v = elim (Bool-cases (is_first call)) [
  | inl first ↦ rw first (record {
    core = v.core;
    known = λ j c h. elim (looked_up id j call s.calls c h) [
      | inl (same, e) ↦ subst (λ c'. Known s.replies c') e (first-Known s.replies call first)
      | inr (other, e) ↦ v.known j c e
    ];
  })
  | inr late ↦ rw late v
]

step-IsOwed :
    (config : RoomServiceConfig) (s : RoomService) (c : Choice)
    → IsOwed s
    → IsOwed (step config s c)
unfolding step
step-IsOwed config s (begin id call) v = begin-IsOwed config s id call v
step-IsOwed config s (go id now) v = advance_call-IsOwed config s id now v
step-IsOwed config s (cancel id) v = record {
  core = v.core;
  known = λ j call h. v.known j call (ground (arith, lookup-remove id j s.calls, h));
}
step-IsOwed config s (turn_of room) v = turn_room-IsOwed s room v
step-IsOwed config s (starve_of room) v = starve_room-IsOwed s room v

pub run-IsOwed :
    (config : RoomServiceConfig) (s : RoomService) (cs : List Choice)
    → IsOwed s
    → IsOwed (run config s cs)
unfolding run
run-IsOwed config s [] v = v
run-IsOwed config s (c ∷ cs) v = run-IsOwed config (step config s c) cs (step-IsOwed config s c v)
