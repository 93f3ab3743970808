-- ===== src/Gateway/ReadLoop/Tests.antt =====
-- crates/gateway/src/tcp/handler.rs, `run_read_loop`: a connection that never binds.
use longship_x.Prelude.{ℕ, ◌≡◌, refl, true, false, none, some, [], ◌∷◌}
use longship_x.Prelude.Text.{Text, text}
use longship_x.Channel.Memory.{memory, flag}
use longship_x.Net.Codec.{Frame}
use longship_x.Net.Error.{NetError}
use longship_x.Protocol.Messages.Plain.{plain}
use longship_x.Gateway.Admission.Tests.{deps, formats, fresh, calm}
use longship_x.Gateway.ReadLoop.{Reading, Poll, turn, run}
use longship_x.Gateway.ReadLoop.Deadline.{Held, run-Held, run-turn}

abbrev shown : NetError → Text
shown e = text "error"

abbrev Loop : Type 0
Loop = Reading (memory Frame) flag plain deps formats shown 60

abbrev Ready : Type 0
Ready = Poll (memory Frame) flag plain deps formats shown 60

abbrev begun : Loop
begun = record {
  conn = fresh;
  session = record { id = 1; player_id = none; connected_at = 0; last_heartbeat_at = 0 };
  permit = some 9;
  admission_deadline = 10;
  armed = 10;
}

abbrev quiet : ℕ → Ready
quiet now = record {
  room_failed = false;
  stopping = false;
  arrived = none;
  now = now;
  wall_clock = now;
  moment = calm;
  in_time = true;
  interrupted = λ conn. conn;
  after = now;
}

run-Held_example :
    Held
      (memory Frame)
      flag
      plain
      deps
      formats
      shown
      60
      9
      10
      (run (memory Frame) flag plain deps formats shown 60 begun (quiet 3 ∷ quiet 4 ∷ [])).1
run-Held_example =
    run-Held (memory Frame) flag plain deps formats shown 60 9 10 begun (quiet 3 ∷ quiet 4 ∷ [])
      (refl, refl, refl) (unfold run in refl)

run-turn_example :
    (turn
      (memory Frame)
      flag
      plain
      deps
      formats
      shown
      60
      (run (memory Frame) flag plain deps formats shown 60 begun (quiet 3 ∷ [])).1
      (quiet 10)).0
    ≡ false
run-turn_example =
    run-turn (memory Frame) flag plain deps formats shown 60 9 10 begun (quiet 3 ∷ []) (quiet 10)
      (refl, refl, refl) (unfold run in refl) (unfold run in refl) refl
