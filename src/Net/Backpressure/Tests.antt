-- ===== src/Net/Backpressure/Tests.antt =====
-- The outbound queue on a channel in memory.
use longship_x.Prelude.{ℕ, ◌≡◌, refl, false, err, List, [], ◌∷◌, ◌++◌}
use longship_x.Channel.Memory.{memory, memory-Bounded, flag}
use longship_x.Net.Codec.{Frame}
use longship_x.Net.Error.{queue_full, closed}
use longship_x.Net.Backpressure.{OutboundSender, ready, try_send_frame, send_frame}
use longship_x.Net.Backpressure.Sticky.{
  Op, attempt, receive, quit, run, received, dropped, accepted, contents, try_send_frame_sticky,
  run-fifo,
}

abbrev frame : ℕ → Frame
frame n = record { opcode = n; payload = n ∷ [] }

abbrev Sender : Type 0
Sender = OutboundSender (memory Frame) flag

-- Two frames fill the queue.
abbrev crowded : Sender
crowded = record {
  tx = record { values = frame 1 ∷ frame 2 ∷ []; room = 2; gone = false };
  disconnected = false;
}

abbrev history : List Op
history = receive ∷ attempt (frame 3) ∷ attempt (frame 4) ∷ receive ∷ quit ∷ attempt (frame 5) ∷ []

refused : (try_send_frame (memory Frame) flag crowded (frame 3)).0 ≡ err queue_full
unfolding try_send_frame
refused = refl

try_send_frame_sticky_example :
    let later =
      run
        (memory Frame)
        flag
        (try_send_frame (memory Frame) flag crowded (frame 3)).1
        (receive ∷ receive ∷ []) in
    (try_send_frame (memory Frame) flag later (frame 4) ≡ (err closed, later))
    × (send_frame (memory Frame) flag later (frame 4) ≡ (ready (err closed), later))
unfolding try_send_frame
try_send_frame_sticky_example =
    try_send_frame_sticky (memory Frame) flag (memory-Bounded Frame) crowded (frame 3) (frame 4)
      (receive ∷ receive ∷ []) refl

run-fifo_example :
    received (memory Frame) flag crowded history
      ++ (dropped (memory Frame) flag crowded history
          ++ contents (memory Frame) flag (run (memory Frame) flag crowded history))
    ≡ (frame 1 ∷ frame 2 ∷ []) ++ accepted (memory Frame) flag crowded history
run-fifo_example = run-fifo (memory Frame) flag (memory-Bounded Frame) crowded history
