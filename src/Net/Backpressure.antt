-- ===== src/Net/Backpressure.antt =====
-- crates/net-kit/src/backpressure.rs: the sending end of a connection's bounded queue. A queue that
-- is found full marks its connection as a slow client's, for ever.
pub mod Sticky
mod Tests
use longship_x.Prelude.{Bool, true, ◌||◌, Result, ok, err, if◌then◌else◌}
use longship_x.Channel.{Mpsc, Watch, TrySend, sent, full}
use longship_x.Net.Codec.{Frame}
use longship_x.Net.Error.{NetError, queue_full, closed}

-- What an asynchronous call answers when it is polled.
pub data Poll (A : Type 0) : Type 0 where
  ready : A → Poll A
  pending : Poll A

module _ (m : Mpsc Frame) (w : Watch) where
  pub record OutboundSender : Type 0 where
    pub tx : m.Queue
    pub disconnected : w.Flag

  abbrev pub is_closed : OutboundSender → Bool
  is_closed s = m.is_closed s.tx || w.borrow s.disconnected

  unfoldable pub disconnect : OutboundSender → OutboundSender
  disconnect s = record s { disconnected = w.send_replace true s.disconnected }

  abbrev pub sent_result : TrySend → Result (Unit {0}) NetError
  sent_result sent = ok tt
  sent_result full = err queue_full
  sent_result TrySend.closed = err closed

  unfoldable pub try_send_frame :
      OutboundSender → Frame → Result (Unit {0}) NetError × OutboundSender
  unfolding disconnect
  try_send_frame s frame =
      if is_closed s
      then (err closed, s)
      else let (outcome, tx) = m.try_send frame s.tx in
        let s' = record s { tx = tx } in
        let result = sent_result outcome in
        (result, elim result [ ok _ ↦ s' | err _ ↦ disconnect s' ])

  -- One poll of `send_frame`: the branch for a disconnect is tried first, and a full queue waits.
  unfoldable pub send_frame :
      OutboundSender → Frame → Poll (Result (Unit {0}) NetError) × OutboundSender
  send_frame s frame =
      if is_closed s
      then (ready (err closed), s)
      else let (outcome, tx) = m.try_send frame s.tx in
        elim outcome [
          | sent ↦ (ready (ok tt), record s { tx = tx })
          | full ↦ (pending, s)
          | TrySend.closed ↦ (ready (err closed), s)
        ]
