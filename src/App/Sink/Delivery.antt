-- ===== src/App/Sink/Delivery.antt =====
-- A member's sink over time: no event is lost without the flag, and the flag is final.
use longship_x.Prelude.{
  ◌≡◌, sym, ◌∙◌, ap, true, false, List, [], ◌∷◌, ◌++◌, append_assoc, append-nil, arith, Bool-cases,
  inl, inr,
}
use longship_x.Channel.{Mpsc, Watch, Bounded}
use longship_x.Channel.Laws.{first, recv_lem, try_send_cases}
use longship_x.App.Sink.{RoomEvent, RoomEventSink, try_send}

-- The room actor sends an event, or the connection takes one.
pub data Op : Type 0 where
  event : RoomEvent → Op
  take : Op

abbrev pub sent_events : List Op → List RoomEvent
sent_events [] = []
sent_events (event e ∷ os) = e ∷ sent_events os
sent_events (take ∷ os) = sent_events os

module _ (m : Mpsc RoomEvent) (w : Watch) where
  unfoldable pub step : RoomEventSink m w → Op → RoomEventSink m w
  step s (event e) = try_send m w s e
  step s take = record s { tx = m.recv s.tx }

  unfoldable pub run : RoomEventSink m w → List Op → RoomEventSink m w
  unfolding step
  run s [] = s
  run s (o ∷ os) = run (step s o) os

  -- The events that the connection takes.
  unfoldable pub taken : RoomEventSink m w → List Op → List RoomEvent
  unfolding step
  taken s [] = []
  taken s (event e ∷ os) = taken (step s (event e)) os
  taken s (take ∷ os) = first (m.queued s.tx) ++ taken (step s take) os

  module _ (b : Bounded m) where
    stays_failed :
        (s : RoomEventSink m w) (o : Op)
        → w.borrow s.failed ≡ true
        → w.borrow (step s o).failed ≡ true
    unfolding step try_send
    stays_failed s (event e) h =
        ground (arith, try_send_cases m b s.tx e, w.borrow-send_replace true s.failed)
    stays_failed s take h = h

    -- The flag of a lost event is never lowered, whatever the connection drains afterwards.
    pub run-stays_failed :
        (s : RoomEventSink m w) (os : List Op)
        → w.borrow s.failed ≡ true
        → w.borrow (run s os).failed ≡ true
    unfolding run
    run-stays_failed s [] h = h
    run-stays_failed s (o ∷ os) h = run-stays_failed (step s o) os (stays_failed s o h)

    step-event :
        (s : RoomEventSink m w) (e : RoomEvent)
        → w.borrow (step s (event e)).failed ≡ false
        → m.queued (step s (event e)).tx ≡ m.queued s.tx ++ e ∷ []
    unfolding step try_send
    step-event s e h =
        ground (arith, try_send_cases m b s.tx e, w.borrow-send_replace true s.failed)

    -- As long as the flag is down, the connection has missed nothing: what it took and what is
    -- still queued are what was queued at first and every event sent since, in order.
    pub run_complete :
        (s : RoomEventSink m w) (os : List Op)
        → w.borrow (run s os).failed ≡ false
        → taken s os ++ m.queued (run s os).tx ≡ m.queued s.tx ++ sent_events os
    unfolding run taken
    run_complete s [] h = sym (append-nil _)
    run_complete s (event e ∷ os) h = elim (Bool-cases (w.borrow (step s (event e)).failed)) [
      | inl down ↦ absurd (cc (run-stays_failed (step s (event e)) os down, h))
      | inr up ↦
          run_complete (step s (event e)) os h
          ∙ (ap (λ l. l ++ sent_events os) (step-event s e up)
              ∙ append_assoc (m.queued s.tx) (e ∷ []) (sent_events os))
    ]
    run_complete s (take ∷ os) h =
        append_assoc (first (m.queued s.tx)) (taken (step s take) os)
          (m.queued (run s (take ∷ os)).tx)
        ∙ (ap (λ l. first (m.queued s.tx) ++ l) (run_complete (step s take) os h)
            ∙ (sym (append_assoc (first (m.queued s.tx)) (m.queued (m.recv s.tx)) (sent_events os))
                ∙ ap (λ l. l ++ sent_events os) (recv_lem m b s.tx).2))
