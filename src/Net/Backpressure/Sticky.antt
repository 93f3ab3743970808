-- ===== src/Net/Backpressure/Sticky.antt =====
-- Histories of an outbound queue: order, bound, and that a failure is final.
use longship_x.Prelude.{
  ◌≤◌, ◌≡◌, refl, sym, ◌∙◌, ap, true, false, err, is_ok, List, [], ◌∷◌, ◌++◌, append_assoc,
  append-nil, length, length-append, if◌then◌else◌, arith,
}
use longship_x.Channel.{Mpsc, Watch, Bounded}
use longship_x.Channel.Laws.{first, recv_lem, try_send_cases}
use longship_x.Net.Codec.{Frame}
use longship_x.Net.Error.{closed}
use longship_x.Net.Backpressure.{
  OutboundSender, ready, pending, is_closed, disconnect, try_send_frame, send_frame,
}

-- What happens to the queue: a sender tries to send or waits, the writer task takes a frame, a holder
-- disconnects, and the writer task ends, by a disconnect, a failed write or its deadline, which drops the
-- receiver with what is still queued.
pub data Op : Type 0 where
  attempt wait : Frame → Op
  receive cut quit : Op

module _ (m : Mpsc Frame) (w : Watch) where
  abbrev Sender : Type 0
  Sender = OutboundSender m w

  abbrev pub contents : OutboundSender m w → List Frame
  contents s = m.queued s.tx

  unfoldable pub step : OutboundSender m w → Op → OutboundSender m w
  step s (attempt f) = (try_send_frame m w s f).1
  step s (wait f) = (send_frame m w s f).1
  step s receive = record s { tx = m.recv s.tx }
  step s cut = disconnect m w s
  step s quit = record s { tx = m.drop_receiver s.tx }

  unfoldable pub run : OutboundSender m w → List Op → OutboundSender m w
  unfolding step
  run s [] = s
  run s (o ∷ os) = run (step s o) os

  -- The frame that a sender was told had been queued.
  pub accepted_by : OutboundSender m w → Op → List Frame
  accepted_by s (attempt f) = if is_ok (try_send_frame m w s f).0 then f ∷ [] else []
  accepted_by s (wait f) = elim (send_frame m w s f).0 [
    | ready r ↦ if is_ok r then f ∷ [] else []
    | pending ↦ []
  ]
  accepted_by s receive = []
  accepted_by s cut = []
  accepted_by s quit = []

  -- The frame that the writer task took out.
  pub received_by : OutboundSender m w → Op → List Frame
  received_by s receive = first (contents s)
  received_by s (attempt f) = []
  received_by s (wait f) = []
  received_by s cut = []
  received_by s quit = []

  -- The frames that go with the receiver.
  pub dropped_by : OutboundSender m w → Op → List Frame
  dropped_by s quit = contents s
  dropped_by s (attempt f) = []
  dropped_by s (wait f) = []
  dropped_by s receive = []
  dropped_by s cut = []

  pub accepted : OutboundSender m w → List Op → List Frame
  accepted s [] = []
  accepted s (o ∷ os) = accepted_by s o ++ accepted (step s o) os

  pub received : OutboundSender m w → List Op → List Frame
  received s [] = []
  received s (o ∷ os) = received_by s o ++ received (step s o) os

  pub dropped : OutboundSender m w → List Op → List Frame
  dropped s [] = []
  dropped s (o ∷ os) = dropped_by s o ++ dropped (step s o) os

  module _ (b : Bounded m) where
    stays_closed : (s : Sender) (o : Op) → is_closed m w s ≡ true → is_closed m w (step s o) ≡ true
    unfolding step try_send_frame send_frame disconnect
    stays_closed s (attempt f) h = ground arith
    stays_closed s (wait f) h = ground arith
    stays_closed s receive h = ground (arith, recv_lem m b s.tx)
    stays_closed s cut h = ground (arith, w.borrow-send_replace true s.disconnected)
    stays_closed s quit h = ground (arith, b.drop_closes s.tx)

    run-stays_closed :
        (s : Sender) (os : List Op) → is_closed m w s ≡ true → is_closed m w (run s os) ≡ true
    unfolding run
    run-stays_closed s [] h = h
    run-stays_closed s (o ∷ os) h = run-stays_closed (step s o) os (stays_closed s o h)

    -- A sender that was refused once is refused for ever: after any further calls, by whatever
    -- clone, and however far the writer task has drained the queue, sending is answered `Closed` and
    -- changes nothing.
    pub try_send_frame_sticky :
        (s : OutboundSender m w) (f g : Frame) (os : List Op)
        → is_ok (try_send_frame m w s f).0 ≡ false
        → let later = run (try_send_frame m w s f).1 os in
          (try_send_frame m w later g ≡ (err closed, later))
          × (send_frame m w later g ≡ (ready (err closed), later))
    unfolding try_send_frame send_frame disconnect
    try_send_frame_sticky s f g os h =
        let now : is_closed m w (try_send_frame m w s f).1 ≡ true =
          ground (arith, w.borrow-send_replace true s.disconnected) in
        let later = run-stays_closed (try_send_frame m w s f).1 os now in ground (arith, later)

    -- One call takes frames off the front, by the writer task or with the receiver, and adds accepted ones
    -- at the end.
    step-fifo :
        (s : Sender) (o : Op)
        → received_by s o ++ (dropped_by s o ++ contents (step s o)) ≡ contents s ++ accepted_by s o
    unfolding step try_send_frame send_frame disconnect received_by accepted_by dropped_by
    step-fifo s (attempt f) = ground (arith, try_send_cases m b s.tx f, append-nil (contents s))
    step-fifo s (wait f) = ground (arith, try_send_cases m b s.tx f, append-nil (contents s))
    step-fifo s receive = (recv_lem m b s.tx).2 ∙ sym (append-nil _)
    step-fifo s cut = sym (append-nil _)
    step-fifo s quit = ap (λ l. contents s ++ l) (b.drop_closes s.tx).1

    -- The receiver is gone.
    IsGone : Sender → Type 0
    IsGone s = (m.is_closed s.tx ≡ true) × (contents s ≡ [])

    step-IsGone :
        (s : Sender) (o : Op)
        → IsGone s
        → IsGone (step s o)
          × (received_by s o ≡ [])
          × (dropped_by s o ≡ [])
          × (accepted_by s o ≡ [])
    unfolding IsGone step try_send_frame send_frame disconnect received_by accepted_by dropped_by
    step-IsGone s (attempt f) h = ground (arith, h, b.send_closed f s.tx)
    step-IsGone s (wait f) h = ground (arith, h, b.send_closed f s.tx)
    step-IsGone s receive h = ground (arith, h, b.recv_empty s.tx)
    step-IsGone s cut h = ground (arith, h)
    step-IsGone s quit h = ground (arith, h, b.drop_closes s.tx)

    run-IsGone :
        (s : Sender) (os : List Op)
        → IsGone s
        → (contents (run s os) ≡ [])
          × (received s os ≡ [])
          × (dropped s os ≡ [])
          × (accepted s os ≡ [])
    unfolding run received dropped accepted IsGone
    run-IsGone s [] h = (h.1, refl, refl, refl)
    run-IsGone s (o ∷ os) h =
        let (now, a, b', c) = step-IsGone s o h in
        let (d, e, f, g) = run-IsGone (step s o) os now in
        (d, rw (a, e) refl, rw (b', f) refl, rw (c, g) refl)

    step-bounded :
        (s : Sender) (o : Op)
        → length (contents s) ≤ m.capacity s.tx
        → (length (contents (step s o)) ≤ m.capacity (step s o).tx)
          × (m.capacity (step s o).tx ≡ m.capacity s.tx)
    unfolding step try_send_frame send_frame disconnect
    step-bounded s (attempt f) h =
        ground (arith, try_send_cases m b s.tx f, length-append (contents s) (f ∷ []))
    step-bounded s (wait f) h =
        ground (arith, try_send_cases m b s.tx f, length-append (contents s) (f ∷ []))
    step-bounded s receive h =
        let r = recv_lem m b s.tx in
        ground (arith, r, length-append (first (contents s)) (m.queued (m.recv s.tx)))
    step-bounded s cut h = (h, refl)
    step-bounded s quit h = ground (arith, b.drop_closes s.tx)

    -- A history whose first call drops nothing.
    kept :
        (s : Sender) (o : Op) (os : List Op)
        → dropped_by s o ≡ []
        → received (step s o) os ++ (dropped (step s o) os ++ contents (run (step s o) os))
          ≡ contents (step s o) ++ accepted (step s o) os
        → received s (o ∷ os) ++ (dropped s (o ∷ os) ++ contents (run s (o ∷ os)))
          ≡ contents s ++ accepted s (o ∷ os)
    unfolding run received dropped accepted
    kept s o os none later =
        let rest = dropped (step s o) os ++ contents (run (step s o) os) in
        let now : received_by s o ++ contents (step s o) ≡ contents s ++ accepted_by s o =
          ap (λ l. received_by s o ++ (l ++ contents (step s o))) (sym none) ∙ step-fifo s o in
        ap
          (λ l.
            (received_by s o ++ received (step s o) os)
            ++ ((l ++ dropped (step s o) os) ++ contents (run (step s o) os)))
          none
        ∙ (append_assoc (received_by s o) (received (step s o) os) rest
            ∙ (ap (λ l. received_by s o ++ l) later
                ∙ (sym (
                      append_assoc (received_by s o) (contents (step s o)) (accepted (step s o) os))
                    ∙ (ap (λ l. l ++ accepted (step s o) os) now
                        ∙ append_assoc (contents s) (accepted_by s o) (accepted (step s o) os)))))

    ended :
        (s : Sender) (os : List Op)
        → received s (quit ∷ os) ++ (dropped s (quit ∷ os) ++ contents (run s (quit ∷ os)))
          ≡ contents s ++ accepted s (quit ∷ os)
    unfolding run received dropped accepted received_by dropped_by accepted_by step IsGone
    ended s os =
        let (a, r, d, c) =
          run-IsGone (step s quit) os ((b.drop_closes s.tx).0, (b.drop_closes s.tx).1) in
        rw (a, r, d, c) (append-nil _)

    -- The frames that the writer task takes out, followed by those that are dropped with the receiver
    -- when it ends, followed by those still queued, are the frames that were queued at first followed by
    -- those that senders were told were accepted, in order: no frame is repeated or reordered, none
    -- that was refused is taken out, and an accepted frame misses the writer task only by its end.
    pub run-fifo :
        (s : OutboundSender m w) (os : List Op)
        → received s os ++ (dropped s os ++ contents (run s os)) ≡ contents s ++ accepted s os
    unfolding run received dropped accepted dropped_by
    run-fifo s [] = sym (append-nil _)
    run-fifo s (quit ∷ os) = ended s os
    run-fifo s (attempt f ∷ os) = kept s (attempt f) os refl (run-fifo (step s (attempt f)) os)
    run-fifo s (wait f ∷ os) = kept s (wait f) os refl (run-fifo (step s (wait f)) os)
    run-fifo s (receive ∷ os) = kept s receive os refl (run-fifo (step s receive) os)
    run-fifo s (cut ∷ os) = kept s cut os refl (run-fifo (step s cut) os)

    -- However it is used, a queue within its capacity stays within it, and the capacity stays.
    pub run-bounded :
        (s : OutboundSender m w) (os : List Op)
        → length (contents s) ≤ m.capacity s.tx
        → (length (contents (run s os)) ≤ m.capacity (run s os).tx)
          × (m.capacity (run s os).tx ≡ m.capacity s.tx)
    unfolding run
    run-bounded s [] h = (h, refl)
    run-bounded s (o ∷ os) h =
        let now = step-bounded s o h in
        let later = run-bounded (step s o) os now.0 in (later.0, later.1 ∙ now.1)
