-- ===== src/Gateway/Translator/Relay.antt =====
-- crates/gateway/src/tcp/handler.rs: what of a room's events reaches the queue of a connection.
use longship_x.Prelude.{
  subst, ◌≡◌, refl, sym, ap, ◌∙◌, ◌⊎◌, inl, inr, Bool, true, false, Result, ok, err, is_ok, List,
  [], ◌∷◌, ◌++◌, append_assoc, append-nil, if◌then◌else◌, arith, Bool-cases,
}
use longship_x.Prelude.Text.{text}
use longship_x.Channel.{Mpsc, Watch, Bounded}
use longship_x.Channel.Laws.{try_send_cases}
use longship_x.App.Sink.{RoomEvent}
use longship_x.Net.Codec.{Frame}
use longship_x.Net.Backpressure.{OutboundSender, disconnect, try_send_frame}
use longship_x.Protocol.Error.{ProtocolError}
use longship_x.Protocol.Opcodes.{err_not_authenticated}
use longship_x.Protocol.Generated.{Schema}
use longship_x.Protocol.Messages.{game_encode, error_notification}
use longship_x.Gateway.Context.{GatewayDeps, Formats, ConnContext, validate_session}
use longship_x.Gateway.Convert.{room_event_message}
use longship_x.Gateway.Admission.{Connection, try_send, queued, notified}
use longship_x.Gateway.Translator.{forward, translate, translate_all}

module _ (m : Mpsc Frame) (wt : Watch) (s : Schema) {W : Type 0} (deps : GatewayDeps W)
    (f : Formats) where
  abbrev Conn : Type 0
  Conn = Connection m wt s deps f

  abbrev Event : Type 0
  Event = Bool × RoomEvent

  abbrev pub contents : Connection m wt s deps f → List Frame
  contents conn = m.queued conn.outbound.tx

  -- The frames of events that came, each, while the session was valid.
  pub data Relayed : ConnContext W → List (Bool × RoomEvent) → List Frame → Type 0 where
    nothing : {ctx : ConnContext W} → Relayed ctx [] []
    relayed :
        {ctx : ConnContext W} {timely : Bool} {event : RoomEvent} {frame : Frame}
        {events : List (Bool × RoomEvent)} {frames : List Frame}
        → (validate_session deps timely ctx).0 ≡ true
        → game_encode s (room_event_message f event) ≡ ok frame
        → Relayed (validate_session deps timely ctx).1 events frames
        → Relayed ctx ((timely, event) ∷ events) (frame ∷ frames)

  -- What may follow them: nothing, or the one notice that the session is not valid.
  abbrev pub LastWord : List Frame → Type 0
  LastWord said =
      (said ≡ [])
      ⊎ ((frame : Frame) × (game_encode s
              (error_notification err_not_authenticated (text "会话无效或已过期"))
            ≡ ok frame)
          × (said ≡ frame ∷ []))

  pub record Delivery (conn : Connection m wt s deps f) (events : List (Bool × RoomEvent))
      (goes_on : Bool) (after : Connection m wt s deps f) : Type 0 where
    pub taken : List (Bool × RoomEvent)
    pub left : List (Bool × RoomEvent)
    pub frames : List Frame
    pub said : List Frame
    pub in_order : events ≡ taken ++ left
    pub each : Relayed conn.ctx taken frames
    pub last : LastWord said
    pub queue : contents after ≡ contents conn ++ (frames ++ said)
    pub complete : goes_on ≡ true → (left ≡ []) × (said ≡ [])

  module _ (b : Bounded m) where
    -- What a send through the connection's sender appends.
    try_send_frame-contents :
        (o : OutboundSender m wt) (frame : Frame)
        → m.queued (try_send_frame m wt o frame).1.tx
          ≡ m.queued o.tx ++ (if is_ok (try_send_frame m wt o frame).0 then frame ∷ [] else [])
    unfolding try_send_frame disconnect
    try_send_frame-contents o frame =
        ground (arith, try_send_cases m b o.tx frame, append-nil (m.queued o.tx))

    disconnect-contents :
        (o : OutboundSender m wt) → m.queued (disconnect m wt o).tx ≡ m.queued o.tx
    unfolding disconnect
    disconnect-contents o = refl

    abbrev Says : Conn → Conn → Type 0
    Says conn after = (said : List Frame) × LastWord said × (contents after ≡ contents conn ++ said)

    abbrev refusal : Result Frame ProtocolError
    refusal = game_encode s (error_notification err_not_authenticated (text "会话无效或已过期"))

    -- The notice is queued, or nothing is.
    queued-Says :
        (conn : Conn) (r : Result Frame ProtocolError)
        → refusal ≡ r
        → Says conn (queued m wt s deps f conn r).1
    queued-Says conn (err e) h = ([], inl refl, sym (append-nil _))
    queued-Says conn (ok frame) h =
        elim (Bool-cases (is_ok (try_send_frame m wt conn.outbound frame).0)) [
          | inl took ↦ (
            frame ∷ [],
            inr (frame, h, refl),
            try_send_frame-contents conn.outbound frame ∙ rw took refl,
          )
          | inr refused ↦
              ([], inl refl, try_send_frame-contents conn.outbound frame ∙ rw refused refl)
        ]

    says :
        (conn : Conn)
        → Says conn (notified m wt s deps f conn err_not_authenticated (text "会话无效或已过期"))
    unfolding try_send
    says conn = queued-Says conn refusal refl

    abbrev Goes : Conn → Bool → RoomEvent → Bool → Conn → Type 0
    Goes conn timely event goes_on after =
        (goes_on ≡ true)
        × ((validate_session deps timely conn.ctx).0 ≡ true)
        × ((frame : Frame) × (game_encode s (room_event_message f event) ≡ ok frame)
            × (contents after ≡ contents conn ++ frame ∷ [])
            × (after.ctx ≡ (validate_session deps timely conn.ctx).1))

    -- One event: it is passed on, or the task ends.
    abbrev Turn : Conn → Bool → RoomEvent → Bool × Conn → Type 0
    Turn conn timely event (goes_on, after) =
        Goes conn timely event goes_on after ⊎ ((goes_on ≡ false) × Says conn after)

    forward-Turn :
        (conn : Conn) (timely : Bool) (event : RoomEvent)
        → (validate_session deps timely conn.ctx).0 ≡ true
        → (r : Result Frame ProtocolError) → game_encode s (room_event_message f event) ≡ r
        → Turn conn timely event (
            forward m wt s deps f
              (record conn { ctx = (validate_session deps timely conn.ctx).1 })
              r)
    unfolding forward
    forward-Turn conn timely event valid (err e) h =
        inr (refl, ([], inl refl, disconnect-contents conn.outbound ∙ sym (append-nil _)))
    forward-Turn conn timely event valid (ok frame) h =
        elim (Bool-cases (is_ok (try_send_frame m wt conn.outbound frame).0)) [
          | inl took ↦ inl (
            took,
            valid,
            (frame, h, try_send_frame-contents conn.outbound frame ∙ rw took refl, refl),
          )
          | inr refused ↦ inr (
            refused,
            ([], inl refl, try_send_frame-contents conn.outbound frame ∙ rw refused refl),
          )
        ]

    if-Turn :
        (conn : Conn) (timely : Bool) (event : RoomEvent) (valid : Bool) (sent unsent : Bool × Conn)
        → (valid ≡ true → Turn conn timely event sent)
        → (valid ≡ false → Turn conn timely event unsent)
        → Turn conn timely event (if valid then sent else unsent)
    if-Turn conn timely event true sent unsent h k = h refl
    if-Turn conn timely event false sent unsent h k = k refl

    translate-Turn :
        (conn : Conn) (timely : Bool) (event : RoomEvent)
        → Turn conn timely event (translate m wt s deps f conn timely event)
    unfolding translate
    translate-Turn conn timely event =
        if-Turn conn timely event (validate_session deps timely conn.ctx).0 _ _
          (λ valid.
            forward-Turn conn timely event valid (game_encode s (room_event_message f event)) refl)
          (λ invalid.
            inr (refl, says (record conn { ctx = (validate_session deps timely conn.ctx).1 })))

    if-Delivery :
        (conn : Conn) (timely : Bool) (event : RoomEvent) (events : List Event) (now : Bool × Conn)
        (later : Bool × Conn)
        → Turn conn timely event now
        → Delivery now.1 events later.0 later.1
        → let out = if now.0 then later else (false, now.1) in
          Delivery conn ((timely, event) ∷ events) out.0 out.1
    if-Delivery conn timely event events (true, after) later (inl (goes, valid, (frame, h, q, c)))
          d =
        record {
          taken = (timely, event) ∷ d.taken;
          left = d.left;
          frames = frame ∷ d.frames;
          said = d.said;
          in_order = ap (λ l. (timely, event) ∷ l) d.in_order;
          each = relayed valid h (subst (λ x. Relayed x d.taken d.frames) c d.each);
          last = d.last;
          queue =
              d.queue
              ∙ (ap (λ l. l ++ (d.frames ++ d.said)) q
                  ∙ append_assoc (contents conn) (frame ∷ []) (d.frames ++ d.said));
          complete = d.complete;
        }
    if-Delivery conn timely event events (false, after) later (inl (goes, valid, rest)) d =
        absurd (ground (arith, goes))
    if-Delivery conn timely event events (true, after) later (inr (ends, rest)) d =
        absurd (ground (arith, ends))
    if-Delivery conn timely event events (false, after) later (inr (ends, (said, word, q))) d =
        record {
          taken = [];
          left = (timely, event) ∷ events;
          frames = [];
          said = said;
          in_order = refl;
          each = nothing;
          last = word;
          queue = q;
          complete = λ h. absurd (ground (arith, h));
        }

    -- Whatever events arrive, the connection's queue gets the frames of the first of them, in their
    -- order and none twice, each sent while the session was found valid, then at most the notice
    -- that it is not; and as long as the task goes on, the frames of all of them and nothing else.
    pub translate_all-Delivery :
        (conn : Connection m wt s deps f) (events : List (Bool × RoomEvent))
        → Delivery conn events
            (translate_all m wt s deps f conn events).0
            (translate_all m wt s deps f conn events).1
    unfolding translate_all
    translate_all-Delivery conn [] = record {
      taken = [];
      left = [];
      frames = [];
      said = [];
      in_order = refl;
      each = nothing;
      last = inl refl;
      queue = sym (append-nil _);
      complete = λ h. (refl, refl);
    }
    translate_all-Delivery conn ((timely, event) ∷ events) =
        let now = translate m wt s deps f conn timely event in
        if-Delivery conn timely event events now (translate_all m wt s deps f now.1 events)
          (translate-Turn conn timely event) (translate_all-Delivery now.1 events)
