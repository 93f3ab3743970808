-- ===== src/Gateway/ReadLoop/Deadline.antt =====
-- crates/gateway/src/tcp/handler.rs, `run_read_loop`: how long a connection may stay, and who holds a permit.
use longship_x.Prelude.{
  ℕ, ◌+◌, ◌≡◌, refl, sym, subst, Bool, true, false, not, ◌&&◌, Option, none, some, Result, ok, err,
  List, [], ◌∷◌, leb, if◌then◌else◌, is_some, arith,
}
use longship_x.Prelude.Text.{Text}
use longship_x.Channel.{Mpsc, Watch}
use longship_x.Domain.Session.{touch_heartbeat}
use longship_x.Net.Codec.{Frame}
use longship_x.Net.Backpressure.{is_closed}
use longship_x.Net.Error.{NetError}
use longship_x.Protocol.Generated.{Schema}
use longship_x.Gateway.AuthGate.{IpAddr}
use longship_x.Gateway.Context.{AuthedPlayer, GatewayDeps, Formats, is_authenticated}
use longship_x.Gateway.Admission.{Connection, admit_frame}
use longship_x.Gateway.Admission.Gate.{admit_frame-BoundTo}
use longship_x.Gateway.ReadLoop.{Reading, Poll, arm, on_frame, on_read, turn, run}

no : {A : Type 0} → false ≡ true → A
no h = absurd (ground (arith, h))

module _ (m : Mpsc Frame) (wt : Watch) (s : Schema) {W : Type 0} (deps : GatewayDeps W)
    (f : Formats) (show_net : NetError → Text) (heartbeat_timeout : ℕ) where
  abbrev Loop : Type 0
  Loop = Reading m wt s deps f show_net heartbeat_timeout

  abbrev Ready : Type 0
  Ready = Poll m wt s deps f show_net heartbeat_timeout

  abbrev one : Loop → Ready → Bool × Loop
  one = turn m wt s deps f show_net heartbeat_timeout

  on_frame-late :
      (r : Loop) (p : Ready) (frame : Frame)
      → leb r.armed p.now ≡ true
      → (on_frame m wt s deps f show_net heartbeat_timeout r p frame).0 ≡ false
  unfolding on_frame
  on_frame-late r p frame late = rw late refl

  on_read-late :
      (r : Loop) (p : Ready) (a : Option (Result (Option Frame) NetError))
      → leb r.armed p.now ≡ true
      → (on_read m wt s deps f show_net heartbeat_timeout r p a).0 ≡ false
  on_read-late r p (some (ok (some frame))) late = on_frame-late r p frame late
  on_read-late r p (some (ok none)) late = refl
  on_read-late r p (some (err e)) late = refl
  on_read-late r p none late = rw late refl

  if_stops :
      (b : Bool) (x y : Bool × Loop) → x.0 ≡ false → y.0 ≡ false → (if b then x else y).0 ≡ false
  if_stops true x y hx hy = hx
  if_stops false x y hx hy = hy

  turn-late : (r : Loop) (p : Ready) → leb r.armed p.now ≡ true → (one r p).0 ≡ false
  unfolding turn
  turn-late r p late = if_stops (is_closed m wt r.conn.outbound) _ _ refl (
      if_stops p.room_failed _ _ refl
        (if_stops p.stopping _ _ refl (on_read-late r p p.arrived late)))

  -- Who holds the permit, and which deadline runs: the permit and the deadline of its admission are the
  -- connection's as long as it is not bound, and a bound connection has given the permit back.
  abbrev pub Admitted : IpAddr → ℕ → Option AuthedPlayer → Option IpAddr → ℕ → ℕ → Type 0
  Admitted ip deadline none permit admission armed =
      (permit ≡ some ip) × (admission ≡ deadline) × (armed ≡ deadline)
  Admitted ip deadline (some p) permit admission armed = (permit ≡ none) × (admission ≡ deadline)

  abbrev pub Held : IpAddr → ℕ → Reading m wt s deps f show_net heartbeat_timeout → Type 0
  Held ip deadline r =
      Admitted ip deadline r.conn.ctx.auth.player r.permit r.admission_deadline r.armed

  -- After a frame that lets the connection go on, by who was bound before it and who is after it.
  readmitted :
      (ip : IpAddr) (deadline admission now : ℕ) (before after : Option AuthedPlayer)
      (permit : Option IpAddr) (armed : ℕ)
      → ((p : AuthedPlayer) → before ≡ some p → after ≡ some p)
      → Admitted ip deadline before permit admission armed
      → Admitted ip deadline after
          (if is_some after then none else permit)
          admission
          (if is_some after then now + heartbeat_timeout else admission)
  readmitted ip deadline admission now none none permit armed kept v = (v.0, v.1, v.1)
  readmitted ip deadline admission now none (some q) permit armed kept v = (refl, v.1)
  readmitted ip deadline admission now (some p) (some q) permit armed kept v = (refl, v.1)
  readmitted ip deadline admission now (some p) none permit armed kept v =
      absurd (ground (arith, kept p refl))

  -- What is kept if the loop goes on.
  abbrev Keeps : IpAddr → ℕ → Bool × Reading m wt s deps f show_net heartbeat_timeout → Type 0
  Keeps ip deadline x = x.0 ≡ true → Held ip deadline x.1

  if-Keeps :
      (ip : IpAddr) (deadline : ℕ) (b : Bool) (x y : Bool × Loop)
      → Keeps ip deadline x
      → Keeps ip deadline y
      → Keeps ip deadline (if b then x else y)
  if-Keeps ip deadline true x y kx ky = kx
  if-Keeps ip deadline false x y kx ky = ky

  dispatched-Keeps :
      (ip : IpAddr) (deadline : ℕ) (r : Loop) (now : ℕ) (goes_on : Bool)
      (conn : Connection m wt s deps f)
      → Held ip deadline r
      → ((p : AuthedPlayer) → r.conn.ctx.auth.player ≡ some p → conn.ctx.auth.player ≡ some p)
      → Keeps ip deadline (
        goes_on,
        record r {
          conn = conn;
          permit = if goes_on && is_authenticated conn.ctx then none else r.permit;
          armed = arm m wt s deps f show_net heartbeat_timeout conn r.admission_deadline now;
        },
      )
  dispatched-Keeps ip deadline r now false conn v kept h = absurd (ground (arith, h))
  dispatched-Keeps ip deadline r now true conn v kept h =
      readmitted ip deadline r.admission_deadline now r.conn.ctx.auth.player conn.ctx.auth.player
        r.permit r.armed kept v

  on_frame-Keeps :
      (ip : IpAddr) (deadline : ℕ) (r : Loop) (p : Ready) (frame : Frame)
      → Held ip deadline r
      → Keeps ip deadline (on_frame m wt s deps f show_net heartbeat_timeout r p frame)
  unfolding on_frame
  on_frame-Keeps ip deadline r p frame v =
      let x = admit_frame m wt s deps f r.conn p.moment frame in
      if-Keeps ip deadline (leb r.armed p.now) _ _ (λ h. no h)
        (if-Keeps ip deadline (not (is_authenticated r.conn.ctx) && not p.in_time) _ _ (λ h. no h)
          (dispatched-Keeps ip deadline
            (record r { session = touch_heartbeat r.session p.wall_clock }) p.after x.0 x.1 v
            (λ q bound. admit_frame-BoundTo m wt s deps f r.conn p.moment frame q bound)))

  on_read-Keeps :
      (ip : IpAddr) (deadline : ℕ) (r : Loop) (p : Ready)
      (a : Option (Result (Option Frame) NetError))
      → Held ip deadline r
      → Keeps ip deadline (on_read m wt s deps f show_net heartbeat_timeout r p a)
  on_read-Keeps ip deadline r p (some (ok (some frame))) v = on_frame-Keeps ip deadline r p frame v
  on_read-Keeps ip deadline r p (some (ok none)) v = λ h. no h
  on_read-Keeps ip deadline r p (some (err e)) v = λ h. no h
  on_read-Keeps ip deadline r p none v =
      if-Keeps ip deadline (leb r.armed p.now) _ _ (λ h. no h) (λ h. v)

  turn-Keeps :
      (ip : IpAddr) (deadline : ℕ) (r : Loop) (p : Ready)
      → Held ip deadline r
      → Keeps ip deadline (one r p)
  unfolding turn
  turn-Keeps ip deadline r p v =
      if-Keeps ip deadline (is_closed m wt r.conn.outbound) _ _ (λ h. no h)
        (if-Keeps ip deadline p.room_failed _ _ (λ h. no h)
          (if-Keeps ip deadline p.stopping _ _ (λ h. no h)
            (on_read-Keeps ip deadline r p p.arrived v)))

  -- As long as the loop runs, a connection that is not bound holds the permit of its address and runs
  -- under the deadline of its admission, however often it has been polled and whatever the peer sent;
  -- a connection that is bound has given the permit back.
  pub run-Held :
      (ip : IpAddr) (deadline : ℕ) (r : Reading m wt s deps f show_net heartbeat_timeout)
      (ps : List (Poll m wt s deps f show_net heartbeat_timeout))
      → Held ip deadline r
      → (run m wt s deps f show_net heartbeat_timeout r ps).0 ≡ true
      → Held ip deadline (run m wt s deps f show_net heartbeat_timeout r ps).1
  unfolding run
  run-Held ip deadline r [] v h = v
  run-Held ip deadline r (p ∷ ps) v h =
      by_turn (one r p).0 (one r p).1 h (turn-Keeps ip deadline r p v)
        (λ r' v' h'. run-Held ip deadline r' ps v' h')
    where
      by_turn :
          (b : Bool) (r' : Loop)
          → (if b then run m wt s deps f show_net heartbeat_timeout r' ps else (false, r')).0 ≡ true
          → Keeps ip deadline (b, r')
          → ((r' : Loop)
              → Held ip deadline r'
              → (run m wt s deps f show_net heartbeat_timeout r' ps).0 ≡ true
              → Held ip deadline (run m wt s deps f show_net heartbeat_timeout r' ps).1)
          → Held ip deadline
              (if b then run m wt s deps f show_net heartbeat_timeout r' ps else (false, r')).1
      by_turn true r' h k later = later r' (k refl) h
      by_turn false r' h k later = absurd (ground (arith, h))

  unbound_armed :
      (ip : IpAddr) (deadline : ℕ) (player : Option AuthedPlayer) (permit : Option IpAddr)
      (admission armed : ℕ)
      → Admitted ip deadline player permit admission armed
      → is_some player ≡ false
      → armed ≡ deadline
  unbound_armed ip deadline none permit admission armed v h = v.2
  unbound_armed ip deadline (some p) permit admission armed v h = absurd (ground (arith, h))

  -- A connection that never binds does not outlive its admission: whatever it has sent before, its first
  -- poll at or after the deadline ends it.
  pub run-turn :
      (ip : IpAddr) (deadline : ℕ) (r : Reading m wt s deps f show_net heartbeat_timeout)
      (ps : List (Poll m wt s deps f show_net heartbeat_timeout))
      (p : Poll m wt s deps f show_net heartbeat_timeout)
      → Held ip deadline r
      → (run m wt s deps f show_net heartbeat_timeout r ps).0 ≡ true
      → is_authenticated (run m wt s deps f show_net heartbeat_timeout r ps).1.conn.ctx ≡ false
      → leb deadline p.now ≡ true
      → (turn m wt s deps f show_net heartbeat_timeout
          (run m wt s deps f show_net heartbeat_timeout r ps).1
          p).0
        ≡ false
  run-turn ip deadline r ps p v h unbound late =
      let r' = (run m wt s deps f show_net heartbeat_timeout r ps).1 in
      let kept = run-Held ip deadline r ps v h in
      let same =
        unbound_armed ip deadline r'.conn.ctx.auth.player r'.permit r'.admission_deadline r'.armed
          kept unbound in
      turn-late r' p (subst (λ d. leb d p.now ≡ true) (sym same) late)
