-- ===== src/Gateway/Lifecycle/Released.antt =====
-- crates/gateway/src/tcp/lifecycle.rs: whatever ends a connection, it leaves its rooms and gives back
-- what it held.
use longship_x.Prelude.{
  ◌≡◌, refl, ◌∙◌, Bool, false, Option, none, some, not, ◌&&◌, if◌then◌else◌, is_some, nat_eq, ◌==◌,
  Option-cases, inl, inr, arith,
}
use longship_x.Prelude.Map.{lookup, lookup-insert, lookup-remove}
use longship_x.Prelude.Text.{text}
use longship_x.Domain.Error.{Uuid}
use longship_x.Gateway.AuthGate.{AuthGate, IpAddr, drop_permit}
use longship_x.Gateway.Connections.{ConnectionRegistry, begin_drain, remove_conn}
use longship_x.Gateway.Context.{AuthedPlayer, GatewayDeps}
use longship_x.Gateway.Lifecycle.{
  Stop, in_loop, in_cleanup, at_translator, at_writer, completed, Ending, cleanup_room, cleanup,
  drain, drop_admission, drop_guard, end_connection,
}

-- The gate once the permit is dropped, if one is held.
abbrev pub given_back : AuthGate → Option IpAddr → AuthGate
given_back gate permit = elim permit [ none ↦ gate | some ip ↦ drop_permit gate ip ]

module _ {W : Type 0} (deps : GatewayDeps W) (conn_id : Uuid) where
  -- What an interrupted clean-up has done before `leave_all` is called again.
  abbrev pub before : (W → W) → Option AuthedPlayer → W → Stop → W
  before interrupted none w stop = w
  before interrupted (some player) w in_loop = w
  before interrupted (some player) w in_cleanup = interrupted w
  before interrupted (some player) w at_translator = w
  before interrupted (some player) w at_writer = w
  before interrupted (some player) w completed = w

  -- One call of `leave_all` for a bound player, that ran to its end or to its deadline.
  abbrev pub left_rooms : Option (W → W) → Option AuthedPlayer → W → W
  left_rooms cut none w = w
  left_rooms none (some player) w =
      (deps.rooms.leave_all player.player_id (text "connection closed") w).1
  left_rooms (some partly) (some player) w = partly w

  pub record Released (interrupted : W → W) (cut : Option (W → W)) (e : Ending deps conn_id)
      (stop : Stop) (e' : Ending deps conn_id) : Type 0 where
    pub unlisted : lookup conn_id e'.registry.conns ≡ none
    pub others :
        (id : Uuid)
        → (conn_id == id) ≡ false
        → lookup id e'.registry.conns ≡ lookup id e.registry.conns
    pub gate_freed : e'.gate ≡ given_back e.gate e.permit
    pub permit_gone : e'.permit ≡ none
    pub rooms_left : e'.world ≡ left_rooms cut e.player (before interrupted e.player e.world stop)

  removed-others :
      (r : ConnectionRegistry) (id : Uuid)
      → (conn_id == id) ≡ false
      → lookup id (remove_conn r conn_id).1.conns ≡ lookup id r.conns
  unfolding remove_conn
  removed-others r id h = lookup-remove conn_id id r.conns ∙ rw h refl

  removed : (r : ConnectionRegistry) → lookup conn_id (remove_conn r conn_id).1.conns ≡ none
  unfolding remove_conn
  removed r = ground (arith, lookup-remove conn_id conn_id r.conns)

  drained-others :
      (r : ConnectionRegistry) (id : Uuid)
      → (conn_id == id) ≡ false
      → lookup id (begin_drain r conn_id).conns ≡ lookup id r.conns
  unfolding begin_drain
  drained-others r id h = elim (Option-cases (lookup conn_id r.conns)) [
    | inl missing ↦ rw (missing, begin_drain) refl
    | inr (o, there) ↦
        rw (there, begin_drain) (ground (arith, lookup-insert conn_id id none r.conns, h))
  ]

  cleanup_room_lem :
      (cut : Option (W → W)) (player : Option AuthedPlayer) (w : W)
      → cleanup_room deps conn_id cut player w ≡ left_rooms cut player w
  unfolding cleanup_room
  cleanup_room_lem cut none w = refl
  cleanup_room_lem none (some p) w = refl
  cleanup_room_lem (some partly) (some p) w = refl

  -- The guard leaves the rooms of a player whose clean-up has not run.
  guarded :
      (cut : Option (W → W)) (player : Option AuthedPlayer) (w : W) (cleaned : Bool)
      → cleaned ≡ false
      → (if not cleaned && is_some player then cleanup_room deps conn_id cut player w else w)
        ≡ left_rooms cut player w
  guarded cut none w cleaned h = rw h refl
  guarded cut (some p) w cleaned h = rw h (cleanup_room_lem cut (some p) w)

  guarded_again :
      (interrupted : W → W) (cut : Option (W → W)) (player : Option AuthedPlayer) (w : W)
      (cleaned : Bool)
      → cleaned ≡ false
      → (let w' = if is_some player then interrupted w else w in
          if not cleaned && is_some player then cleanup_room deps conn_id cut player w' else w')
        ≡ left_rooms cut player (before interrupted player w in_cleanup)
  guarded_again interrupted cut none w cleaned h = rw h refl
  guarded_again interrupted cut (some p) w cleaned h =
      rw h (cleanup_room_lem cut (some p) (interrupted w))

  -- Nothing comes before the call where the task stopped anywhere but in the clean-up.
  alone :
      (interrupted : W → W) (cut : Option (W → W)) (player : Option AuthedPlayer) (w : W)
      → (left_rooms cut player w ≡ left_rooms cut player (before interrupted player w in_loop))
        × (left_rooms cut player w
            ≡ left_rooms cut player (before interrupted player w at_translator))
        × (left_rooms cut player w ≡ left_rooms cut player (before interrupted player w at_writer))
        × (left_rooms cut player w ≡ left_rooms cut player (before interrupted player w completed))
  alone interrupted cut none w = (refl, refl, refl, refl)
  alone interrupted cut (some p) w = (refl, refl, refl, refl)

  -- However a connection ends, by itself or because its task is aborted at any of its waits: it is no
  -- longer in the registry and the others are as before; the permit that it held, if any, has been
  -- given back once; and if it was bound, `leave_all` has been called for its player and run to its end
  -- or to its deadline, once, and in a clean-up that was aborted once more; what it answers makes no
  -- difference. The services see nothing of a connection that was not bound.
  pub end_connection-Released :
      (interrupted : W → W) (cut : Option (W → W)) (e : Ending deps conn_id) (stop : Stop)
      → e.cleaned ≡ false
      → Released interrupted cut e stop (end_connection deps conn_id interrupted cut e stop)
  unfolding end_connection cleanup drain drop_admission drop_guard
  end_connection-Released interrupted cut e in_loop h = record {
    unlisted = removed e.registry;
    others = removed-others e.registry;
    gate_freed = refl;
    permit_gone = refl;
    rooms_left =
        guarded cut e.player e.world e.cleaned h ∙ (alone interrupted cut e.player e.world).0;
  }
  end_connection-Released interrupted cut e in_cleanup h = record {
    unlisted = removed e.registry;
    others = removed-others e.registry;
    gate_freed = refl;
    permit_gone = refl;
    rooms_left = guarded_again interrupted cut e.player e.world e.cleaned h;
  }
  end_connection-Released interrupted cut e at_translator h = record {
    unlisted = removed (begin_drain e.registry conn_id);
    others = λ id d.
        removed-others (begin_drain e.registry conn_id) id d ∙ drained-others e.registry id d;
    gate_freed = refl;
    permit_gone = refl;
    rooms_left = cleanup_room_lem cut e.player e.world ∙ (alone interrupted cut e.player e.world).1;
  }
  end_connection-Released interrupted cut e at_writer h = record {
    unlisted = removed (begin_drain e.registry conn_id);
    others = λ id d.
        removed-others (begin_drain e.registry conn_id) id d ∙ drained-others e.registry id d;
    gate_freed = refl;
    permit_gone = refl;
    rooms_left = cleanup_room_lem cut e.player e.world ∙ (alone interrupted cut e.player e.world).2;
  }
  end_connection-Released interrupted cut e completed h = record {
    unlisted = removed (begin_drain e.registry conn_id);
    others = λ id d.
        removed-others (begin_drain e.registry conn_id) id d ∙ drained-others e.registry id d;
    gate_freed = refl;
    permit_gone = refl;
    rooms_left = cleanup_room_lem cut e.player e.world ∙ (alone interrupted cut e.player e.world).3;
  }
