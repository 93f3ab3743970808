-- ===== src/Gateway/Lifecycle.antt =====
-- crates/gateway/src/tcp/lifecycle.rs, with `handle_admitted_connection` of handler.rs: how a connection
-- ends, by itself or because its task is aborted at one of its waits, and what the guard's `Drop` does
-- then. What a `leave_all` has done that is interrupted, by an abort or by its deadline, is an
-- argument, and the task that `Drop` spawns is taken to run at once.
pub mod Released
mod Tests
use longship_x.Prelude.{ℕ, Bool, true, false, not, ◌&&◌, Option, none, some, is_some, if◌then◌else◌}
use longship_x.Prelude.Text.{Text, text}
use longship_x.Domain.Error.{Uuid}
use longship_x.Gateway.AuthGate.{AuthGate, IpAddr, drop_permit}
use longship_x.Gateway.Connections.{ConnectionRegistry, begin_drain, remove_conn}
use longship_x.Gateway.Context.{AuthedPlayer, GatewayDeps}

-- Where the task of a connection stops: in the read loop, in the clean-up, while it waits for the
-- translator or for the writer, or at its end.
pub data Stop : Type 0 where
  in_loop in_cleanup at_translator at_writer completed : Stop

module _ {W : Type 0} (deps : GatewayDeps W) (conn_id : Uuid) where
  pub record Ending : Type 0 where
    pub player : Option AuthedPlayer
    pub world : W
    pub registry : ConnectionRegistry
    pub gate : AuthGate
    pub permit : Option IpAddr
    pub cleaned : Bool

  -- `leave_all` under its deadline: `none` when it ends in time, or what it has done when it is cut off. A
  -- failure and a cut are only logged.
  unfoldable pub cleanup_room : Option (W → W) → Option AuthedPlayer → W → W
  cleanup_room cut none w = w
  cleanup_room none (some player) w =
      (deps.rooms.leave_all player.player_id (text "connection closed") w).1
  cleanup_room (some partly) (some player) w = partly w

  unfoldable pub cleanup : Option (W → W) → Ending → Ending
  unfolding cleanup_room
  cleanup cut e = record e { world = cleanup_room cut e.player e.world; cleaned = true }

  unfoldable pub drain : Ending → Ending
  unfolding begin_drain
  drain e = record e { registry = begin_drain e.registry conn_id }

  -- `drop(admission)`, which drops the permit that it may hold.
  unfoldable pub drop_admission : Ending → Ending
  unfolding drop_permit
  drop_admission e =
      let gate : AuthGate = elim e.permit [ none ↦ e.gate | some ip ↦ drop_permit e.gate ip ] in
      record e { gate = gate; permit = none }

  -- `Drop for ConnectionGuard`.
  unfoldable pub drop_guard : Option (W → W) → Ending → Ending
  unfolding cleanup_room remove_conn
  drop_guard cut e =
      let world =
        if not e.cleaned && is_some e.player then cleanup_room cut e.player e.world else e.world in
      record e { world = world; registry = (remove_conn e.registry conn_id).1 }

  -- The locals that are still there are dropped, the guard before the admission, which is an argument.
  unfoldable pub end_connection : (W → W) → Option (W → W) → Ending → Stop → Ending
  unfolding cleanup drain drop_admission drop_guard
  end_connection interrupted cut e in_loop = drop_admission (drop_guard cut e)
  end_connection interrupted cut e in_cleanup = drop_admission (
      drop_guard cut
        (record e { world = if is_some e.player then interrupted e.world else e.world }))
  end_connection interrupted cut e at_translator =
      drop_admission (drop_guard cut (drain (cleanup cut e)))
  end_connection interrupted cut e at_writer =
      drop_guard cut (drop_admission (drain (cleanup cut e)))
  end_connection interrupted cut e completed =
      drop_guard cut (drop_admission (drain (cleanup cut e)))
