-- ===== src/Gateway/Connections.antt =====
-- crates/gateway/src/tcp/connections.rs: the registry of connections that are up. A connection that is
-- draining stays in the registry without its sender. Clones of a sender share one queue, so the registry
-- names it, and the queues stand in a table. The lock makes each method one step.
pub mod Broadcast
mod Tests
use longship_x.Prelude.{
  ℕ, suc, ◌+◌, Bool, true, false, Option, none, some, Result, ok, err, is_ok, List, [], ◌∷◌, length,
  if◌then◌else◌, nat_eq,
}
use longship_x.Prelude.Map.{Map, lookup, insert, remove, values}
use longship_x.Channel.{Mpsc, Watch}
use longship_x.Domain.Error.{Uuid}
use longship_x.Net.Codec.{Frame}
use longship_x.Net.Backpressure.{OutboundSender, try_send_frame}
use longship_x.Protocol.Generated.{Schema}
use longship_x.Protocol.Messages.{OutboundMessage, game_encode}

abbrev pub SenderId : Type 0
SenderId = ℕ

pub record ConnectionRegistry : Type 0 where
  pub conns : Map Uuid (Option SenderId)

unfoldable pub new : ConnectionRegistry
new = record { conns = [] }

unfoldable pub register : ConnectionRegistry → Uuid → SenderId → ConnectionRegistry
register r id sender = record { conns = insert id (some sender) r.conns }

-- `Option::flatten`.
abbrev pub flatten : Option (Option SenderId) → Option SenderId
flatten none = none
flatten (some o) = o

unfoldable pub remove_conn : ConnectionRegistry → Uuid → Option SenderId × ConnectionRegistry
remove_conn r id = (flatten (lookup id r.conns), record { conns = remove id r.conns })

unfoldable pub begin_drain : ConnectionRegistry → Uuid → ConnectionRegistry
begin_drain r id = elim (lookup id r.conns) [
  | none ↦ r
  | some sender ↦ record { conns = insert id none r.conns }
]

unfoldable pub active_count : ConnectionRegistry → ℕ
active_count r = length r.conns

-- The senders that are still there, in the order of the table.
abbrev pub present : List (Option SenderId) → List SenderId
present [] = []
present (none ∷ os) = present os
present (some k ∷ os) = k ∷ present os

module _ (m : Mpsc Frame) (wt : Watch) where
  abbrev pub Senders : Type 0
  Senders = Map SenderId (OutboundSender m wt)

  -- One sender's turn; a sender that has no queue does not occur.
  unfoldable pub offer : Frame → SenderId → Senders → Bool × Senders
  unfolding try_send_frame
  offer frame k senders = elim (lookup k senders) [
    | none ↦ (false, senders)
    | some s ↦
        let (outcome, s') = try_send_frame m wt s frame in (is_ok outcome, insert k s' senders)
  ]

  -- `filter(…).count()`, which offers the frame to every sender.
  unfoldable pub offer_all : Frame → List SenderId → Senders → ℕ × Senders
  unfolding offer
  offer_all frame [] senders = (0, senders)
  offer_all frame (k ∷ ks) senders =
      let (taken, senders') = offer frame k senders in
      let (count, senders'') = offer_all frame ks senders' in
      (if taken then suc count else count, senders'')

  unfoldable pub broadcast : Schema → ConnectionRegistry → OutboundMessage → Senders → ℕ × Senders
  unfolding offer_all
  broadcast s r message senders = elim (game_encode s message) [
    | err e ↦ (0, senders)
    | ok frame ↦ offer_all frame (present (values r.conns)) senders
  ]
