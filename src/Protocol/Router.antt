-- ===== src/Protocol/Router.antt =====
-- crates/protocol/src/router.rs: the table of handlers. The context is what a handler changes: it
-- takes one and returns the next beside its answer.
pub mod Table
mod Tests
use longship_x.Prelude.{ℕ, Bool, Option, none, some, Result, err, [], length, is_some, nat_eq}
use longship_x.Prelude.Map.{Map, lookup, insert}
use longship_x.Protocol.Error.{ProtocolError, unsupported_opcode}
use longship_x.Protocol.Messages.{InboundMessage, OutboundMessage, opcode}

abbrev pub Answer : Type 0
Answer = Result (Option OutboundMessage) ProtocolError

abbrev pub Handler : Type 0 → Type 0
Handler C = C → InboundMessage → Answer × C

pub record Router (C : Type 0) : Type 0 where
  pub routes : Map ℕ (Handler C)

unfoldable pub new : {C : Type 0} → Router C
new = record { routes = [] }

unfoldable pub route : {C : Type 0} → Router C → ℕ → Handler C → Router C
route r code handler = record { routes = insert code handler r.routes }

unfoldable pub has_route : {C : Type 0} → Router C → ℕ → Bool
has_route r code = is_some (lookup code r.routes)

unfoldable pub route_count : {C : Type 0} → Router C → ℕ
route_count r = length r.routes

unfoldable pub dispatch : {C : Type 0} → Router C → Handler C
unfolding opcode
dispatch r ctx message = elim (lookup (opcode message) r.routes) [
  | none ↦ (err (unsupported_opcode (opcode message)), ctx)
  | some handler ↦ handler ctx message
]
