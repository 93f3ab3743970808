-- ===== src/Protocol/Router/Table.antt =====
-- crates/protocol/src/router.rs: a dispatched message reaches the handler registered last for its opcode.
use longship_x.Prelude.{
  ℕ, suc, true, List, [], ◌∷◌, length, if◌then◌else◌, nat_eq, ◌==◌, is_some, ◌≡◌, refl, arith, err,
}
use longship_x.Prelude.Map.{Map, lookup, insert, lookup-insert}
use longship_x.Protocol.Error.{unsupported_opcode}
use longship_x.Protocol.Messages.{InboundMessage, opcode}
use longship_x.Protocol.Router.{Router, Handler, new, route, has_route, route_count, dispatch}

module _ {C : Type 0} where
  -- A router made by registering handlers in turn.
  unfoldable pub build : List (ℕ × Handler C) → Router C
  build [] = new
  build ((code, handler) ∷ rest) = route (build rest) code handler

  -- The first entry of a list for a message: the handler that was registered last.
  unfoldable pub chosen : List (ℕ × Handler C) → Handler C
  chosen [] ctx m = (err (unsupported_opcode (opcode m)), ctx)
  chosen ((code, handler) ∷ rest) ctx m =
      if code == opcode m then handler ctx m else chosen rest ctx m

  -- A message goes to the handler that was registered last for its opcode; a message without a handler
  -- is answered that its opcode is not supported, and changes nothing.
  pub dispatch-build :
      (table : List (ℕ × Handler C)) (ctx : C) (m : InboundMessage)
      → dispatch (build table) ctx m ≡ chosen table ctx m
  unfolding dispatch build chosen route new
  dispatch-build [] ctx m = refl
  dispatch-build ((code, handler) ∷ rest) ctx m =
      ground (
        arith,
        lookup-insert code (opcode m) handler (build rest).routes,
        dispatch-build rest ctx m,
      )

  length-insert :
      (code : ℕ) (handler : Handler C) (routes : Map ℕ (Handler C))
      → length (insert code handler routes)
        ≡ (if is_some (lookup code routes) then length routes else suc (length routes))
  length-insert code handler [] = refl
  length-insert code handler ((k, h) ∷ routes) = ground (arith, length-insert code handler routes)

  -- Registering a handler adds one route, or replaces the opcode's route where it has one, and gives no
  -- other opcode a route.
  pub route_count-route :
      (r : Router C) (code other : ℕ) (handler : Handler C)
      → (route_count (route r code handler)
          ≡ (if has_route r code then route_count r else suc (route_count r)))
        × (has_route (route r code handler) other
            ≡ (if code == other then true else has_route r other))
  unfolding route_count has_route route
  route_count-route r code other handler = (
    length-insert code handler r.routes,
    ground (arith, lookup-insert code other handler r.routes),
  )
