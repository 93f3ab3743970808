-- ===== src/Protocol/Router/Tests.antt =====
-- crates/protocol/src/router.rs: a table with one opcode registered twice, and the theorems on it.
use longship_x.Prelude.{ℕ, ◌+◌, none, ok, List, [], ◌∷◌, nat_eq, ◌≡◌, refl}
use longship_x.Protocol.Router.{Handler, new, route, route_count}
use longship_x.Protocol.Router.Table.{build}

abbrev counts_by : ℕ → Handler ℕ
counts_by n calls message = (ok none, calls + n)

abbrev table : List (ℕ × Handler ℕ)
table = (2, counts_by 1) ∷ (2, counts_by 5) ∷ (3, counts_by 7) ∷ []

two_routes : route_count (build table) ≡ 2
unfolding route_count build route new
two_routes = refl
