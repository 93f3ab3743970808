-- ===== src/Gateway/Lifecycle/Tests.antt =====
-- crates/gateway/src/tcp/lifecycle.rs: a bound connection that is aborted while it cleans up.
use longship_x.Prelude.{refl, false, none, some, [], ◌∷◌, nat_eq}
use longship_x.Prelude.Text.{text}
use longship_x.Gateway.Admission.Tests.{deps}
use longship_x.Gateway.Lifecycle.{Ending, in_cleanup, end_connection}
use longship_x.Gateway.Lifecycle.Released.{Released, end_connection-Released}

abbrev up : Ending deps 4
up = record {
  player = some (record { player_id = 7; nickname = text "A" });
  world = 0;
  registry = record { conns = (4, some 4) ∷ (5, some 5) ∷ [] };
  gate = record { max_per_ip = 2; counts = (9, 1) ∷ [] };
  permit = some 9;
  cleaned = false;
}

end_connection-Released_example :
    Released deps 4 (λ w. w) none up in_cleanup (end_connection deps 4 (λ w. w) none up in_cleanup)
end_connection-Released_example = end_connection-Released deps 4 (λ w. w) none up in_cleanup refl
