-- ===== src/Gateway/AuthGate/Tests.antt =====
-- crates/gateway/src/tcp/auth_gate.rs: a gate with one place per address, and the theorems on it.
use longship_x.Prelude.{none, some, List, [], ◌∷◌, ltb, if◌then◌else◌, ◌≡◌, refl, arith}
use longship_x.Gateway.AuthGate.{new, acquire, release, permit, drop_permit}
use longship_x.Gateway.AuthGate.Permits.{
  Op, connect, leave, Counts, times, drop_one, step, run, start, run-start-Counts, permit-run,
}

abbrev traffic : List Op
traffic = connect 7 ∷ connect 7 ∷ connect 9 ∷ leave 7 ∷ connect 7 ∷ []

places : (run (start 1) traffic).held ≡ 7 ∷ 9 ∷ []
unfolding start new run step permit acquire drop_permit release drop_one
places = refl

-- With a bound of zero, a refused address leaves its entry behind.
refused_entry : (acquire (new 0) 7).1.counts ≡ (7, 0) ∷ []
unfolding acquire new
refused_entry = refl

run-start-Counts_example : Counts (run (start 1) traffic) 7
run-start-Counts_example = run-start-Counts 1 traffic 7 (omega arith)

permit-run_example :
    (permit (run (start 1) traffic).gate 9).0
    ≡ (if ltb (times 9 (run (start 1) traffic).held) 1 then some 9 else none)
permit-run_example = permit-run 1 traffic 9 (omega arith)
