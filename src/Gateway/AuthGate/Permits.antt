-- ===== src/Gateway/AuthGate/Permits.antt =====
-- crates/gateway/src/tcp/auth_gate.rs: the counters are the permits that are held, whatever the order
-- in which connections come, authenticate and go.
use longship_x.Prelude.{
  ℕ, suc, ◌+◌, ◌-◌, ◌≤◌, true, none, some, List, [], ◌∷◌, ltb, contains, if◌then◌else◌, nat_eq,
  nat_beq_iff, ◌==◌, ◌≡◌, refl, arith, Bool-cases, inl, inr,
}
use longship_x.Prelude.Map.{lookup, insert, lookup-insert, lookup-remove}
use longship_x.Gateway.AuthGate.{IpAddr, AuthGate, new, acquire, release, permit, drop_permit}

-- A connection of an address asks for a permit, or gives one back.
pub data Op : Type 0 where
  connect : IpAddr → Op
  leave : IpAddr → Op

-- The gate, and the permits that connections hold.
pub record Gate : Type 0 where
  pub gate : AuthGate
  pub held : List IpAddr

unfoldable pub times : IpAddr → List IpAddr → ℕ
times ip [] = 0
times ip (x ∷ xs) = let rest = times ip xs in if x == ip then suc rest else rest

unfoldable pub drop_one : IpAddr → List IpAddr → List IpAddr
drop_one ip [] = []
drop_one ip (x ∷ xs) = let rest = drop_one ip xs in if x == ip then xs else x ∷ rest

unfoldable pub step : Gate → Op → Gate
step s (connect ip) =
    let (granted, gate) = permit s.gate ip in
    record { gate = gate; held = elim granted [ none ↦ s.held | some held ↦ held ∷ s.held ] }
step s (leave ip) =
    if contains s.held ip
    then record { gate = drop_permit s.gate ip; held = drop_one ip s.held }
    else s

unfoldable pub run : Gate → List Op → Gate
run s [] = s
run s (o ∷ os) = run (step s o) os

-- The counter of an address is the number of its permits, it is at most the bound, and an address
-- without permits has no entry.
pub record Counts (s : Gate) (ip : IpAddr) : Type 0 where
  pub entry_of :
      lookup ip s.gate.counts ≡ (if times ip s.held == 0 then none else some (times ip s.held))
  pub bounded : times ip s.held ≤ s.gate.max_per_ip

times-drop_one :
    (ip j : IpAddr) (xs : List IpAddr)
    → contains xs j ≡ true
    → times ip (drop_one j xs) + (if j == ip then 1 else 0) ≡ times ip xs
unfolding times drop_one
times-drop_one ip j [] h = ground arith
times-drop_one ip j (x ∷ xs) h =
    ground (arith, times-drop_one ip j xs, nat_beq_iff x j, nat_beq_iff x ip)

step-max : (s : Gate) (o : Op) → (step s o).gate.max_per_ip ≡ s.gate.max_per_ip
unfolding step permit drop_permit acquire release
step-max s (connect ip) = ground arith
step-max s (leave ip) = ground arith

connect-Counts :
    (s : Gate) (j ip : IpAddr)
    → 1 ≤ s.gate.max_per_ip
    → Counts s j
    → Counts s ip
    → Counts (step s (connect j)) ip
unfolding step permit acquire times
connect-Counts s j ip one cj ci = record {
  entry_of = ground (
    arith,
    one,
    cj.entry_of,
    ci.entry_of,
    cj.bounded,
    ci.bounded,
    nat_beq_iff j ip,
    lookup-insert j ip (times j s.held + 1) s.gate.counts,
    lookup-insert j ip 1 (insert j 0 s.gate.counts),
    lookup-insert j ip 0 s.gate.counts,
  );
  bounded = ground (arith, one, cj.entry_of, ci.entry_of, cj.bounded, ci.bounded, nat_beq_iff j ip);
}

leave-Counts : (s : Gate) (j ip : IpAddr) → Counts s j → Counts s ip → Counts (step s (leave j)) ip
unfolding step drop_permit release
leave-Counts s j ip cj ci = elim (Bool-cases (contains s.held j)) [
  | inr h ↦ record {
    entry_of = ground (arith, h, ci.entry_of);
    bounded = ground (arith, h, ci.bounded);
  }
  | inl h ↦ record {
    entry_of = ground (
      arith,
      h,
      cj.entry_of,
      ci.entry_of,
      nat_beq_iff j ip,
      nat_beq_iff j j,
      times-drop_one ip j s.held h,
      times-drop_one j j s.held h,
      lookup-insert j ip (times j s.held - 1) s.gate.counts,
      lookup-remove j ip (insert j (times j s.held - 1) s.gate.counts),
    );
    bounded = ground (arith, h, ci.bounded, cj.entry_of, times-drop_one ip j s.held h);
  }
]

run-Counts :
    (os : List Op) (s : Gate)
    → 1 ≤ s.gate.max_per_ip
    → ((ip : IpAddr) → Counts s ip)
    → (ip : IpAddr) → Counts (run s os) ip
unfolding run
run-Counts [] s one h ip = h ip
run-Counts (connect j ∷ os) s one h ip =
    run-Counts os (step s (connect j)) (omega (arith, step-max s (connect j), one))
      (λ i. connect-Counts s j i one (h j) (h i)) ip
run-Counts (leave j ∷ os) s one h ip =
    run-Counts os (step s (leave j)) (omega (arith, step-max s (leave j), one))
      (λ i. leave-Counts s j i (h j) (h i)) ip

unfoldable pub start : ℕ → Gate
start max_per_ip = record { gate = new max_per_ip; held = [] }

start-Counts : (max_per_ip : ℕ) (ip : IpAddr) → Counts (start max_per_ip) ip
unfolding start new times
start-Counts max_per_ip ip = record { entry_of = refl; bounded = omega arith }

-- With a bound of at least one, after any sequence of connections that come and go: the counter of an
-- address is the number of permits its connections hold, that number is at most the bound, and the map
-- has no entry for an address without a permit.
pub run-start-Counts :
    (max_per_ip : ℕ) (os : List Op) (ip : IpAddr)
    → 1 ≤ max_per_ip
    → Counts (run (start max_per_ip) os) ip
unfolding start new
run-start-Counts max_per_ip os ip one =
    run-Counts os (start max_per_ip) one (start-Counts max_per_ip) ip

run-max : (os : List Op) (s : Gate) → (run s os).gate.max_per_ip ≡ s.gate.max_per_ip
unfolding run
run-max [] s = refl
run-max (o ∷ os) s = omega (arith, run-max os (step s o), step-max s o)

granted :
    (s : Gate) (ip : IpAddr)
    → Counts s ip
    → (permit s.gate ip).0 ≡ (if ltb (times ip s.held) s.gate.max_per_ip then some ip else none)
unfolding permit acquire
granted s ip c = ground (arith, c.entry_of, c.bounded)

-- With a bound of at least one, after any such sequence, a further connection of an address gets a
-- permit exactly when fewer than the bound are held.
pub permit-run :
    (max_per_ip : ℕ) (os : List Op) (ip : IpAddr)
    → 1 ≤ max_per_ip
    → (permit (run (start max_per_ip) os).gate ip).0
      ≡ (if ltb (times ip (run (start max_per_ip) os).held) max_per_ip then some ip else none)
unfolding start new
permit-run max_per_ip os ip one = ground (
  arith,
  granted (run (start max_per_ip) os) ip (run-start-Counts max_per_ip os ip one),
  run-max os (start max_per_ip),
)
