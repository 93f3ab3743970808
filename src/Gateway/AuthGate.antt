-- ===== src/Gateway/AuthGate.antt =====
-- crates/gateway/src/tcp/auth_gate.rs: the bound on one address's connections that have not
-- authenticated. The lock makes each method one step; an address stands as a number.
pub mod Permits
mod Tests
use longship_x.Prelude.{
  ℕ, ◌+◌, ◌-◌, Bool, true, false, Option, none, some, [], leb, if◌then◌else◌, nat_eq, ◌==◌,
}
use longship_x.Prelude.Map.{Map, lookup, insert, remove}

abbrev pub IpAddr : Type 0
IpAddr = ℕ

pub record AuthGate : Type 0 where
  pub max_per_ip : ℕ
  pub counts : Map IpAddr ℕ

unfoldable pub new : ℕ → AuthGate
new max_per_ip = record { max_per_ip = max_per_ip; counts = [] }

-- `counts.entry(ip).or_insert(0)`: the count, and the map with an entry.
abbrev pub entry : IpAddr → Map IpAddr ℕ → ℕ × Map IpAddr ℕ
entry ip counts = elim (lookup ip counts) [
  | none ↦ (0, insert ip 0 counts)
  | some count ↦ (count, counts)
]

unfoldable pub acquire : AuthGate → IpAddr → Bool × AuthGate
acquire gate ip =
    let (count, counts) = entry ip gate.counts in
    if leb gate.max_per_ip count
    then (false, record gate { counts = counts })
    else (true, record gate { counts = insert ip (count + 1) counts })

unfoldable pub release : AuthGate → IpAddr → AuthGate
release gate ip = elim (lookup ip gate.counts) [
  | none ↦ gate
  | some count ↦
      let left : ℕ = count - 1 in
      let counts : Map IpAddr ℕ = insert ip left gate.counts in
      record gate { counts = if left == 0 then remove ip counts else counts }
]

unfoldable pub unauth_count : AuthGate → IpAddr → ℕ
unauth_count gate ip = elim (lookup ip gate.counts) [ none ↦ 0 | some count ↦ count ]

-- An `AuthPermit` by the address that it holds a place for.
unfoldable pub permit : AuthGate → IpAddr → Option IpAddr × AuthGate
unfolding acquire
permit gate ip =
    let (granted, after) = acquire gate ip in (if granted then some ip else none, after)

unfoldable pub drop_permit : AuthGate → IpAddr → AuthGate
drop_permit gate permit = release gate permit
