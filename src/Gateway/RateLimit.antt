-- ===== src/Gateway/RateLimit.antt =====
-- crates/gateway/src/tcp/rate_limit.rs and config.rs: the token bucket of a connection. The numbers are
-- `f64`: their operations are parameters, and an instant is a number of nanoseconds.
pub mod Refill
mod Tests
use longship_x.Prelude.{
  ℕ, zero, suc, ◌-◌, Bool, true, false, not, ◌||◌, Option, none, some, if◌then◌else◌, nat_eq, ◌==◌,
}

pub record RateLimitSettings : Type 0 where
  pub enabled : Bool
  pub per_second : ℕ
  pub burst : ℕ

-- `f64`, with the conversions from `u64` and from a duration.
pub record Float : Type 1 where
  pub F : Type 0
  pub of : ℕ → F
  pub secs : ℕ → F
  pub add : F → F → F
  pub sub : F → F → F
  pub mul : F → F → F
  pub min : F → F → F
  pub at_least : F → F → Bool

module _ (fl : Float) where
  pub record TokenBucket : Type 0 where
    pub capacity : fl.F
    pub refill_per_sec : fl.F
    pub tokens : fl.F
    pub last_refill : ℕ

  unfoldable pub new : RateLimitSettings → ℕ → Option TokenBucket
  new settings now =
      if not settings.enabled || ((settings.per_second == 0) || (settings.burst == 0))
      then none
      else some (record {
        capacity = fl.of settings.burst;
        refill_per_sec = fl.of settings.per_second;
        tokens = fl.of settings.burst;
        last_refill = now;
      })

  -- What the bucket holds at an instant; one before the last refill adds nothing.
  abbrev pub refilled : TokenBucket → ℕ → fl.F
  refilled b now =
      fl.min (fl.add b.tokens (fl.mul (fl.secs (now - b.last_refill)) b.refill_per_sec)) b.capacity

  unfoldable pub try_acquire : TokenBucket → ℕ → Bool × TokenBucket
  try_acquire b now =
      let tokens = refilled b now in
      if fl.at_least tokens (fl.of 1)
      then (true, record b { tokens = fl.sub tokens (fl.of 1); last_refill = now })
      else (false, record b { tokens = tokens; last_refill = now })

  -- So many attempts at one instant: how many are granted, and the bucket after them.
  unfoldable pub attempts : ℕ → TokenBucket → ℕ → ℕ × TokenBucket
  unfolding try_acquire
  attempts zero b now = (0, b)
  attempts (suc n) b now =
      let (passed, b') = try_acquire b now in
      let (count, b'') = attempts n b' now in (if passed then suc count else count, b'')
