-- ===== src/Gateway/RateLimit/Tests.antt =====
-- crates/gateway/src/tcp/rate_limit.rs: a bucket on whole numbers, which meet what is assumed of `f64`.
use longship_x.Prelude.{ℕ, ◌+◌, ◌-◌, ◌*◌, ◌/◌, min, ◌≡◌, refl, true, leb, List, [], ◌∷◌, arith}
use longship_x.Gateway.RateLimit.{Float, RateLimitSettings, TokenBucket, new, attempts}
use longship_x.Gateway.RateLimit.Refill.{Exact, Spell, granted, ideal, granted-ideal}

abbrev whole : Float
whole = record {
  F = ℕ;
  of = λ n. n;
  secs = λ nanos. nanos / 1000000000;
  add = λ a b. a + b;
  sub = λ a b. a - b;
  mul = λ a b. a * b;
  min = λ a b. min a b;
  at_least = λ a b. leb b a;
}

seconds : (d n : ℕ) → d * 1000000000 / 1000000000 * n ≡ d * n
seconds d n = let same : d * 1000000000 / 1000000000 ≡ d = omega arith in rw same refl

whole-Exact : Exact whole
whole-Exact = record {
  mul_secs = λ d n h. seconds d n;
  add_of = λ n k h. refl;
  min_of = λ n k h small. refl;
  sub_one = λ n h. omega arith;
  one_le = λ n h. refl;
}

abbrev five : RateLimitSettings
five = record { enabled = true; per_second = 2; burst = 5 }

abbrev bucket : TokenBucket whole
bucket = record { capacity = 5; refill_per_sec = 2; tokens = 5; last_refill = 100 }

-- Eight frames at once, five a second later, and nine after a minute.
abbrev spells : List Spell
spells =
    record { seconds = 0; more = 7 }
    ∷ record { seconds = 1; more = 4 }
    ∷ record { seconds = 60; more = 8 }
    ∷ []

counted : granted whole bucket spells ≡ 5 ∷ 2 ∷ 5 ∷ []
unfolding granted attempts
counted = refl

granted-ideal_example : granted whole bucket spells ≡ ideal 5 2 5 spells
granted-ideal_example =
    granted-ideal whole whole-Exact five 100 bucket spells (unfold new in refl)
      (omega arith, (omega arith, (omega arith, tt)))
