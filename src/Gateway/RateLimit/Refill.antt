-- ===== src/Gateway/RateLimit/Refill.antt =====
-- crates/gateway/src/tcp/rate_limit.rs: how many frames pass, by the time that goes by between them.
use longship_x.Prelude.{
  ℕ, zero, suc, ◌+◌, ◌-◌, ◌*◌, ◌^◌, ◌≤◌, ◌≡◌, refl, sym, ◌∙◌, ap, true, some, List, [], ◌∷◌, All,
  leb, min, arith,
}
use longship_x.Gateway.RateLimit.{
  Float, RateLimitSettings, TokenBucket, new, refilled, try_acquire, attempts,
}

-- What IEEE 754 says of the numbers that an `f64` holds exactly, whole numbers up to 2⁵³, and of a duration
-- of whole seconds.
pub record Exact (fl : Float) : Type 0 where
  pub mul_secs :
      (d n : ℕ) → d * n ≤ 2 ^ 53 → fl.mul (fl.secs (d * 1000000000)) (fl.of n) ≡ fl.of (d * n)
  pub add_of : (n k : ℕ) → n + k ≤ 2 ^ 53 → fl.add (fl.of n) (fl.of k) ≡ fl.of (n + k)
  pub min_of : (n k : ℕ) → n ≤ 2 ^ 53 → k ≤ 2 ^ 53 → fl.min (fl.of n) (fl.of k) ≡ fl.of (min n k)
  pub sub_one : (n : ℕ) → suc n ≤ 2 ^ 53 → fl.sub (fl.of (suc n)) (fl.of 1) ≡ fl.of n
  pub one_le : (n : ℕ) → n ≤ 2 ^ 53 → fl.at_least (fl.of n) (fl.of 1) ≡ leb 1 n

-- Some seconds go by, and then a frame arrives, with so many more at the same instant.
pub record Spell : Type 0 where
  pub seconds : ℕ
  pub more : ℕ

-- A counter that gains `rate` every second, never beyond `burst`, and loses one with every frame granted:
-- how many frames of each spell it grants.
abbrev pub ideal : ℕ → ℕ → ℕ → List Spell → List ℕ
ideal burst rate n [] = []
ideal burst rate n (p ∷ ps) =
    let held = min (n + p.seconds * rate) burst in
    min (suc p.more) held ∷ ideal burst rate (held - min (suc p.more) held) ps

-- What a spell can add is a number that an `f64` holds.
abbrev pub Moderate : ℕ → ℕ → Spell → Type 0
Moderate burst rate p = burst + p.seconds * rate ≤ 2 ^ 53

module _ (fl : Float) where
  -- The bucket over the spells of a connection.
  unfoldable pub granted : TokenBucket fl → List Spell → List ℕ
  granted b [] = []
  granted b (p ∷ ps) =
      let (count, b') = attempts fl (suc p.more) b (b.last_refill + p.seconds * 1000000000) in
      count ∷ granted b' ps

module _ (fl : Float) (e : Exact fl) where
  -- A bucket with whole numbers in it.
  abbrev holding : ℕ → ℕ → ℕ → ℕ → TokenBucket fl
  holding burst rate n at = record {
    capacity = fl.of burst;
    refill_per_sec = fl.of rate;
    tokens = fl.of n;
    last_refill = at;
  }

  refilled_lem :
      (burst rate n at d : ℕ)
      → n ≤ burst
      → burst + d * rate ≤ 2 ^ 53
      → refilled fl (holding burst rate n at) (at + d * 1000000000)
        ≡ fl.of (min (n + d * rate) burst)
  refilled_lem burst rate n at d h small =
      let passed : at + d * 1000000000 - at ≡ d * 1000000000 = omega arith in
      let added : n + d * rate ≤ 2 ^ 53 = omega (arith, h, small) in
      ap (λ t. fl.min (fl.add (fl.of n) (fl.mul (fl.secs t) (fl.of rate))) (fl.of burst)) passed
      ∙ rw (e.mul_secs d rate (omega (arith, small)), e.add_of n (d * rate) added)
          (e.min_of (n + d * rate) burst added (omega (arith, small)))

  refilled_same :
      (burst rate n now : ℕ)
      → n ≤ burst
      → burst ≤ 2 ^ 53
      → refilled fl (holding burst rate n now) now ≡ fl.of n
  refilled_same burst rate n now h small =
      let at_once : now + 0 * 1000000000 ≡ now = omega arith in
      let full : min (n + 0 * rate) burst ≡ n = omega (arith, h) in
      ap (λ t. refilled fl (holding burst rate n now) t) (sym at_once)
      ∙ (refilled_lem burst rate n now 0 h (omega (arith, small)) ∙ ap (λ k. fl.of k) full)

  as_held :
      (burst rate now : ℕ) (c c' n n' : ℕ)
      → c ≡ c'
      → n ≡ n'
      → Path (ℕ × TokenBucket fl) (c, holding burst rate n now) (c', holding burst rate n' now)
  as_held burst rate now c c' n n' p q = rw (p, q) refl

  attempts_now :
      (k burst rate n now : ℕ)
      → n ≤ burst
      → burst ≤ 2 ^ 53
      → attempts fl k (holding burst rate n now) now
        ≡ (min k n, holding burst rate (n - min k n) now)
  unfolding attempts try_acquire
  attempts_now zero burst rate n now h small =
      as_held burst rate now _ _ _ _ (omega arith) (omega arith)
  attempts_now (suc k) burst rate zero now h small =
      rw (refilled_same burst rate 0 now h small, e.one_le 0 (omega arith))
        (attempts_now k burst rate 0 now h small
          ∙ as_held burst rate now _ _ _ _ (omega arith) (omega arith))
  attempts_now (suc k) burst rate (suc n) now h small =
      let positive : leb 1 (suc n) ≡ true = ground arith in
      rw
        (
          refilled_same burst rate (suc n) now h small,
          e.one_le (suc n) (omega (arith, h, small)),
          positive,
          e.sub_one n (omega (arith, h, small)),
          attempts_now k burst rate n now (omega (arith, h)) small,
        )
        (as_held burst rate now _ _ _ _ (omega arith) (omega arith))

  -- A spell begins with a refill.
  attempts-refilled :
      (m burst rate n at d : ℕ)
      → n ≤ burst
      → burst + d * rate ≤ 2 ^ 53
      → attempts fl (suc m) (holding burst rate n at) (at + d * 1000000000)
        ≡ attempts fl
            (suc m)
            (holding burst rate (min (n + d * rate) burst) (at + d * 1000000000))
            (at + d * 1000000000)
  unfolding attempts try_acquire
  attempts-refilled m burst rate n at d h small =
      rw
        (
          refilled_lem burst rate n at d h small,
          refilled_same burst rate (min (n + d * rate) burst) (at + d * 1000000000) (omega arith)
              (omega (arith, small)),
        )
        refl

  granted-holding :
      (burst rate n at : ℕ) (ps : List Spell)
      → n ≤ burst
      → All (Moderate burst rate) ps
      → granted fl (holding burst rate n at) ps ≡ ideal burst rate n ps
  unfolding granted
  granted-holding burst rate n at [] h small = refl
  granted-holding burst rate n at (p ∷ ps) h small =
      let now = at + p.seconds * 1000000000 in
      let held = min (n + p.seconds * rate) burst in
      let spell =
        attempts-refilled p.more burst rate n at p.seconds h small.0
        ∙ attempts_now (suc p.more) burst rate held now (omega arith) (omega (arith, small.0)) in
      let later =
        granted-holding burst rate (held - min (suc p.more) held) now ps (omega arith) small.1 in
      rw spell (ap (λ l. min (suc p.more) held ∷ l) later)

  -- A connection's bucket grants its frames as a counter does that starts at the burst, gains the rate every
  -- second without ever holding more than the burst, and loses one with every frame granted: at
  -- whatever whole seconds the frames arrive, and however many at once. (As long as the burst and
  -- what each pause adds are at most 2⁵³ together, so that the `f64` are exact.)
  pub granted-ideal :
      (settings : RateLimitSettings) (start : ℕ) (b : TokenBucket fl) (ps : List Spell)
      → new fl settings start ≡ some b
      → All (Moderate settings.burst settings.per_second) ps
      → granted fl b ps ≡ ideal settings.burst settings.per_second settings.burst ps
  unfolding new
  granted-ideal settings start b ps made small =
      let same : holding settings.burst settings.per_second settings.burst start ≡ b =
        ground (arith, made) in
      ap (λ c. granted fl c ps) (sym same)
      ∙ granted-holding settings.burst settings.per_second settings.burst start ps (omega arith)
          small
