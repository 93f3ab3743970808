-- ===== src/Domain/Player/Growth.antt =====
-- What gaining experience does: nothing is lost, levels are settled, and gains add up.
use longship_x.Prelude.{
  ℕ, zero, suc, ◌+◌, ◌-◌, ◌*◌, ◌≤◌, ◌<◌, min, ◌≡◌, refl, sym, ◌∙◌, inl, inr, true, false, Option,
  none, some, arith, ap, nat_eq, ◌==◌, if◌then◌else◌, Bool-cases, subst,
}
use longship_x.Domain.Player.{
  Player, max_level, u64_max, can_level, level_up, level_loop, add_exp, gain_exp,
}

-- The experience that the levels below `l` have cost: 100 + 200 + … + 100 (l - 1).
abbrev pub spent : ℕ → ℕ
spent l = 50 * (l * l) - 50 * l

square_grows : (l : ℕ) → l ≤ l * l
square_grows zero = omega arith
square_grows (suc l) = grind arith

spent-suc : (l : ℕ) → spent (l + 1) ≡ spent l + 100 * l
spent-suc l = omega (arith, square_grows l)

can_level-bounds :
    (p : Player) → can_level p ≡ true → (p.level < max_level) × (100 * p.level ≤ p.exp)
can_level-bounds p h = ground arith

-- Below the limit nothing saturates.
level_up_lem :
    (p : Player)
    → can_level p ≡ true
    → level_up p ≡ record p { exp = p.exp - 100 * p.level; level = p.level + 1 }
level_up_lem p h = ground (arith, can_level-bounds p h)

level_up-spent :
    (p : Player)
    → can_level p ≡ true
    → (level_up p).exp + spent (level_up p).level ≡ p.exp + spent p.level
level_up-spent p h =
    let (below, enough) = can_level-bounds p h in
    subst (λ (q : Player). q.exp + spent q.level ≡ p.exp + spent p.level) (sym (level_up_lem p h))
      (omega (arith, spent-suc p.level))

module _ (fuel : ℕ) (p : Player) (new : Option ℕ) where
  level_loop_more :
      can_level p ≡ true
      → level_loop (suc fuel) p new ≡ level_loop fuel (level_up p) (some (level_up p).level)
  unfolding level_loop
  level_loop_more h = ground arith

  level_loop_stop : can_level p ≡ false → level_loop (suc fuel) p new ≡ (p, new)
  unfolding level_loop
  level_loop_stop h = ground arith

-- With more fuel than levels that are left the loop ends by its condition.
level_loop-done :
    (fuel : ℕ) (p : Player) (new : Option ℕ)
    → max_level - p.level < fuel
    → can_level (level_loop fuel p new).0 ≡ false
level_loop-done zero p new h = absurd (omega arith)
level_loop-done (suc fuel) p new h = elim (Bool-cases (can_level p)) [
  | inl more ↦
      rw (level_loop_more fuel p new more)
        (level_loop-done fuel (level_up p) (some (level_up p).level) (ground arith))
  | inr done ↦ rw (level_loop_stop fuel p new done) done
]

level_loop-spent :
    (fuel : ℕ) (p : Player) (new : Option ℕ)
    → (level_loop fuel p new).0.exp + spent (level_loop fuel p new).0.level ≡ p.exp + spent p.level
unfolding level_loop
level_loop-spent zero p new = refl
level_loop-spent (suc fuel) p new = elim (Bool-cases (can_level p)) [
  | inl more ↦
      rw (level_loop_more fuel p new more)
        (level_loop-spent fuel (level_up p) (some (level_up p).level) ∙ level_up-spent p more)
  | inr done ↦ rw (level_loop_stop fuel p new done) refl
]

-- The loop leaves all but the two numbers alone, never lowers the level, and passes the limit only
-- from above it.
record Grown (p q : Player) : Type 0 where
  same_id : q.id ≡ p.id
  same_account : q.account_id ≡ p.account_id
  same_nickname : q.nickname ≡ p.nickname
  same_login : q.last_login_at ≡ p.last_login_at
  same_birth : q.created_at ≡ p.created_at
  level_le : p.level ≤ q.level
  exp_le : q.exp ≤ p.exp

level_loop-Grown : (fuel : ℕ) (p : Player) (new : Option ℕ) → Grown p (level_loop fuel p new).0
unfolding level_loop
level_loop-Grown zero p new = ground arith
level_loop-Grown (suc fuel) p new = elim (Bool-cases (can_level p)) [
  | inl more ↦ ground (
    arith,
    level_loop_more fuel p new more,
    level_loop-Grown fuel (level_up p) (some (level_up p).level),
  )
  | inr done ↦ ground (arith, level_loop_stop fuel p new done)
]

-- The level that is reported: the last one reached, or the one handed in if none was.
level_loop-reports :
    (fuel : ℕ) (p : Player) (new : Option ℕ)
    → (level_loop fuel p new).1 ≡ (
        if (level_loop fuel p new).0.level == p.level
        then new
        else some (level_loop fuel p new).0.level)
unfolding level_loop
level_loop-reports zero p new = ground arith
level_loop-reports (suc fuel) p new = elim (Bool-cases (can_level p)) [
  | inl more ↦ ground (
    arith,
    level_loop_more fuel p new more,
    level_loop-Grown fuel (level_up p) (some (level_up p).level),
    level_loop-reports fuel (level_up p) (some (level_up p).level),
  )
  | inr done ↦ ground (arith, level_loop_stop fuel p new done)
]

-- Two loops that both have fuel enough agree.
level_loop-agree :
    (fuel fuel' : ℕ) (p : Player) (new new' : Option ℕ)
    → max_level - p.level < fuel
    → max_level - p.level < fuel'
    → (level_loop fuel p new).0 ≡ (level_loop fuel' p new').0
level_loop-agree zero fuel' p new new' h h' = absurd (omega arith)
level_loop-agree (suc fuel) zero p new new' h h' = absurd (omega arith)
level_loop-agree (suc fuel) (suc fuel') p new new' h h' = elim (Bool-cases (can_level p)) [
  | inl more ↦
      let next = some (level_up p).level in
      rw (level_loop_more fuel p new more, level_loop_more fuel' p new' more)
        (level_loop-agree fuel fuel' (level_up p) next next (ground arith) (ground arith))
  | inr done ↦ rw (level_loop_stop fuel p new done, level_loop_stop fuel' p new' done) refl
]

abbrev raise : Player → ℕ → Player
raise p extra = record p { exp = p.exp + extra }

can_level-raise : (p : Player) (extra : ℕ) → can_level p ≡ true → can_level (raise p extra) ≡ true
can_level-raise p extra h = ground arith

level_up-raise :
    (p : Player) (extra : ℕ)
    → can_level p ≡ true
    → level_up (raise p extra) ≡ raise (level_up p) extra
level_up-raise p extra h = ground arith

-- Experience added after a loop or before it makes no difference to where a second loop ends.
level_loop-raise :
    (fuel fuel' fuel'' : ℕ) (p : Player) (extra : ℕ) (new new' new'' : Option ℕ)
    → max_level - p.level < fuel
    → max_level - p.level < fuel'
    → max_level - p.level < fuel''
    → (level_loop fuel' (raise (level_loop fuel p new).0 extra) new').0
      ≡ (level_loop fuel'' (raise p extra) new'').0
level_loop-raise zero fuel' fuel'' p extra new new' new'' h h' h'' = absurd (omega arith)
level_loop-raise (suc fuel) fuel' zero p extra new new' new'' h h' h'' = absurd (omega arith)
level_loop-raise (suc fuel) fuel' (suc fuel'') p extra new new' new'' h h' h'' =
    elim (Bool-cases (can_level p)) [
      | inl more ↦
          let next = some (level_up p).level in
          rw
            (
              level_loop_more fuel p new more,
              level_loop_more fuel'' (raise p extra) new'' (can_level-raise p extra more),
              level_up-raise p extra more,
            )
            (level_loop-raise fuel fuel' fuel'' (level_up p) extra next new' _ (ground arith)
              (ground arith) (ground arith))
      | inr done ↦
          rw (level_loop_stop fuel p new done)
            (level_loop-agree fuel' (suc fuel'') (raise p extra) new' new'' h' h'')
    ]

-- What a gain of experience guarantees, for every player and every amount.
pub record Gained (p : Player) (amount : ℕ) (q : Player) (reported : Option ℕ) : Type 0 where
  pub conserved : q.exp + spent q.level ≡ min (p.exp + amount) u64_max + spent p.level
  pub settled : can_level q ≡ false
  pub level_kept : p.level ≤ q.level
  pub report : reported ≡ (if q.level == p.level then none else some q.level)
  pub rest_kept : q ≡ record p { level = q.level; exp = q.exp }

-- For every player and amount: no experience is lost but what saturates at the maximum of `u64`
-- (what is left plus what the levels have cost grows by the amount), no further level could be
-- taken, the level does not fall, the level is reported exactly when it rose, and nothing but level
-- and experience changes.
pub gain_exp-Gained :
    (p : Player) (amount : ℕ) → Gained p amount (gain_exp p amount).0 (gain_exp p amount).1
unfolding gain_exp
gain_exp-Gained p amount =
    let start = add_exp p amount in
    let g = level_loop-Grown (suc max_level) start none in
    record {
      conserved = level_loop-spent (suc max_level) start none;
      settled = level_loop-done (suc max_level) start none (omega arith);
      level_kept = g.level_le;
      report = level_loop-reports (suc max_level) start none;
      rest_kept = ground (arith, g);
    }

add_exp-raise : (p : Player) (extra : ℕ) → p.exp + extra ≤ u64_max → add_exp p extra ≡ raise p extra
add_exp-raise p extra h = ground arith

-- Below saturation, two gains one after the other leave the same player as one gain of their sum.
pub gain_exp-gain_exp :
    (p : Player) (a b : ℕ)
    → p.exp + a + b ≤ u64_max
    → (gain_exp (gain_exp p a).0 b).0 ≡ (gain_exp p (a + b)).0
unfolding gain_exp
gain_exp-gain_exp p a b h =
    let loop : Player → Player = λ q. (level_loop (suc max_level) q none).0 in
    let first = raise p a in
    let g = level_loop-Grown (suc max_level) first none in
    let start_a : add_exp p a ≡ first = add_exp-raise p a (omega arith) in
    let start_b : add_exp (loop first) b ≡ raise (loop first) b =
      add_exp-raise (loop first) b (omega (arith, g.exp_le)) in
    let start_ab : add_exp p (a + b) ≡ raise first b = ground arith in
    ap (λ q. loop (add_exp (loop q) b)) start_a
    ∙ (ap loop start_b
        ∙ (level_loop-raise (suc max_level) (suc max_level) (suc max_level) first b none none none
              (omega arith) (omega arith) (omega arith)
            ∙ ap loop (sym start_ab)))
