-- ===== src/Infra/Config/Decimals.antt =====
-- crates/infrastructure/src/config.rs: the numbers of the environment, printed and parsed.
use longship_x.Prelude.{
  ℕ, zero, suc, ◌+◌, ◌*◌, ◌-◌, ◌^◌, ◌/◌, ◌%◌, ◌<◌, ◌≤◌, ◌≡◌, ◌≢◌, refl, ◌∙◌, ap, inl, inr, true,
  false, some, [], ◌∷◌, ltb, leb, length, Bool-cases, nat_eq, ◌==◌, arith,
}
use longship_x.Prelude.Text.{Text, decimal, decimal_loop}
use longship_x.Infra.Config.Env.{digits_from, below, parse_unsigned}

-- A digit in front.
digits_from_digit :
    (acc d : ℕ) (s : Text) → d < 10 → digits_from acc ((d + 48) ∷ s) ≡ digits_from (acc * 10 + d) s
digits_from_digit acc d s h =
    let value : d + 48 - 48 ≡ d = omega arith in
    let low : leb 48 (d + 48) ≡ true = ground arith in
    let high : leb (d + 48) 57 ≡ true = ground (arith, h) in
    rw (low, high) (ap (λ v. digits_from (acc * 10 + v) s) value)

digits_from-decimal_loop :
    (fuel n : ℕ) (s : Text) → n < fuel → digits_from 0 (decimal_loop fuel n s) ≡ digits_from n s
unfolding decimal_loop
digits_from-decimal_loop zero n s h = absurd (omega (arith, h))
digits_from-decimal_loop (suc fuel) n s h = elim (Bool-cases (n / 10 == 0)) [
  | inl last ↦
      let small : n % 10 < 10 = omega arith in
      let same : 0 * 10 + n % 10 ≡ n = ground (arith, last) in
      rw last (digits_from_digit 0 (n % 10) s small ∙ ap (λ k. digits_from k s) same)
  | inr more ↦
      let small : n % 10 < 10 = omega arith in
      let same : n / 10 * 10 + n % 10 ≡ n = omega arith in
      let fewer : n / 10 < fuel = ground (arith, more, h) in
      rw more (
        digits_from-decimal_loop fuel (n / 10) ((n % 10 + 48) ∷ s) fewer
        ∙ (digits_from_digit (n / 10) (n % 10) s small ∙ ap (λ k. digits_from k s) same))
]

within : (n limit : ℕ) → n < limit → ltb n limit ≡ true
within n limit h = ground arith

no_digit :
    (c : ℕ) (acc : ℕ) (s : Text) (n : ℕ) → (c == 43) ≡ true → digits_from acc (c ∷ s) ≢ some n
no_digit c acc s n plus e =
    let low : leb 48 c ≡ false = ground (arith, plus) in absurd (ground (arith, low, e))

-- A text that begins with `+` has no digit there.
parse_unsigned-digits_from :
    (w : ℕ) (s : Text) (n : ℕ)
    → 1 ≤ length s
    → digits_from 0 s ≡ some n
    → n < 2 ^ w
    → parse_unsigned w s ≡ some n
unfolding parse_unsigned
parse_unsigned-digits_from w [] n h e small = absurd (omega (arith, h))
parse_unsigned-digits_from w (c ∷ []) n h e small =
    ap (λ o. below (2 ^ w) o) e ∙ rw (within n (2 ^ w) small) refl
parse_unsigned-digits_from w (c ∷ d ∷ s) n h e small = elim (Bool-cases (c == 43)) [
  | inl plus ↦ absurd (no_digit c 0 (d ∷ s) n plus e)
  | inr other ↦ rw other (ap (λ o. below (2 ^ w) o) e ∙ rw (within n (2 ^ w) small) refl)
]

length-decimal_loop : (fuel n : ℕ) (s : Text) → length s ≤ length (decimal_loop fuel n s)
unfolding decimal_loop
length-decimal_loop zero n s = omega arith
length-decimal_loop (suc fuel) n s =
    ground (arith, length-decimal_loop fuel (n / 10) ((n % 10 + 48) ∷ s))

length-decimal : (n : ℕ) → 1 ≤ length (decimal n)
unfolding decimal decimal_loop
length-decimal n = ground (arith, length-decimal_loop n (n / 10) ((n % 10 + 48) ∷ []))

-- Every number of w bits that is printed in decimal is read back as it was by the parser of its type.
pub parse_unsigned-decimal : (w n : ℕ) → n < 2 ^ w → parse_unsigned w (decimal n) ≡ some n
unfolding decimal
parse_unsigned-decimal w n small =
    parse_unsigned-digits_from w (decimal n) n (length-decimal n)
      (digits_from-decimal_loop (suc n) n [] (omega arith)) small
