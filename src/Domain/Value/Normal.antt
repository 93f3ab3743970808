-- ===== src/Domain/Value/Normal.antt =====
-- Validated values are in normal form: checking one again accepts it and gives it back.
use longship_x.Prelude.{
  ℕ, ◌≤◌, ◌<◌, ◌≡◌, refl, true, false, ok, [], ◌∷◌, length, all, any, map, nat_eq, arith,
}
use longship_x.Prelude.Text.{Text, trim, byte_len, is_control, is_whitespace}
use longship_x.Prelude.Text.Trim.{trim-trim, trim-visible, visible}
use longship_x.Domain.Value.{
  Username, in_range, is_username_char, is_ascii_upper, to_ascii_lowercase, try_new_username,
  try_new_nickname,
}

lower_char :
    (c : ℕ)
    → is_username_char c ≡ true
    → (is_username_char (to_ascii_lowercase c) ≡ true)
      × (is_whitespace (to_ascii_lowercase c) ≡ false)
      × (to_ascii_lowercase (to_ascii_lowercase c) ≡ to_ascii_lowercase c)
      × (c < 128)
      × (to_ascii_lowercase c < 128)
unfolding is_username_char to_ascii_lowercase is_whitespace
lower_char c h = ground arith

abbrev lower : Text → Text
lower = map to_ascii_lowercase

-- What a text of user-name characters becomes.
record Lowered (s : Text) : Type 0 where
  chars : all is_username_char (lower s) ≡ true
  shown : all visible (lower s) ≡ true
  no_upper : any is_ascii_upper (lower s) ≡ false
  stable : lower (lower s) ≡ lower s
  bytes : byte_len (lower s) ≡ length (lower s)
  kept : byte_len (lower s) ≡ byte_len s

lower_no_upper : (c : ℕ) → is_ascii_upper (to_ascii_lowercase c) ≡ false
unfolding to_ascii_lowercase
lower_no_upper c = ground arith

Lowered-all : (s : Text) → all is_username_char s ≡ true → Lowered s
Lowered-all [] h = record {
  chars = refl;
  shown = refl;
  no_upper = refl;
  stable = refl;
  bytes = refl;
  kept = refl;
}
Lowered-all (c ∷ s) h =
    let both : (is_username_char c ≡ true) × (all is_username_char s ≡ true) = ground arith in
    let l = lower_char c both.0 in
    let r = Lowered-all s both.1 in
    record {
      chars = ground (arith, l, r);
      shown = ground (arith, l, r);
      no_upper = ground (arith, lower_no_upper c, r);
      stable = ground (arith, l, r);
      bytes = ground (arith, l, r);
      kept = ground (arith, l, r);
    }

-- A text that the validation accepts, taken apart.
try_new_username-parts :
    (raw : Text) (u : Username)
    → try_new_username raw ≡ ok u
    → (in_range 3 32 (byte_len (trim raw)) ≡ true)
      × (all is_username_char (trim raw) ≡ true)
      × (u ≡ lower (trim raw))
unfolding try_new_username
try_new_username-parts raw u h = ground arith

-- An accepted user name has 3 to 32 characters, all of them user-name characters and none an upper
-- case letter, and validating it again gives it back unchanged.
pub try_new_username-normal :
    (raw : Text) (u : Username)
    → try_new_username raw ≡ ok u
    → (3 ≤ length u)
      × (length u ≤ 32)
      × (all is_username_char u ≡ true)
      × (any is_ascii_upper u ≡ false)
      × (try_new_username u ≡ ok u)
unfolding try_new_username
try_new_username-normal raw u h =
    let (fits, chars, e) = try_new_username-parts raw u h in
    let l = Lowered-all (trim raw) chars in
    rw e (
      ground (arith, l),
      ground (arith, l),
      l.chars,
      l.no_upper,
      rw (trim-visible (lower (trim raw)) l.shown) (ground (arith, l)),
    )

-- An accepted nickname is the trimmed input; it has 1 to 32 characters, none of them a control
-- character, and validating it again gives it back unchanged.
pub try_new_nickname-normal :
    (raw u : Text)
    → try_new_nickname raw ≡ ok u
    → (u ≡ trim raw)
      × (1 ≤ length u)
      × (length u ≤ 32)
      × (any is_control u ≡ false)
      × (try_new_nickname u ≡ ok u)
unfolding try_new_nickname
try_new_nickname-normal raw u h = ground (arith, trim-trim raw)
