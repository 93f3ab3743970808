-- ===== src/Prelude/Text/Trim.antt =====
-- Trimming: it takes whitespace off both ends, and a second time changes nothing.
use Prim.Native.Nat.{ℕ}
use mathlib.Core.Path.{◌≡◌, refl, sym, ◌∙◌, ap, subst}
use mathlib.Core.Logic.{inl, inr}
use mathlib.Core.Bool.{Bool, true, false, ◌&&◌, not}
use mathlib.Core.List.{[], ◌∷◌, ◌++◌, reverse, reverse-cons, reverse-append, reverse-reverse}
use native.Mathlib.Omega.{arith}
use longship_x.Prelude.Tests.{Bool-cases}
use longship_x.Prelude.Lists.{all}
use longship_x.Prelude.Text.{Text, is_whitespace, trim_start, trim}

abbrev pub visible : ℕ → Bool
visible c = not (is_whitespace c)

-- The first character, if there is one, is no whitespace.
abbrev Starts : Text → Type 0
Starts [] = Unit {0}
Starts (c ∷ s) = is_whitespace c ≡ false

trim_start-Starts : (s : Text) → Starts (trim_start s)
unfolding trim_start
trim_start-Starts [] = tt
trim_start-Starts (c ∷ s) = elim (Bool-cases (is_whitespace c)) [
  | inl space ↦ rw space (trim_start-Starts s)
  | inr other ↦ rw other other
]

trim_start_same : (s : Text) → Starts s → trim_start s ≡ s
unfolding trim_start
trim_start_same [] h = refl
trim_start_same (c ∷ s) h = rw h

trim_start-suffix : (s : Text) → (w : Text) × (s ≡ w ++ trim_start s)
unfolding trim_start
trim_start-suffix [] = ([], refl)
trim_start-suffix (c ∷ s) = elim (Bool-cases (is_whitespace c)) [
  | inl space ↦ let (w, e) = trim_start-suffix s in (c ∷ w, rw space (ap (λ r. c ∷ r) e))
  | inr other ↦ ([], rw other)
]

Starts-prefix : (s w : Text) → Starts (s ++ w) → Starts s
Starts-prefix [] w h = tt
Starts-prefix (c ∷ s) w h = h

-- Trimming twice is trimming once.
pub trim-trim : (s : Text) → trim (trim s) ≡ trim s
unfolding trim
trim-trim s =
    let a = trim_start s in
    let b = trim_start (reverse a) in
    let (w, e) = trim_start-suffix (reverse a) in
    let split : a ≡ reverse b ++ reverse w =
      sym (reverse-reverse a) ∙ (ap reverse e ∙ reverse-append w b) in
    let first : Starts (reverse b) =
      Starts-prefix (reverse b) (reverse w) (subst Starts split (trim_start-Starts s)) in
    rw (trim_start_same (reverse b) first, reverse-reverse b)
      (ap reverse (trim_start_same b (trim_start-Starts (reverse a))))

all-append : (p : ℕ → Bool) (s t : Text) → all p (s ++ t) ≡ (all p s && all p t)
all-append p [] t = refl
all-append p (c ∷ s) t = ground (arith, all-append p s t)

all-reverse : (p : ℕ → Bool) (s : Text) → all p (reverse s) ≡ all p s
all-reverse p [] = refl
all-reverse p (c ∷ s) =
    rw (reverse-cons c s) (ground (arith, all-append p (reverse s) (c ∷ []), all-reverse p s))

all-Starts : (s : Text) → all visible s ≡ true → Starts s
all-Starts [] h = tt
all-Starts (c ∷ s) h = ground arith

-- A text without whitespace is left as it is.
pub trim-visible : (s : Text) → all visible s ≡ true → trim s ≡ s
unfolding trim
trim-visible s h = rw (trim_start_same s (all-Starts s h)) (
    ap reverse (trim_start_same (reverse s) (all-Starts (reverse s) (all-reverse visible s ∙ h)))
    ∙ reverse-reverse s)
