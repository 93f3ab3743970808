-- ===== src/Protocol/Messages/Plain/Fields.antt =====
-- crates/protocol/proto/game.proto: fields of messages written one after the other, and read off again.
use longship_x.Prelude.{
  ℕ, zero, suc, Bool, true, false, Option, none, some, List, [], ◌∷◌, ◌++◌, length, take, drop,
  take_append, drop_append, ◌≡◌, refl, ap, ◌∙◌, arith,
}
use longship_x.Prelude.Integer.{ℤ, pos, negsuc}
use longship_x.Prelude.Text.{Text}

-- How a value is written in front of what follows it, and read off again.
pub record Field (A : Type 0) : Type 0 where
  pub put : A → List ℕ → List ℕ
  pub get : List ℕ → Option (A × List ℕ)
  pub get-put : (a : A) (rest : List ℕ) → get (put a rest) ≡ some (a, rest)

abbrev pub get_nat : List ℕ → Option (ℕ × List ℕ)
get_nat [] = none
get_nat (n ∷ rest) = some (n, rest)

abbrev pub nat : Field ℕ
nat = record { put = λ n rest. n ∷ rest; get = get_nat; get-put = λ n rest. refl }

abbrev pub get_text : List ℕ → Option (Text × List ℕ)
get_text [] = none
get_text (n ∷ rest) = some (take n rest, drop n rest)

pub put_text_lem : (t rest : Text) → get_text (length t ∷ (t ++ rest)) ≡ some (t, rest)
put_text_lem t rest = ground (arith, take_append t rest, drop_append t rest)

abbrev pub string : Field Text
string = record { put = λ t rest. length t ∷ (t ++ rest); get = get_text; get-put = put_text_lem }

abbrev pub put_bool : Bool → List ℕ → List ℕ
put_bool false rest = 0 ∷ rest
put_bool true rest = 1 ∷ rest

abbrev pub get_bool : List ℕ → Option (Bool × List ℕ)
get_bool [] = none
get_bool (zero ∷ rest) = some (false, rest)
get_bool (suc n ∷ rest) = some (true, rest)

pub put_bool_lem : (b : Bool) (rest : List ℕ) → get_bool (put_bool b rest) ≡ some (b, rest)
put_bool_lem false rest = refl
put_bool_lem true rest = refl

abbrev pub bool : Field Bool
bool = record { put = put_bool; get = get_bool; get-put = put_bool_lem }

abbrev pub put_int : ℤ → List ℕ → List ℕ
put_int (pos n) rest = 0 ∷ n ∷ rest
put_int (negsuc n) rest = 1 ∷ n ∷ rest

abbrev pub get_int : List ℕ → Option (ℤ × List ℕ)
get_int [] = none
get_int (sign ∷ []) = none
get_int (zero ∷ n ∷ rest) = some (pos n, rest)
get_int (suc sign ∷ n ∷ rest) = some (negsuc n, rest)

pub put_int_lem : (z : ℤ) (rest : List ℕ) → get_int (put_int z rest) ≡ some (z, rest)
put_int_lem (pos n) rest = refl
put_int_lem (negsuc n) rest = refl

abbrev pub int : Field ℤ
int = record { put = put_int; get = get_int; get-put = put_int_lem }

module _ {A : Type 0} (f : Field A) where
  abbrev pub put_option : Option A → List ℕ → List ℕ
  put_option none rest = 0 ∷ rest
  put_option (some a) rest = 1 ∷ f.put a rest

  abbrev pub wrap : Option (A × List ℕ) → Option (Option A × List ℕ)
  wrap none = none
  wrap (some (a, rest)) = some (some a, rest)

  abbrev pub get_option : List ℕ → Option (Option A × List ℕ)
  get_option [] = none
  get_option (zero ∷ rest) = some (none, rest)
  get_option (suc n ∷ rest) = wrap (f.get rest)

  pub put_option_lem :
      (o : Option A) (rest : List ℕ) → get_option (put_option o rest) ≡ some (o, rest)
  put_option_lem none rest = refl
  put_option_lem (some a) rest = ap wrap (f.get-put a rest)

  abbrev pub optional : Field (Option A)
  optional = record { put = put_option; get = get_option; get-put = put_option_lem }

module _ {A B : Type 0} (f : Field A) (g : Field B) where
  abbrev pub with_first : A → Option (B × List ℕ) → Option ((A × B) × List ℕ)
  with_first a none = none
  with_first a (some (b, rest)) = some ((a, b), rest)

  abbrev pub then_second : Option (A × List ℕ) → Option ((A × B) × List ℕ)
  then_second none = none
  then_second (some (a, rest)) = with_first a (g.get rest)

  pub both_lem :
      (p : A × B) (rest : List ℕ)
      → then_second (f.get (f.put p.0 (g.put p.1 rest))) ≡ some (p, rest)
  both_lem (a, b) rest =
      ap then_second (f.get-put a (g.put b rest)) ∙ ap (with_first a) (g.get-put b rest)

  abbrev pub both : Field (A × B)
  both = record {
    put = λ p rest. f.put p.0 (g.put p.1 rest);
    get = λ bytes. then_second (f.get bytes);
    get-put = both_lem;
  }
