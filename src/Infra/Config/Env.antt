-- ===== src/Infra/Config/Env.antt =====
-- crates/infrastructure/src/config.rs: one variable of the environment. The lookup is a function: the
-- environment does not change while it is read. How `{raw:?}` quotes a text is a parameter.
use longship_x.Prelude.{
  ℕ, ◌+◌, ◌*◌, ◌-◌, ◌^◌, Bool, true, false, ◌&&◌, ◌||◌, Option, none, some, Result, ok, err, [],
  ◌∷◌, ◌++◌, map, ltb, leb, if◌then◌else◌, nat_eq, ◌==◌,
}
use longship_x.Prelude.Text.{Text, text, text_eq, trim, is_empty}
use longship_x.Infra.Config.{ConfigError, parse_failed}

abbrev pub Lookup : Type 0
Lookup = Text → Option Text

-- `str::parse` for an unsigned type of w bits: an optional `+`, then digits, without overflow.
abbrev pub digits_from : ℕ → Text → Option ℕ
digits_from acc [] = some acc
digits_from acc (c ∷ s) =
    let rest = digits_from (acc * 10 + (c - 48)) s in if leb 48 c && leb c 57 then rest else none

abbrev pub below : ℕ → Option ℕ → Option ℕ
below limit none = none
below limit (some n) = if ltb n limit then some n else none

unfoldable pub parse_unsigned : ℕ → Text → Option ℕ
parse_unsigned w [] = none
parse_unsigned w (c ∷ []) = below (2 ^ w) (digits_from 0 (c ∷ []))
parse_unsigned w (c ∷ d ∷ s) = below (2 ^ w) (digits_from 0 (if c == 43 then d ∷ s else c ∷ d ∷ s))

abbrev pub ascii_lower : ℕ → ℕ
ascii_lower c = if leb 65 c && leb c 90 then c + 32 else c

unfoldable pub to_ascii_lowercase : Text → Text
to_ascii_lowercase s = map ascii_lower s

abbrev pub or_default : Option Text → Text → Text
or_default none default = default
or_default (some s) default = s

unfoldable pub env_str : Lookup → Text → Text → Text
env_str look name default = or_default (look name) default

abbrev pub unless_blank : Option Text → Option Text
unless_blank none = none
unless_blank (some s) = if is_empty (trim s) then none else some s

unfoldable pub env_opt_str : Lookup → Text → Option Text
env_opt_str look name = unless_blank (look name)

unfoldable pub parse_bool : Text → Option Bool
unfolding text
parse_bool s =
    if (s == text "1") || ((s == text "true") || ((s == text "yes") || (s == text "on")))
    then some true
    else if (s == text "0") || ((s == text "false") || ((s == text "no") || (s == text "off")))
    then some false
    else none

-- What is parsed, or the error that names the variable.
abbrev pub parsed {ℓ} : {A : Type ℓ} → Option A → Text → Text → Result A ConfigError
parsed (some a) name reason = ok a
parsed none name reason = err (parse_failed name reason)

module _ (debug : Text → Text) (look : Lookup) where
  abbrev parse_error : Text → Text → Text
  parse_error type_name raw = text "无法按 " ++ (type_name ++ (text " 解析: " ++ debug raw))

  unfoldable pub env_parse : ℕ → Text → ℕ → Text → Result ℕ ConfigError
  unfolding parse_unsigned
  env_parse w name default type_name = elim (look name) [
    | none ↦ ok default
    | some raw ↦ parsed (parse_unsigned w (trim raw)) name (parse_error type_name raw)
  ]

  unfoldable pub env_bool : Text → Bool → Result Bool ConfigError
  unfolding parse_bool to_ascii_lowercase
  env_bool name default = elim (look name) [
    | none ↦ ok default
    | some raw ↦
        let lowered = to_ascii_lowercase (trim raw) in
        parsed (parse_bool lowered) name (parse_error (text "bool") lowered)
  ]

  unfoldable pub env_u16 : Text → ℕ → Result ℕ ConfigError
  unfolding env_parse
  env_u16 name default = env_parse 16 name default (text "u16")

  unfoldable pub env_u32 : Text → ℕ → Result ℕ ConfigError
  unfolding env_parse
  env_u32 name default = env_parse 32 name default (text "u32")

  unfoldable pub env_u64 : Text → ℕ → Result ℕ ConfigError
  unfolding env_parse
  env_u64 name default = env_parse 64 name default (text "u64")

  -- The server runs on 64-bit machines.
  unfoldable pub env_usize : Text → ℕ → Result ℕ ConfigError
  unfolding env_parse
  env_usize name default = env_parse 64 name default (text "usize")
