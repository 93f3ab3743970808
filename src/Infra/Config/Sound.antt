-- ===== src/Infra/Config/Sound.antt =====
-- crates/infrastructure/src/config.rs: what a configuration that was read is, and what an error is about.
use longship_x.Prelude.{
  ℕ, ◌<◌, ◌^◌, ◌≡◌, ◌≢◌, sym, ap, ◌∙◌, ◌⊎◌, inl, inr, Bool, true, false, ◌||◌, Option, none, some,
  Result, ok, err, List, All, contains, [], ◌∷◌, ◌>>=◌, ◌==◌, Option-cases, if◌then◌else◌, nat_eq,
  arith,
}
use longship_x.Prelude.Map.{Map, lookup}
use longship_x.Prelude.Text.{Text, text, text_eq, text_beq_iff, trim, decimal}
use longship_x.Infra.Config.Decimals.{parse_unsigned-decimal}
use longship_x.Infra.Config.{ConfigError, parse_failed, invalid}
use longship_x.Infra.Config.Env.{
  Lookup, below, digits_from, parse_unsigned, parse_bool, to_ascii_lowercase, env_parse, env_bool,
  env_u16, env_u32, env_u64, env_usize,
}

abbrev pub Word : ℕ → ℕ → Type 0
Word w n = n < 2 ^ w

-- The variables that are numbers, with the widths of their types, and those that are switches.
abbrev pub numbers : Map Text ℕ
numbers =
    (text "SERVER_WRITE_DRAIN_TIMEOUT_MS", 64)
    ∷ (text "SERVER_MAX_CONNECTIONS", 64)
    ∷ (text "SERVER_CONNECTION_BACKLOG", 32)
    ∷ (text "SERVER_ACCEPT_CONCURRENCY", 32)
    ∷ (text "SERVER_TCP_READ_BUFFER_SIZE", 64)
    ∷ (text "SERVER_TCP_WRITE_BUFFER_SIZE", 64)
    ∷ (text "SERVER_CHANNEL_PER_CONN_SIZE", 64)
    ∷ (text "SERVER_CHANNEL_PER_ROOM_SIZE", 64)
    ∷ (text "SERVER_MAX_FRAME_SIZE", 64)
    ∷ (text "SERVER_HEARTBEAT_INTERVAL_SECS", 64)
    ∷ (text "SERVER_HEARTBEAT_TIMEOUT_SECS", 64)
    ∷ (text "SERVER_UNAUTH_TIMEOUT_SECS", 64)
    ∷ (text "SERVER_UNAUTH_MAX_PER_IP", 64)
    ∷ (text "SERVER_TCP_KEEPALIVE_SECS", 64)
    ∷ (text "SERVER_RATE_LIMIT_PER_CONN", 64)
    ∷ (text "SERVER_RATE_LIMIT_BURST", 64)
    ∷ (text "DATABASE_MAX_CONNECTIONS", 32)
    ∷ (text "DATABASE_MIN_CONNECTIONS", 32)
    ∷ (text "DATABASE_CONNECT_TIMEOUT_SECS", 64)
    ∷ (text "DATABASE_IDLE_TIMEOUT_SECS", 64)
    ∷ (text "REDIS_POOL_MAX_SIZE", 64)
    ∷ (text "REDIS_DEFAULT_TTL_SECS", 64)
    ∷ (text "REDIS_CONNECT_TIMEOUT_SECS", 64)
    ∷ (text "METRICS_PORT", 16)
    ∷ (text "APP_SESSION_TOKEN_TTL_SECS", 64)
    ∷ (text "APP_PASSWORD_ITERATIONS", 32)
    ∷ (text "APP_PASSWORD_MEMORY_KB", 32)
    ∷ (text "APP_PASSWORD_PARALLELISM", 32)
    ∷ (text "APP_PASSWORD_MAX_CONCURRENCY", 64)
    ∷ (text "APP_MAX_PLAYERS_PER_ROOM", 32)
    ∷ (text "APP_SHUTDOWN_TIMEOUT_SECS", 64)
    ∷ []

abbrev pub switches : List Text
switches = text "SERVER_TCP_NODELAY" ∷ text "SERVER_RATE_LIMIT_ENABLED" ∷ text "OTEL_ENABLED" ∷ []

-- What a switch may be set to, in any case.
abbrev pub words : List Text
words =
    text "1"
    ∷ text "true"
    ∷ text "yes"
    ∷ text "on"
    ∷ text "0"
    ∷ text "false"
    ∷ text "no"
    ∷ text "off"
    ∷ []

-- No decimal number of w bits.
abbrev pub NoNumber : ℕ → Text → Type 0
NoNumber w s = (parse_unsigned w s ≡ none) × ((n : ℕ) → n < 2 ^ w → s ≢ decimal n)

-- What an error says: the variable that it names is set, to something that this variable may not be.
abbrev pub Blamed : Lookup → ConfigError → Type 0
Blamed look (parse_failed name reason) =
    (raw : Text) × (look name ≡ some raw)
    × (((w : ℕ) × (lookup name numbers ≡ some w) × NoNumber w (trim raw))
        ⊎ ((contains switches name ≡ true)
            × All (λ word. to_ascii_lowercase (trim raw) ≢ word) words))
Blamed look (invalid name reason) =
    (raw : Text) × (look name ≡ some raw)
    × (name ≡ text "TLS_MIN_VERSION")
    × ((raw == text "TLSv1.3") ≡ false)

no_number : (w : ℕ) (s : Text) → parse_unsigned w s ≡ none → NoNumber w s
no_number w s bad = (
  bad,
  λ n small e.
      absurd (
        none_some n
          (sym bad ∙ (ap (λ x. parse_unsigned w x) e ∙ parse_unsigned-decimal w n small))),
)
  where
    none_some : (n : ℕ) → Path (Option ℕ) none (some n) → ⊥
    none_some n h = ground (arith, h)

neither :
    (x y : Bool)
    → Path (Option Bool) (if x then some true else if y then some false else none) none
    → (x ≡ false) × (y ≡ false)
neither x y h = ground (arith, h)

none_of_four :
    (a b c d : Bool)
    → (a || (b || (c || d))) ≡ false
    → (a ≡ false) × (b ≡ false) × (c ≡ false) × (d ≡ false)
none_of_four a b c d h = ground (arith, h)

differs : (s t : Text) → (s == t) ≡ false → s ≢ t
differs s t h e = absurd (ground (arith, h, (text_beq_iff s t).1 e))

no_word : (s : Text) → parse_bool s ≡ none → All (λ word. s ≢ word) words
unfolding parse_bool
no_word s h =
    let (yes_none, no_none) = neither _ _ h in
    let (a, b, c, d) = none_of_four _ _ _ _ yes_none in
    let (e, f, g, i) = none_of_four _ _ _ _ no_none in
    (
      differs s _ a,
      (
        differs s _ b,
        (
          differs s _ c,
          (differs s _ d, (differs s _ e, (differs s _ f, (differs s _ g, (differs s _ i, tt))))),
        ),
      ),
    )

-- A property of the value and of the error.
abbrev pub Holds :
    {A : Type 0} → (A → Type 0) → (ConfigError → Type 0) → Result A ConfigError → Type 0
Holds P Q (ok a) = P a
Holds P Q (err e) = Q e

pub and_then :
    {A B : Type 0} (P : A → Type 0) (R : B → Type 0) (Q : ConfigError → Type 0)
    (m : Result A ConfigError) (f : A → Result B ConfigError)
    → Holds P Q m
    → ((a : A) → P a → Holds R Q (f a))
    → Holds R Q (m >>= f)
and_then P R Q (ok a) f h k = k a h
and_then P R Q (err e) f h k = h

below-lt : (limit : ℕ) (o : Option ℕ) (n : ℕ) → below limit o ≡ some n → n < limit
below-lt limit none n h = absurd (ground (arith, h))
below-lt limit (some k) n h = ground (arith, h)

pub parse_unsigned-Word : (w : ℕ) (s : Text) (n : ℕ) → parse_unsigned w s ≡ some n → Word w n
unfolding parse_unsigned
parse_unsigned-Word w [] n h = absurd (ground (arith, h))
parse_unsigned-Word w (c ∷ []) n h = below-lt (2 ^ w) (digits_from 0 (c ∷ [])) n h
parse_unsigned-Word w (c ∷ d ∷ s) n h =
    below-lt (2 ^ w) (digits_from 0 (if c == 43 then d ∷ s else c ∷ d ∷ s)) n h

module _ (debug : Text → Text) (look : Lookup) where
  pub env_parse-Word :
      (w : ℕ) (name : Text) (default : ℕ) (type_name : Text)
      → Word w default
      → lookup name numbers ≡ some w
      → Holds (Word w) (Blamed look) (env_parse debug look w name default type_name)
  unfolding env_parse
  env_parse-Word w name default type_name small listed = elim (Option-cases (look name)) [
    | inl unset ↦ rw (unset, env_parse) small
    | inr (raw, set) ↦ elim (Option-cases (parse_unsigned w (trim raw))) [
      | inl bad ↦ rw (set, env_parse, bad) (raw, set, inl (w, listed, no_number w (trim raw) bad))
      | inr (n, good) ↦ rw (set, env_parse, good) (parse_unsigned-Word w (trim raw) n good)
    ]
  ]

  env_bool-Holds :
      (name : Text) (default : Bool)
      → contains switches name ≡ true
      → Holds (λ (b : Bool). Unit {0}) (Blamed look) (env_bool debug look name default)
  unfolding env_bool
  env_bool-Holds name default listed = elim (Option-cases (look name)) [
    | inl unset ↦ rw (unset, env_bool) tt
    | inr (raw, set) ↦ elim (Option-cases (parse_bool (to_ascii_lowercase (trim raw)))) [
      | inl bad ↦ rw (set, env_bool, bad) (raw, set, inr (listed, no_word _ bad))
      | inr (b, good) ↦ rw (set, env_bool, good) tt
    ]
  ]

  module _ {B : Type 0} (R : B → Type 0) where
    pub then_u16 :
        (name : Text) (default : ℕ) (f : ℕ → Result B ConfigError)
        → Word 16 default
        → lookup name numbers ≡ some 16
        → ((n : ℕ) → Word 16 n → Holds R (Blamed look) (f n))
        → Holds R (Blamed look) (env_u16 debug look name default >>= f)
    unfolding env_u16
    then_u16 name default f small listed k =
        and_then (Word 16) R (Blamed look) (env_u16 debug look name default) f
          (env_parse-Word 16 name default (text "u16") small listed) k

    pub then_u32 :
        (name : Text) (default : ℕ) (f : ℕ → Result B ConfigError)
        → Word 32 default
        → lookup name numbers ≡ some 32
        → ((n : ℕ) → Word 32 n → Holds R (Blamed look) (f n))
        → Holds R (Blamed look) (env_u32 debug look name default >>= f)
    unfolding env_u32
    then_u32 name default f small listed k =
        and_then (Word 32) R (Blamed look) (env_u32 debug look name default) f
          (env_parse-Word 32 name default (text "u32") small listed) k

    pub then_u64 :
        (name : Text) (default : ℕ) (f : ℕ → Result B ConfigError)
        → Word 64 default
        → lookup name numbers ≡ some 64
        → ((n : ℕ) → Word 64 n → Holds R (Blamed look) (f n))
        → Holds R (Blamed look) (env_u64 debug look name default >>= f)
    unfolding env_u64
    then_u64 name default f small listed k =
        and_then (Word 64) R (Blamed look) (env_u64 debug look name default) f
          (env_parse-Word 64 name default (text "u64") small listed) k

    pub then_usize :
        (name : Text) (default : ℕ) (f : ℕ → Result B ConfigError)
        → Word 64 default
        → lookup name numbers ≡ some 64
        → ((n : ℕ) → Word 64 n → Holds R (Blamed look) (f n))
        → Holds R (Blamed look) (env_usize debug look name default >>= f)
    unfolding env_usize
    then_usize name default f small listed k =
        and_then (Word 64) R (Blamed look) (env_usize debug look name default) f
          (env_parse-Word 64 name default (text "usize") small listed) k

    pub then_bool :
        (name : Text) (default : Bool) (f : Bool → Result B ConfigError)
        → contains switches name ≡ true
        → ((b : Bool) → Holds R (Blamed look) (f b))
        → Holds R (Blamed look) (env_bool debug look name default >>= f)
    then_bool name default f listed k =
        and_then (λ b. Unit {0}) R (Blamed look) (env_bool debug look name default) f
          (env_bool-Holds name default listed) (λ b h. k b)
