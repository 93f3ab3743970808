-- ===== src/Infra/Config/Fits.antt =====
-- crates/infrastructure/src/config.rs: every number of a configuration that was read fits its type.
use longship_x.Prelude.{
  ◌≡◌, refl, Bool, true, false, not, Option, none, some, Result, ◌>>◌, ◌==◌, fail_if, nat_eq, arith,
}
use longship_x.Prelude.Text.{Text, text, text_eq, text_beq_iff}
use longship_x.Infra.Config.{
  Config, NetworkConfig, RateLimitConfig, TlsConfig, DatabaseConfig, RedisConfig, LogConfig,
  AppConfig, ConfigError,
}
use longship_x.Infra.Config.Env.{Lookup, or_default, env_str}
use longship_x.Infra.Config.Sections.{
  network_from_lookup, rate_limit_from_lookup, tls_from_lookup, database_from_lookup,
  redis_from_lookup, log_from_lookup, app_from_lookup, from_lookup,
}
use longship_x.Infra.Config.Sound.{
  Word, Blamed, Holds, and_then, then_u16, then_u32, then_u64, then_usize, then_bool,
}

abbrev pub NetworkFits : NetworkConfig → Type 0
NetworkFits c =
    Word 64 c.write_drain_timeout_ms
    × Word 64 c.max_connections
    × Word 32 c.backlog
    × Word 32 c.accept_concurrency
    × Word 64 c.read_buffer_size
    × Word 64 c.write_buffer_size
    × Word 64 c.channel_per_conn
    × Word 64 c.channel_per_room
    × Word 64 c.max_frame_size
    × Word 64 c.heartbeat_interval_secs
    × Word 64 c.heartbeat_timeout_secs
    × Word 64 c.unauth_timeout_secs
    × Word 64 c.unauth_max_per_ip
    × Word 64 c.tcp_keepalive_secs

abbrev pub RateLimitFits : RateLimitConfig → Type 0
RateLimitFits c = Word 64 c.per_conn × Word 64 c.burst

abbrev pub DatabaseFits : DatabaseConfig → Type 0
DatabaseFits c =
    Word 32 c.max_connections
    × Word 32 c.min_connections
    × Word 64 c.connect_timeout_secs
    × Word 64 c.idle_timeout_secs

abbrev pub RedisFits : RedisConfig → Type 0
RedisFits c = Word 64 c.pool_max_size × Word 64 c.default_ttl_secs × Word 64 c.connect_timeout_secs

abbrev pub LogFits : LogConfig → Type 0
LogFits c = Word 16 c.metrics_port

abbrev pub AppFits : AppConfig → Type 0
AppFits c =
    Word 64 c.session_token_ttl_secs
    × Word 32 c.password_iterations
    × Word 32 c.password_memory_kb
    × Word 32 c.password_parallelism
    × Word 64 c.password_max_concurrency
    × Word 32 c.max_players_per_room
    × Word 64 c.shutdown_timeout_secs

-- Only TLS 1.3 is ever configured.
abbrev pub TlsFits : TlsConfig → Type 0
TlsFits c = c.min_version ≡ text "TLSv1.3"

abbrev pub Fits : Config → Type 0
Fits c =
    NetworkFits c.network
    × RateLimitFits c.rate_limit
    × TlsFits c.tls
    × DatabaseFits c.database
    × RedisFits c.redis
    × LogFits c.log
    × AppFits c.app

checked :
    {A : Type 0} (P : A → Type 0) (Q : ConfigError → Type 0) (b : Bool) (e : ConfigError)
    (m : Result A ConfigError)
    → (b ≡ true → Holds P Q m)
    → (b ≡ false → Q e)
    → Holds P Q (fail_if (not b) e >> m)
checked P Q true e m k h = k refl
checked P Q false e m k h = h refl

-- A version other than the default has been set.
version_set :
    (o : Option Text)
    → (or_default o (text "TLSv1.3") == text "TLSv1.3") ≡ false
    → (raw : Text) × (o ≡ some raw) × ((raw == text "TLSv1.3") ≡ false)
unfolding text
version_set none h = absurd (ground (arith, h))
version_set (some raw) h = (raw, refl, h)

module _ (debug : Text → Text) (look : Lookup) where
  network_from_lookup-NetworkFits : Holds NetworkFits (Blamed look) (network_from_lookup debug look)
  unfolding network_from_lookup text
  network_from_lookup-NetworkFits =
      then_u64 debug look NetworkFits (text "SERVER_WRITE_DRAIN_TIMEOUT_MS") 1000 _ (omega arith)
        refl
        (λ x0 h0.
          then_usize debug look NetworkFits (text "SERVER_MAX_CONNECTIONS") 10000 _ (omega arith)
            refl
            (λ x1 h1.
              then_u32 debug look NetworkFits (text "SERVER_CONNECTION_BACKLOG") 1024 _
                (omega arith) refl
                (λ x2 h2.
                  then_u32 debug look NetworkFits (text "SERVER_ACCEPT_CONCURRENCY") 256 _
                    (omega arith) refl
                    (λ x3 h3.
                      then_usize debug look NetworkFits (text "SERVER_TCP_READ_BUFFER_SIZE") 16384 _
                        (omega arith) refl
                        (λ x4 h4.
                          then_usize debug look NetworkFits (text "SERVER_TCP_WRITE_BUFFER_SIZE")
                            16384 _ (omega arith) refl
                            (λ x5 h5.
                              then_usize debug look NetworkFits
                                (text "SERVER_CHANNEL_PER_CONN_SIZE") 256 _ (omega arith) refl
                                (λ x6 h6.
                                  then_usize debug look NetworkFits
                                    (text "SERVER_CHANNEL_PER_ROOM_SIZE") 512 _ (omega arith) refl
                                    (λ x7 h7.
                                      then_usize debug look NetworkFits
                                        (text "SERVER_MAX_FRAME_SIZE") 65536 _ (omega arith) refl
                                        (λ x8 h8.
                                          then_u64 debug look NetworkFits
                                            (text "SERVER_HEARTBEAT_INTERVAL_SECS") 20 _
                                            (omega arith) refl
                                            (λ x9 h9.
                                              then_u64 debug look NetworkFits
                                                (text "SERVER_HEARTBEAT_TIMEOUT_SECS") 60 _
                                                (omega arith) refl
                                                (λ x10 h10.
                                                  then_u64 debug look NetworkFits
                                                    (text "SERVER_UNAUTH_TIMEOUT_SECS") 10 _
                                                    (omega arith) refl
                                                    (λ x11 h11.
                                                      then_usize debug look NetworkFits
                                                        (text "SERVER_UNAUTH_MAX_PER_IP") 5 _
                                                        (omega arith) refl
                                                        (λ x12 h12.
                                                          then_bool debug look NetworkFits
                                                            (text "SERVER_TCP_NODELAY") true _ refl
                                                            (λ x13.
                                                            then_u64 debug look NetworkFits
                                                            (text "SERVER_TCP_KEEPALIVE_SECS") 30 _
                                                            (omega arith) refl
                                                            (λ x14 h14. (
                                                            h0, h1, h2, h3, h4, h5, h6, h7, h8, h9,
                                                            h10, h11, h12, h14,
                                                            ))))))))))))))))

  rate_limit_from_lookup-RateLimitFits :
      Holds RateLimitFits (Blamed look) (rate_limit_from_lookup debug look)
  unfolding rate_limit_from_lookup text
  rate_limit_from_lookup-RateLimitFits =
      then_u64 debug look RateLimitFits (text "SERVER_RATE_LIMIT_PER_CONN") 100 _ (omega arith) refl
        (λ x0 h0.
          then_u64 debug look RateLimitFits (text "SERVER_RATE_LIMIT_BURST") 10 _ (omega arith) refl
            (λ x1 h1.
              then_bool debug look RateLimitFits (text "SERVER_RATE_LIMIT_ENABLED") true _ refl
                (λ x2. (h0, h1))))

  database_from_lookup-DatabaseFits :
      Holds DatabaseFits (Blamed look) (database_from_lookup debug look)
  unfolding database_from_lookup text
  database_from_lookup-DatabaseFits =
      then_u32 debug look DatabaseFits (text "DATABASE_MAX_CONNECTIONS") 30 _ (omega arith) refl
        (λ x0 h0.
          then_u32 debug look DatabaseFits (text "DATABASE_MIN_CONNECTIONS") 5 _ (omega arith) refl
            (λ x1 h1.
              then_u64 debug look DatabaseFits (text "DATABASE_CONNECT_TIMEOUT_SECS") 5 _
                (omega arith) refl
                (λ x2 h2.
                  then_u64 debug look DatabaseFits (text "DATABASE_IDLE_TIMEOUT_SECS") 300 _
                    (omega arith) refl (λ x3 h3. (h0, h1, h2, h3)))))

  redis_from_lookup-RedisFits : Holds RedisFits (Blamed look) (redis_from_lookup debug look)
  unfolding redis_from_lookup text
  redis_from_lookup-RedisFits =
      then_usize debug look RedisFits (text "REDIS_POOL_MAX_SIZE") 10 _ (omega arith) refl (λ x0 h0.
        then_u64 debug look RedisFits (text "REDIS_DEFAULT_TTL_SECS") 604800 _ (omega arith) refl
          (λ x1 h1.
            then_u64 debug look RedisFits (text "REDIS_CONNECT_TIMEOUT_SECS") 2 _ (omega arith) refl
              (λ x2 h2. (h0, h1, h2))))

  log_from_lookup-LogFits : Holds LogFits (Blamed look) (log_from_lookup debug look)
  unfolding log_from_lookup text
  log_from_lookup-LogFits = then_bool debug look LogFits (text "OTEL_ENABLED") false _ refl (λ x0.
      then_u16 debug look LogFits (text "METRICS_PORT") 9090 _ (omega arith) refl (λ x1 h1. h1))

  app_from_lookup-AppFits : Holds AppFits (Blamed look) (app_from_lookup debug look)
  unfolding app_from_lookup text
  app_from_lookup-AppFits =
      then_u64 debug look AppFits (text "APP_SESSION_TOKEN_TTL_SECS") 604800 _ (omega arith) refl
        (λ x0 h0.
          then_u32 debug look AppFits (text "APP_PASSWORD_ITERATIONS") 3 _ (omega arith) refl
            (λ x1 h1.
              then_u32 debug look AppFits (text "APP_PASSWORD_MEMORY_KB") 19456 _ (omega arith) refl
                (λ x2 h2.
                  then_u32 debug look AppFits (text "APP_PASSWORD_PARALLELISM") 4 _ (omega arith)
                    refl
                    (λ x3 h3.
                      then_usize debug look AppFits (text "APP_PASSWORD_MAX_CONCURRENCY") 2 _
                        (omega arith) refl
                        (λ x4 h4.
                          then_u32 debug look AppFits (text "APP_MAX_PLAYERS_PER_ROOM") 64 _
                            (omega arith) refl
                            (λ x5 h5.
                              then_u64 debug look AppFits (text "APP_SHUTDOWN_TIMEOUT_SECS") 30 _
                                (omega arith) refl (λ x6 h6. (h0, h1, h2, h3, h4, h5, h6))))))))

  tls_from_lookup-TlsFits : Holds TlsFits (Blamed look) (tls_from_lookup debug look)
  unfolding tls_from_lookup
  tls_from_lookup-TlsFits =
      let version = env_str look (text "TLS_MIN_VERSION") (text "TLSv1.3") in
      checked TlsFits (Blamed look) (version == text "TLSv1.3") _ _
        (λ same. (text_beq_iff version (text "TLSv1.3")).0 same)
        (λ other.
          let (raw, set, differs) =
            version_set (look (text "TLS_MIN_VERSION")) (unfold env_str in other) in
          (raw, set, refl, differs))

  -- A configuration that was read has only numbers that fit their types and TLS 1.3. An error names a
  -- variable that is set, and to blame: a number that is set to no decimal number of its width, a
  -- switch that is set to none of its eight words, in any case of the letters, or the TLS version,
  -- set to another one. What is not set is never to blame.
  pub from_lookup-Fits : Holds Fits (Blamed look) (from_lookup debug look)
  unfolding from_lookup
  from_lookup-Fits =
      and_then NetworkFits Fits (Blamed look) _ _ network_from_lookup-NetworkFits (λ a ha.
        and_then RateLimitFits Fits (Blamed look) _ _ rate_limit_from_lookup-RateLimitFits (λ b hb.
          and_then TlsFits Fits (Blamed look) _ _ tls_from_lookup-TlsFits (λ c hc.
            and_then DatabaseFits Fits (Blamed look) _ _ database_from_lookup-DatabaseFits (λ d hd.
              and_then RedisFits Fits (Blamed look) _ _ redis_from_lookup-RedisFits (λ e he.
                and_then LogFits Fits (Blamed look) _ _ log_from_lookup-LogFits (λ f hf.
                  and_then AppFits Fits (Blamed look) _ _ app_from_lookup-AppFits
                    (λ g hg. (ha, hb, hc, hd, he, hf, hg))))))))
