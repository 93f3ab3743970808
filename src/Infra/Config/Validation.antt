-- ===== src/Infra/Config/Validation.antt =====
-- crates/infrastructure/src/config.rs: the check of a configuration before the server starts. The
-- largest number of permits of a semaphore is tokio's.
use longship_x.Prelude.{
  ℕ, ◌*◌, ◌^◌, ◌%◌, ◌<◌, ◌≤◌, ◌≡◌, ◌↔◌, ◌||◌, Bool, true, Result, ok, err, ltb, is_ok,
  if◌then◌else◌, nat_eq, ◌==◌, arith,
}
use longship_x.Prelude.Text.{text, text_eq}
use longship_x.Infra.Config.{Config, ConfigError, invalid}
use longship_x.Infra.Config.Sections.{database_url_placeholder}

unfoldable pub is_database_url_placeholder : Config → Bool
unfolding text
is_database_url_placeholder c = c.database.url == database_url_placeholder

module _ (max_permits : ℕ) where
  -- `2 * heartbeat_interval_secs` is a `u64`.
  unfoldable pub validate : Config → Result (Unit {0}) ConfigError
  validate c =
      if ltb c.network.heartbeat_timeout_secs ((2 * c.network.heartbeat_interval_secs) % 2 ^ 64)
      then err (invalid (text "SERVER_HEARTBEAT_TIMEOUT_SECS") (text "应至少为心跳间隔的 2 倍"))
      else if c.network.channel_per_conn == 0
      then err (invalid (text "SERVER_CHANNEL_PER_CONN_SIZE") (text "发送队列必须有界且大于 0(PRD 8.5)"))
      else if (c.app.password_max_concurrency == 0)
          || ltb max_permits c.app.password_max_concurrency
      then err (
          invalid (text "APP_PASSWORD_MAX_CONCURRENCY")
            (text "must be a positive semaphore capacity"))
      else if c.network.channel_per_room == 0
      then err (invalid (text "SERVER_CHANNEL_PER_ROOM_SIZE") (text "房间命令队列容量必须大于 0"))
      else ok tt

  -- What the server needs of its configuration.
  pub record IsConsistent (c : Config) : Type 0 where
    pub heartbeat : 2 * c.network.heartbeat_interval_secs ≤ c.network.heartbeat_timeout_secs
    pub outbound : 1 ≤ c.network.channel_per_conn
    pub hashing : 1 ≤ c.app.password_max_concurrency
    pub permits : c.app.password_max_concurrency ≤ max_permits
    pub commands : 1 ≤ c.network.channel_per_room

  -- A heartbeat interval whose double is a `u64` is validated exactly: the check passes if and only if the
  -- timeout is at least two intervals, both queues are bounded by a positive number, and the password
  -- hasher's permits are positive and no more than a semaphore can have.
  pub validate-IsConsistent :
      (c : Config)
      → 2 * c.network.heartbeat_interval_secs < 2 ^ 64
      → (is_ok (validate c) ≡ true) ↔ IsConsistent c
  unfolding validate
  validate-IsConsistent c small = (
    λ h. record {
      heartbeat = ground (arith, h, small);
      outbound = ground (arith, h);
      hashing = ground (arith, h);
      permits = ground (arith, h);
      commands = ground (arith, h);
    },
    λ v. ground (arith, v.heartbeat, v.outbound, v.hashing, v.permits, v.commands, small),
  )

  -- Above that the double wraps, and a timeout below the interval passes the check.
  pub validate-wrapped :
      (c : Config)
      → c.network.heartbeat_interval_secs ≡ 2 ^ 63
      → 1 ≤ c.network.channel_per_conn
      → 1 ≤ c.app.password_max_concurrency
      → c.app.password_max_concurrency ≤ max_permits
      → 1 ≤ c.network.channel_per_room
      → is_ok (validate c) ≡ true
  unfolding validate
  validate-wrapped c at_limit outbound hashing permits commands =
      ground (arith, at_limit, outbound, hashing, permits, commands)
