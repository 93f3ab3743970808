-- ===== src/Infra/Config.antt =====
-- crates/infrastructure/src/config.rs: the configuration that the server reads from its environment.
-- A number of w bits is a native number; what keeps it below 2 ^ w is proved, not assumed.
pub mod Env
pub mod Sections
pub mod Sound
pub mod Fits
pub mod Validation
pub mod Decimals
mod Tests
use longship_x.Prelude.{ℕ, Bool, Option, ◌++◌}
use longship_x.Prelude.Text.{Text, text, decimal}

pub record NetworkConfig : Type 0 where
  pub write_drain_timeout_ms : ℕ
  pub tcp_bind_addr : Text
  pub http_bind_addr : Text
  pub http_redirect_addr : Option Text
  pub wss_bind_addr : Text
  pub max_connections : ℕ
  pub backlog : ℕ
  pub accept_concurrency : ℕ
  pub read_buffer_size : ℕ
  pub write_buffer_size : ℕ
  pub channel_per_conn : ℕ
  pub channel_per_room : ℕ
  pub max_frame_size : ℕ
  pub heartbeat_interval_secs : ℕ
  pub heartbeat_timeout_secs : ℕ
  pub unauth_timeout_secs : ℕ
  pub unauth_max_per_ip : ℕ
  pub tcp_nodelay : Bool
  pub tcp_keepalive_secs : ℕ

pub record RateLimitConfig : Type 0 where
  pub per_conn : ℕ
  pub burst : ℕ
  pub enabled : Bool

pub record TlsConfig : Type 0 where
  pub cert_path : Text
  pub key_path : Text
  pub ca_path : Option Text
  pub min_version : Text

pub record DatabaseConfig : Type 0 where
  pub url : Text
  pub max_connections : ℕ
  pub min_connections : ℕ
  pub connect_timeout_secs : ℕ
  pub idle_timeout_secs : ℕ
  pub sqlx_log_level : Text

pub record RedisConfig : Type 0 where
  pub url : Text
  pub pool_max_size : ℕ
  pub default_ttl_secs : ℕ
  pub connect_timeout_secs : ℕ

pub record LogConfig : Type 0 where
  pub level : Text
  pub format : Text
  pub otel_enabled : Bool
  pub metrics_port : ℕ

pub record AppConfig : Type 0 where
  pub session_token_ttl_secs : ℕ
  pub password_iterations : ℕ
  pub password_memory_kb : ℕ
  pub password_parallelism : ℕ
  pub password_max_concurrency : ℕ
  pub max_players_per_room : ℕ
  pub shutdown_timeout_secs : ℕ

pub record Config : Type 0 where
  pub network : NetworkConfig
  pub rate_limit : RateLimitConfig
  pub tls : TlsConfig
  pub database : DatabaseConfig
  pub redis : RedisConfig
  pub log : LogConfig
  pub app : AppConfig

pub data ConfigError : Type 0 where
  parse_failed : Text → Text → ConfigError
  invalid : Text → Text → ConfigError

unfoldable pub password_params : AppConfig → ℕ × ℕ × ℕ
password_params app = (app.password_memory_kb, app.password_iterations, app.password_parallelism)

-- `Display for Config`, which shows no secret.
unfoldable pub show : Config → Text
show c =
    text "Config { tcp: "
    ++ (c.network.tcp_bind_addr
        ++ (text ", http: "
            ++ (c.network.http_bind_addr
                ++ (text ", max_frame: "
                    ++ (decimal c.network.max_frame_size
                        ++ (text ", max_conns: "
                            ++ (decimal c.network.max_connections
                                ++ (text ", db_max_conns: "
                                    ++ (decimal c.database.max_connections
                                        ++ (text ", metrics_port: "
                                            ++ (decimal c.log.metrics_port ++ text " }")))))))))))
