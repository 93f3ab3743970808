-- ===== src/Infra/Config/Tests.antt =====
-- crates/infrastructure/src/config.rs: the table of defaults, and small environments.
use longship_x.Prelude.{◌≡◌, refl, ◌↔◌, true, false, none, some, ok, is_ok, arith, if◌then◌else◌}
use longship_x.Prelude.Text.{Text, text, text_eq, text_beq}
use longship_x.Infra.Config.{Config, password_params}
use longship_x.Infra.Config.Env.{Lookup, parse_unsigned}
use longship_x.Infra.Config.Sections.{from_lookup, database_url_placeholder}
use longship_x.Infra.Config.Sound.{Blamed, Holds}
use longship_x.Infra.Config.Fits.{Fits, from_lookup-Fits}
use longship_x.Infra.Config.Validation.{
  validate, IsConsistent, validate-IsConsistent, is_database_url_placeholder,
}

abbrev quoted : Text → Text
quoted s = s

abbrev unset : Lookup
unset name = none

abbrev defaults : Config
defaults = record {
  network = record {
    write_drain_timeout_ms = 1000;
    tcp_bind_addr = text "0.0.0.0:8080";
    http_bind_addr = text "0.0.0.0:8081";
    http_redirect_addr = none;
    wss_bind_addr = text "0.0.0.0:8082";
    max_connections = 10000;
    backlog = 1024;
    accept_concurrency = 256;
    read_buffer_size = 16384;
    write_buffer_size = 16384;
    channel_per_conn = 256;
    channel_per_room = 512;
    max_frame_size = 65536;
    heartbeat_interval_secs = 20;
    heartbeat_timeout_secs = 60;
    unauth_timeout_secs = 10;
    unauth_max_per_ip = 5;
    tcp_nodelay = true;
    tcp_keepalive_secs = 30;
  };
  rate_limit = record { per_conn = 100; burst = 10; enabled = true };
  tls = record {
    cert_path = text "./certs/server.crt";
    key_path = text "./certs/server.key";
    ca_path = none;
    min_version = text "TLSv1.3";
  };
  database = record {
    url = database_url_placeholder;
    max_connections = 30;
    min_connections = 5;
    connect_timeout_secs = 5;
    idle_timeout_secs = 300;
    sqlx_log_level = text "warn";
  };
  redis = record {
    url = text "redis://127.0.0.1:6379";
    pool_max_size = 10;
    default_ttl_secs = 604800;
    connect_timeout_secs = 2;
  };
  log = record {
    level = text "info";
    format = text "json";
    otel_enabled = false;
    metrics_port = 9090;
  };
  app = record {
    session_token_ttl_secs = 604800;
    password_iterations = 3;
    password_memory_kb = 19456;
    password_parallelism = 4;
    password_max_concurrency = 2;
    max_players_per_room = 64;
    shutdown_timeout_secs = 30;
  };
}

nothing_set : from_lookup quoted unset ≡ ok defaults
unfolding from_lookup text
nothing_set = refl

defaults_pass : is_ok (validate 1000 defaults) ≡ true
unfolding validate
defaults_pass = refl

defaults_placeholder : is_database_url_placeholder defaults ≡ true
unfolding is_database_url_placeholder
defaults_placeholder = refl

argon_parameters : password_params defaults.app ≡ (19456, 3, 4)
unfolding password_params
argon_parameters = refl

signed_number : parse_unsigned 16 (text "+80") ≡ some 80
unfolding parse_unsigned text
signed_number = refl

too_large : parse_unsigned 16 (text "65536") ≡ none
unfolding parse_unsigned text
too_large = refl

abbrev small_frames : Lookup
small_frames name =
    if text_beq name (text "SERVER_MAX_FRAME_SIZE") then some (text "4096") else none

from_lookup-Fits_example : Holds Fits (Blamed small_frames) (from_lookup quoted small_frames)
from_lookup-Fits_example = from_lookup-Fits quoted small_frames

validate-IsConsistent_example : (is_ok (validate 1000 defaults) ≡ true) ↔ IsConsistent 1000 defaults
validate-IsConsistent_example = validate-IsConsistent 1000 defaults (omega arith)
