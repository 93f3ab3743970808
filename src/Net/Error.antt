-- ===== src/Net/Error.antt =====
-- crates/net-kit/src/error.rs: the errors of the network layer.
use longship_x.Prelude.{ℕ, Bool, true, false}
use longship_x.Prelude.Text.{Text}

-- `std::io::ErrorKind`: the kinds that the source tells apart, and one for the rest.
pub data IoKind : Type 0 where
  unexpected_eof connection_reset connection_aborted broken_pipe other : IoKind

pub data NetError : Type 0 where
  io : IoKind → NetError
  tls : Text → NetError
  tls_config : Text → NetError
  frame_too_large : ℕ → ℕ → NetError
  malformed : Text → NetError
  queue_full : NetError
  closed : NetError

abbrev pub ends_stream : IoKind → Bool
ends_stream unexpected_eof = true
ends_stream connection_reset = true
ends_stream connection_aborted = true
ends_stream broken_pipe = true
ends_stream other = false

unfoldable pub is_disconnect : NetError → Bool
is_disconnect (io kind) = ends_stream kind
is_disconnect closed = true
is_disconnect (tls reason) = true
is_disconnect (tls_config reason) = false
is_disconnect (frame_too_large declared max) = false
is_disconnect (malformed reason) = false
is_disconnect queue_full = false
