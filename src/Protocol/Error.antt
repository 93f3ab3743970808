-- ===== src/Protocol/Error.antt =====
-- crates/protocol/src/error.rs: the errors of the protocol layer.
use longship_x.Prelude.{ℕ}
use longship_x.Prelude.Text.{Text}

pub data ProtocolError : Type 0 where
  decode_error : Text → ProtocolError
  encode_error : Text → ProtocolError
  unsupported_opcode : ℕ → ProtocolError
  handler_error : Text → ProtocolError
