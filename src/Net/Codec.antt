-- ===== src/Net/Codec.antt =====
-- crates/net-kit/src/codec.rs, and the loop of the writer task of crates/net-kit/src/connection.rs.
-- A frame on the wire is a 4-byte big-endian length, a 2-byte big-endian opcode and the payload.
pub mod Wire
pub mod Frames
mod Tests
use longship_x.Prelude.{
  ℕ, ◌+◌, ◌-◌, ◌*◌, ◌/◌, ◌%◌, ◌^◌, Option, none, some, Result, ok, err, ◌>>=◌, ◌>>◌, fail_if,
  map_err, List, [], ◌∷◌, ◌++◌, length, ltb, if◌then◌else◌,
}
use longship_x.Prelude.Text.{text, decimal}
use longship_x.Net.Error.{NetError, io, frame_too_large, malformed, unexpected_eof, IoKind}
use longship_x.Net.Stream.{AsyncRead, AsyncWrite}

abbrev pub length_prefix_bytes : ℕ
length_prefix_bytes = 4

abbrev pub opcode_bytes : ℕ
opcode_bytes = 2

abbrev pub min_frame_len : ℕ
min_frame_len = opcode_bytes

pub record Frame : Type 0 where
  pub opcode : ℕ
  pub payload : List ℕ

abbrev pub wire_len : Frame → ℕ
wire_len f = opcode_bytes + length f.payload

-- `(n as u32).to_be_bytes()`: the cast keeps the low 32 bits.
unfoldable pub u32_to_be_bytes : ℕ → List ℕ
u32_to_be_bytes n = (n / 16777216) % 256 ∷ (n / 65536) % 256 ∷ (n / 256) % 256 ∷ n % 256 ∷ []

unfoldable pub u16_to_be_bytes : ℕ → List ℕ
u16_to_be_bytes n = (n / 256) % 256 ∷ n % 256 ∷ []

-- `from_be_bytes`, for either width.
unfoldable pub from_be_bytes : ℕ → List ℕ → ℕ
from_be_bytes acc [] = acc
from_be_bytes acc (b ∷ bs) = from_be_bytes (acc * 256 + b) bs

unfoldable pub encode_frame : Frame → ℕ → Result (List ℕ) NetError
encode_frame f max_frame_size = do
  fail_if (ltb max_frame_size (wire_len f)) (frame_too_large (wire_len f) max_frame_size)
  fail_if (ltb (wire_len f) min_frame_len) (malformed (text "帧体必须包含 opcode"))
  ok (u32_to_be_bytes (wire_len f) ++ (u16_to_be_bytes f.opcode ++ f.payload))

unfoldable pub decode_wire_len : List ℕ → ℕ → Result ℕ NetError
decode_wire_len prefix max_frame_size = do
  let declared = from_be_bytes 0 prefix
  fail_if (ltb declared min_frame_len)
      (malformed (text "帧长 " ++ (decimal declared ++ (text " 小于最小值 " ++ decimal min_frame_len))))
  fail_if (ltb max_frame_size declared) (frame_too_large declared max_frame_size)
  ok declared

module _ (r : AsyncRead) where
  open r use {Reader, read_exact}

  -- The bytes of the opcode and of the payload, and what the frame is made of.
  unfoldable pub read_body : ℕ → Reader → Result (Option Frame) NetError × Reader
  read_body len s =
      let (op, s') = read_exact opcode_bytes s in
      let (body, s'') = read_exact (len - opcode_bytes) s' in
      elim op [
        | err kind ↦ (err (io kind), s')
        | ok opcode_buf ↦ elim body [
          | err kind ↦ (err (io kind), s'')
          | ok payload ↦
              (ok (some (record { opcode = from_be_bytes 0 opcode_buf; payload = payload })), s'')
        ]
      ]

  abbrev prefix_error : IoKind → Result (Option Frame) NetError
  prefix_error unexpected_eof = ok none
  prefix_error kind = err (io kind)

  unfoldable pub read_frame : Reader → ℕ → Result (Option Frame) NetError × Reader
  read_frame s max_frame_size =
      let (first, s') = read_exact length_prefix_bytes s in
      elim first [
        | err kind ↦ (prefix_error kind, s')
        | ok prefix ↦ elim (decode_wire_len prefix max_frame_size) [
          | err e ↦ (err e, s')
          | ok len ↦ read_body len s'
        ]
      ]

module _ (w : AsyncWrite) where
  open w use {Writer, write_all}

  unfoldable pub write_frame : Frame → ℕ → Writer → Result (Unit {0}) NetError × Writer
  write_frame f max_frame_size s = elim (encode_frame f max_frame_size) [
    | err e ↦ (err e, s)
    | ok bytes ↦ let (out, s') = write_all bytes s in (map_err io out, s')
  ]

  -- `write_task` over the frames that its queue hands out: a frame that does not encode is skipped,
  -- and a failed write ends the task.
  unfoldable pub write_task : List Frame → ℕ → Writer → Writer
  write_task [] max_frame_size s = s
  write_task (f ∷ fs) max_frame_size s = elim (encode_frame f max_frame_size) [
    | err e ↦ write_task fs max_frame_size s
    | ok bytes ↦
        let (out, s') = write_all bytes s in
        let rest = write_task fs max_frame_size s' in elim out [ ok _ ↦ rest | err kind ↦ s' ]
  ]
