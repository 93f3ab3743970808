-- ===== src/Net/Codec/Wire.antt =====
-- The bytes of one frame: big-endian numbers, and what the encoder puts on the wire.
use longship_x.Prelude.{ℕ, ◌%◌, ◌^◌, ◌≤◌, ◌<◌, ◌≡◌, ok, err, List, ◌++◌, length, take, drop, arith}
use longship_x.Net.Error.{frame_too_large}
use longship_x.Net.Codec.{
  Frame, wire_len, u32_to_be_bytes, u16_to_be_bytes, from_be_bytes, encode_frame, decode_wire_len,
  min_frame_len,
}

pub u32_be : (n : ℕ) → from_be_bytes 0 (u32_to_be_bytes n) ≡ n % 2 ^ 32
unfolding from_be_bytes u32_to_be_bytes
u32_be n = omega arith

pub u16_be : (n : ℕ) → n < 65536 → from_be_bytes 0 (u16_to_be_bytes n) ≡ n
unfolding from_be_bytes u16_to_be_bytes
u16_be n h = omega arith

pub encode_frame_parts :
    (f : Frame) (max : ℕ) (bytes : List ℕ)
    → encode_frame f max ≡ ok bytes
    → (wire_len f ≤ max)
      × (bytes ≡ u32_to_be_bytes (wire_len f) ++ (u16_to_be_bytes f.opcode ++ f.payload))
unfolding encode_frame
encode_frame_parts f max bytes h = ground arith

pub encode_frame_fits :
    (f : Frame) (max : ℕ)
    → wire_len f ≤ max
    → encode_frame f max
      ≡ ok (u32_to_be_bytes (wire_len f) ++ (u16_to_be_bytes f.opcode ++ f.payload))
unfolding encode_frame
encode_frame_fits f max h = ground arith

pub encode_frame_too_large :
    (f : Frame) (max : ℕ)
    → max < wire_len f
    → encode_frame f max ≡ err (frame_too_large (wire_len f) max)
unfolding encode_frame
encode_frame_too_large f max h = ground arith

-- The length that an encoded frame announces is its length modulo 2^32, and the bytes that follow
-- the prefix are as many as the frame's length.
pub encode_frame-prefix :
    (f : Frame) (max : ℕ) (bytes : List ℕ)
    → encode_frame f max ≡ ok bytes
    → (from_be_bytes 0 (take 4 bytes) ≡ wire_len f % 2 ^ 32) × (length (drop 4 bytes) ≡ wire_len f)
unfolding u32_to_be_bytes u16_to_be_bytes
encode_frame-prefix f max bytes h =
    rw (encode_frame_parts f max bytes h).1 (u32_be (wire_len f), omega arith)

pub decode_wire_len_ok :
    (prefix : List ℕ) (max n : ℕ)
    → decode_wire_len prefix max ≡ ok n
    → (n ≡ from_be_bytes 0 prefix) × (min_frame_len ≤ n) × (n ≤ max)
unfolding decode_wire_len
decode_wire_len_ok prefix max n h = ground arith

pub decode_wire_len_fits :
    (prefix : List ℕ) (max n : ℕ)
    → from_be_bytes 0 prefix ≡ n
    → min_frame_len ≤ n
    → n ≤ max
    → decode_wire_len prefix max ≡ ok n
unfolding decode_wire_len
decode_wire_len_fits prefix max n e lo hi = ground arith
