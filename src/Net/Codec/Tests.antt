-- ===== src/Net/Codec/Tests.antt =====
-- Frames on an in-memory stream, and the codec's theorems there.
use longship_x.Prelude.{
  ◌↔◌, ℕ, ◌≤◌, ◌<◌, ◌≡◌, refl, none, some, Result, ok, err, List, [], ◌∷◌, ◌++◌, length, take, drop,
  leb, if◌then◌else◌, arith,
}
use longship_x.Net.Error.{IoKind, unexpected_eof, frame_too_large, io}
use longship_x.Net.Stream.{AsyncRead, Sends, AsyncWrite, Accepts}
use longship_x.Net.Codec.{
  Frame, encode_frame, decode_wire_len, read_frame, read_body, write_task, u32_to_be_bytes,
  u16_to_be_bytes, from_be_bytes,
}
use longship_x.Net.Codec.Frames.{Delivers, read_frame-write_task, read_frame-none, read_frame-io}

-- A reader that holds all the bytes that its peer sends.
buffered_read : ℕ → List ℕ → Result (List ℕ) IoKind × List ℕ
buffered_read n s = if leb n (length s) then (ok (take n s), drop n s) else (err unexpected_eof, [])

abbrev buffer : AsyncRead
buffer = record { Reader = List ℕ; read_exact = buffered_read }

buffered_read_enough :
    (n : ℕ) (s : List ℕ)
    → n ≤ length s
    → ((buffered_read n s).0 ≡ ok (take n s)) × ((buffered_read n s).1 ≡ drop n s)
unfolding buffered_read
buffered_read_enough n s h = ground arith

buffered_read_short :
    (n : ℕ) (s : List ℕ) → length s < n → (buffered_read n s).0 ≡ err unexpected_eof
unfolding buffered_read
buffered_read_short n s h = ground arith

abbrev buffer-Sends : Sends buffer
buffer-Sends = record {
  remaining = λ s. s;
  read_enough = buffered_read_enough;
  read_short = buffered_read_short;
}

abbrev memory : AsyncWrite
memory = record { Writer = List ℕ; write_all = λ bytes s. (ok tt, s ++ bytes) }

abbrev memory-Accepts : Accepts memory
memory-Accepts = record {
  written = λ s. s;
  write_ok = λ bytes s. refl;
  write_appends = λ bytes s. refl;
}

abbrev hi : Frame
hi = record { opcode = 258; payload = 104 ∷ 105 ∷ [] }

abbrev big : Frame
big = record { opcode = 1; payload = 0 ∷ 0 ∷ 0 ∷ 0 ∷ 0 ∷ 0 ∷ 0 ∷ [] }

abbrev hi_bytes : List ℕ
hi_bytes = 0 ∷ 0 ∷ 0 ∷ 4 ∷ 1 ∷ 2 ∷ 104 ∷ 105 ∷ []

encode_hi : encode_frame hi 8 ≡ ok hi_bytes
unfolding encode_frame u32_to_be_bytes u16_to_be_bytes
encode_hi = refl

encode_big : encode_frame big 8 ≡ err (frame_too_large 9 8)
unfolding encode_frame
encode_big = refl

read_hi : read_frame buffer (hi_bytes ++ 9 ∷ []) 8 ≡ (ok (some hi), 9 ∷ [])
unfolding read_frame read_body buffered_read decode_wire_len from_be_bytes
read_hi = refl

written_twice : write_task memory (hi ∷ big ∷ hi ∷ []) 8 [] ≡ hi_bytes ++ hi_bytes
unfolding write_task encode_frame u32_to_be_bytes u16_to_be_bytes
written_twice = refl

read_frame-write_task_example :
    Delivers buffer buffer-Sends (hi_bytes ++ (hi_bytes ++ 7 ∷ [])) 8 (hi ∷ hi ∷ []) (7 ∷ [])
unfolding write_task encode_frame u32_to_be_bytes u16_to_be_bytes
read_frame-write_task_example =
    read_frame-write_task memory memory-Accepts buffer buffer-Sends (hi ∷ big ∷ hi ∷ []) 8 []
      (hi_bytes ++ (hi_bytes ++ 7 ∷ [])) (7 ∷ []) (omega arith) (omega arith) refl refl

read_frame-none_example :
    ((read_frame buffer (0 ∷ 0 ∷ []) 8).0 ≡ ok none) ↔ (length {A = ℕ} (0 ∷ 0 ∷ []) < 4)
read_frame-none_example = read_frame-none buffer buffer-Sends (0 ∷ 0 ∷ []) 8

read_frame-io_example :
    (read_frame buffer (0 ∷ 0 ∷ 0 ∷ 5 ∷ 0 ∷ 1 ∷ 9 ∷ []) 8).0 ≡ err (io unexpected_eof)
read_frame-io_example =
    read_frame-io buffer buffer-Sends (0 ∷ 0 ∷ 0 ∷ 5 ∷ 0 ∷ 1 ∷ 9 ∷ []) 8 5
      (unfold decode_wire_len from_be_bytes in refl) (omega arith) (omega arith)
