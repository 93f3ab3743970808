-- ===== src/Net/Codec/Frames.antt =====
-- Frames over a stream: what is written is read back, whatever follows it.
use longship_x.Prelude.{
  ℕ, ◌+◌, ◌-◌, ◌^◌, ◌≤◌, ◌<◌, ◌≡◌, ◌≢◌, ◌↔◌, refl, sym, ◌∙◌, ap, Bool, none, some, ok, err, List,
  [], ◌∷◌, ◌++◌, append_assoc, append-nil, length, length-append, take, drop, take_append,
  drop_append, leb, if◌then◌else◌, length-take_le, take-append-drop, Result-cases, All, retain,
  arith, Bool-cases, inl, inr,
}
use longship_x.Net.Error.{io, unexpected_eof}
use longship_x.Net.Stream.{AsyncRead, Sends, AsyncWrite, Accepts}
use longship_x.Net.Codec.{
  Frame, wire_len, u32_to_be_bytes, u16_to_be_bytes, encode_frame, decode_wire_len, min_frame_len,
  read_body, read_frame, write_task,
}
use longship_x.Net.Codec.Wire.{
  u32_be, u16_be, encode_frame_parts, encode_frame_fits, encode_frame_too_large, decode_wire_len_ok,
  decode_wire_len_fits,
}

-- An opcode that a `u16` holds.
abbrev pub IsWire : Frame → Type 0
IsWire f = f.opcode < 65536

module _ (r : AsyncRead) (sends : Sends r) where
  open r use {Reader, read_exact}
  open sends use {remaining, read_enough, read_short}

  -- A read of the bytes that stand at the front of the stream.
  read_front :
      (s : Reader) (bytes rest : List ℕ) (n : ℕ)
      → length bytes ≡ n
      → remaining s ≡ bytes ++ rest
      → ((read_exact n s).0 ≡ ok bytes) × (remaining (read_exact n s).1 ≡ rest)
  read_front s bytes rest n len e =
      let enough : n ≤ length (remaining s) = rw e (omega (arith, length-append bytes rest, len)) in
      let both = read_enough n s enough in
      let front : take n (remaining s) ≡ bytes = rw (e, ← len) (take_append bytes rest) in
      let back : drop n (remaining s) ≡ rest = rw (e, ← len) (drop_append bytes rest) in
      (both.0 ∙ ap ok front, both.1 ∙ back)

  read_body_lem :
      (s : Reader) (f : Frame) (rest : List ℕ)
      → IsWire f
      → remaining s ≡ u16_to_be_bytes f.opcode ++ (f.payload ++ rest)
      → ((read_body r (wire_len f) s).0 ≡ ok (some f))
        × (remaining (read_body r (wire_len f) s).1 ≡ rest)
  unfolding read_body
  read_body_lem s f rest wire e =
      let first =
        read_front s (u16_to_be_bytes f.opcode) (f.payload ++ rest) 2
          (unfold u16_to_be_bytes in refl) e in
      let second =
        read_front (read_exact 2 s).1 f.payload rest (wire_len f - 2) (omega arith) first.1 in
      rw (first.0, second.0, read_body) (rw (u16_be f.opcode wire) (refl, second.1))

  read_frame_lem :
      (s : Reader) (f : Frame) (max : ℕ) (bytes rest : List ℕ)
      → IsWire f
      → max < 2 ^ 32
      → encode_frame f max ≡ ok bytes
      → remaining s ≡ bytes ++ rest
      → ((read_frame r s max).0 ≡ ok (some f)) × (remaining (read_frame r s max).1 ≡ rest)
  unfolding read_frame
  read_frame_lem s f max bytes rest wire small enc e =
      let (fits, layout) = encode_frame_parts f max bytes enc in
      let prefix = u32_to_be_bytes (wire_len f) in
      let tail = u16_to_be_bytes f.opcode ++ (f.payload ++ rest) in
      let front : remaining s ≡ prefix ++ tail =
        e ∙ (rw layout (unfold u32_to_be_bytes u16_to_be_bytes in refl)) in
      let first = read_front s prefix tail 4 (unfold u32_to_be_bytes in refl) front in
      let announced : decode_wire_len prefix max ≡ ok (wire_len f) =
        decode_wire_len_fits prefix max (wire_len f) (omega (arith, u32_be (wire_len f)))
          (omega arith) fits in
      rw (first.0, announced, read_frame) (read_body_lem (read_exact 4 s).1 f rest wire first.1)

  -- Bytes that were read stood at the front of the stream.
  read_exact_ok :
      (n : ℕ) (s : Reader) (bytes : List ℕ)
      → (read_exact n s).0 ≡ ok bytes
      → (length bytes ≡ n) × (remaining s ≡ bytes ++ remaining (read_exact n s).1)
  read_exact_ok n s bytes h = elim (Bool-cases (leb n (length (remaining s)))) [
    | inl enough ↦
        let both = read_enough n s (ground arith) in
        let same : take n (remaining s) ≡ bytes = cc (both.0, h) in
        (
          ap length (sym same) ∙ length-take_le n (remaining s) (ground arith),
          sym (take-append-drop n (remaining s))
              ∙ (ap (λ l. l ++ drop n (remaining s)) same ∙ ap (λ l. bytes ++ l) (sym both.1)),
        )
    | inr short ↦ absurd (cc (read_short n s (ground arith), h))
  ]

  read_body_ok :
      (len : ℕ) (s : Reader) (f : Frame)
      → min_frame_len ≤ len
      → (read_body r len s).0 ≡ ok (some f)
      → wire_len f ≡ len
  unfolding read_body
  read_body_ok len s f low h =
      let s' = (read_exact 2 s).1 in
      elim (Result-cases (read_exact 2 s).0) [
        | inl (op, op_read) ↦ elim (Result-cases (read_exact (len - 2) s').0) [
          | inl (payload, payload_read) ↦
              ground (arith, read_exact_ok (len - 2) s' payload payload_read)
          | inr (kind, failed) ↦ ground arith
        ]
        | inr (kind, failed) ↦ ground arith
      ]

  -- A frame that was read is no longer than the limit, whatever length the peer announced.
  pub read_frame-bounded :
      (s : Reader) (max : ℕ) (f : Frame) → (read_frame r s max).0 ≡ ok (some f) → wire_len f ≤ max
  unfolding read_frame
  read_frame-bounded s max f h = elim (Result-cases (read_exact 4 s).0) [
    | inl (prefix, prefix_read) ↦ elim (Result-cases (decode_wire_len prefix max)) [
      | inl (len, decoded) ↦
          let bounds = decode_wire_len_ok prefix max len decoded in
          ground (arith, bounds, read_body_ok len (read_exact 4 s).1 f bounds.1)
      | inr (e, refused) ↦ ground arith
    ]
    | inr (kind, failed) ↦ ground arith
  ]

  read_body-none : (len : ℕ) (s : Reader) → (read_body r len s).0 ≢ ok none
  unfolding read_body
  read_body-none len s h =
      let s' = (read_exact 2 s).1 in
      elim (Result-cases (read_exact 2 s).0) [
        | inl (op, op_read) ↦ elim (Result-cases (read_exact (len - 2) s').0) [
          | inl (payload, payload_read) ↦ absurd (ground arith)
          | inr (kind, failed) ↦ absurd (ground arith)
        ]
        | inr (kind, failed) ↦ absurd (ground arith)
      ]

  -- A stream whose peer sends its last bytes reads as closed by the peer exactly if fewer than the four
  -- bytes of a length prefix are left: at the end between two frames, and also within a prefix; an end
  -- later in a frame is never taken for one.
  pub read_frame-none :
      (s : Reader) (max : ℕ) → ((read_frame r s max).0 ≡ ok none) ↔ (length (remaining s) < 4)
  unfolding read_frame
  read_frame-none s max = (
    λ h. elim (Bool-cases (leb 4 (length (remaining s)))) [
      | inr short ↦ ground (arith, short)
      | inl enough ↦
          let first = (read_enough 4 s (ground (arith, enough))).0 in
          elim (Result-cases (decode_wire_len (take 4 (remaining s)) max)) [
            | inl (len, decoded) ↦
                absurd (read_body-none len (read_exact 4 s).1 (ground (arith, first, decoded, h)))
            | inr (e, refused) ↦ absurd (ground (arith, first, refused, h))
          ]
    ],
    λ h. rw (read_short 4 s h, read_frame) refl,
  )

  -- What a read of enough bytes leaves.
  read_length :
      (n : ℕ) (s : Reader)
      → n ≤ length (remaining s)
      → n + length (remaining (read_exact n s).1) ≡ length (remaining s)
  read_length n s enough =
      let taken : length (take n (remaining s)) ≡ n = length-take_le n (remaining s) enough in
      let whole = ap length (take-append-drop n (remaining s)) in
      rw (read_enough n s enough).1
        (omega (arith, taken, whole, length-append (take n (remaining s)) (drop n (remaining s))))

  read_body_short :
      (len : ℕ) (s : Reader)
      → length (remaining s) < len
      → (read_body r len s).0 ≡ err (io unexpected_eof)
  unfolding read_body
  read_body_short len s h = elim (Bool-cases (leb 2 (length (remaining s)))) [
    | inr short ↦ ground (arith, read_short 2 s (ground (arith, short)))
    | inl enough ↦
        let both = read_enough 2 s (ground (arith, enough)) in
        let rest : length (remaining (read_exact 2 s).1) < len - 2 =
          ground (arith, enough, h, read_length 2 s (ground (arith, enough))) in
        ground (arith, both.0, read_short (len - 2) (read_exact 2 s).1 rest)
  ]

  -- A stream that ends within a frame, after a prefix that announces a length within the limits, reads as
  -- the error `UnexpectedEof`, whether the opcode or the payload is cut.
  pub read_frame-io :
      (s : Reader) (max len : ℕ)
      → decode_wire_len (take 4 (remaining s)) max ≡ ok len
      → 4 ≤ length (remaining s)
      → length (remaining s) < 4 + len
      → (read_frame r s max).0 ≡ err (io unexpected_eof)
  unfolding read_frame
  read_frame-io s max len announced enough cut =
      let both = read_enough 4 s enough in
      let rest : length (remaining (read_exact 4 s).1) < len =
        omega (arith, read_length 4 s enough, enough, cut) in
      rw (both.0, announced, read_frame) (read_body_short len (read_exact 4 s).1 rest)

-- Reading frame after frame gives `frames`, and leaves `rest` in the stream.
abbrev pub Delivers :
    (r : AsyncRead) (sends : Sends r) → r.Reader → ℕ → List Frame → List ℕ → Type 0
Delivers r sends s max [] rest = sends.remaining s ≡ rest
Delivers r sends s max (f ∷ fs) rest =
    ((read_frame r s max).0 ≡ ok (some f)) × Delivers r sends (read_frame r s max).1 max fs rest

abbrev pub fits : ℕ → Frame → Bool
fits max f = leb (wire_len f) max

-- The bytes of the frames that fit.
wire : ℕ → List Frame → List ℕ
wire max [] = []
wire max (f ∷ fs) =
    if fits max f
    then (u32_to_be_bytes (wire_len f) ++ (u16_to_be_bytes f.opcode ++ f.payload)) ++ wire max fs
    else wire max fs

write_task-wire :
    (w : AsyncWrite) (accepts : Accepts w) (frames : List Frame) (max : ℕ) (s : w.Writer)
    → accepts.written (write_task w frames max s) ≡ accepts.written s ++ wire max frames
unfolding write_task wire
write_task-wire w accepts [] max s = sym (append-nil _)
write_task-wire w accepts (f ∷ fs) max s = elim (Bool-cases (fits max f)) [
  | inl good ↦
      let bytes = u32_to_be_bytes (wire_len f) ++ (u16_to_be_bytes f.opcode ++ f.payload) in
      let next = (w.write_all bytes s).1 in
      rw (good, encode_frame_fits f max (ground arith), write_task, accepts.write_ok bytes s)
        (write_task-wire w accepts fs max next
          ∙ (ap (λ l. l ++ wire max fs) (accepts.write_appends bytes s)
              ∙ append_assoc (accepts.written s) bytes (wire max fs)))
  | inr bad ↦
      rw (bad, encode_frame_too_large f max (ground arith), write_task)
        (write_task-wire w accepts fs max s)
]

read_wire :
    (r : AsyncRead) (sends : Sends r) (frames : List Frame) (max : ℕ) (s : r.Reader) (rest : List ℕ)
    → All IsWire frames
    → max < 2 ^ 32
    → sends.remaining s ≡ wire max frames ++ rest
    → Delivers r sends s max (retain (fits max) frames) rest
unfolding wire
read_wire r sends [] max s rest ops small e = e
read_wire r sends (f ∷ fs) max s rest ops small e = elim (Bool-cases (fits max f)) [
  | inl good ↦
      let bytes = u32_to_be_bytes (wire_len f) ++ (u16_to_be_bytes f.opcode ++ f.payload) in
      let front : sends.remaining s ≡ bytes ++ (wire max fs ++ rest) =
        e ∙ rw good (append_assoc bytes (wire max fs) rest) in
      let first =
        read_frame_lem r sends s f max bytes (wire max fs ++ rest) ops.0 small
          (encode_frame_fits f max (ground arith)) front in
      rw good (first.0, read_wire r sends fs max (read_frame r s max).1 rest ops.1 small first.1)
  | inr bad ↦ rw bad (read_wire r sends fs max s rest ops.1 small (e ∙ rw bad refl))
]

-- The writer task and the reader agree: whatever frames are queued, on a stream that takes every
-- write, a peer that uses the same limit, below 2^32 bytes, reads exactly the frames within the
-- limit, in their order, and is left with the bytes that follow them.
pub read_frame-write_task :
    (w : AsyncWrite) (accepts : Accepts w) (r : AsyncRead) (sends : Sends r) (frames : List Frame)
    (max : ℕ) (start : w.Writer) (s : r.Reader) (rest : List ℕ)
    → All IsWire frames
    → max < 2 ^ 32
    → accepts.written start ≡ []
    → sends.remaining s ≡ accepts.written (write_task w frames max start) ++ rest
    → Delivers r sends s max (retain (fits max) frames) rest
read_frame-write_task w accepts r sends frames max start s rest ops small clean e =
    read_wire r sends frames max s rest ops small (
      e
      ∙ ap (λ l. l ++ rest)
          (write_task-wire w accepts frames max start ∙ ap (λ l. l ++ wire max frames) clean))
