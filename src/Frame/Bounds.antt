-- ===== src/Frame/Bounds.antt =====
-- What neon_parse_ws_frame reads, and what a parsed frame says of the buffer.
use websocket.Prelude.{
  ℕ, ◌+◌, ◌/◌, ◌%◌, ◌^◌, ◌≤◌, ◌<◌, ◌≡◌, ◌⊎◌, ◌↔◌, some, Memory, arith, ap, sym, ◌∙◌, true, false,
  Bool-cases, inl, inr, ltb,
}
use websocket.Frame.{
  Frame, zero_frame, success, invalid, be16, be64, neon_parse_ws_frame, scalar_parse_ws_frame,
  parse_length, parse_key,
}

-- Both parsers return the same code and store the same frame on every input.
pub neon_parse-eq-scalar_parse :
    (m : Memory) (len : ℕ) (frame : Frame)
    → neon_parse_ws_frame m len frame ≡ scalar_parse_ws_frame m len frame
unfolding neon_parse_ws_frame scalar_parse_ws_frame
neon_parse-eq-scalar_parse m len frame = ground arith

module _ (m m' : Memory) (len : ℕ) where
  parse_key_within :
      (p : ℕ) (frame : Frame)
      → ((i : ℕ) → i < len → m i ≡ m' i)
      → parse_key m len p frame ≡ parse_key m' len p frame
  unfolding parse_key
  parse_key_within p frame h = ground (arith, h p, h (p + 1), h (p + 2), h (p + 3))

  be16_within : (p : ℕ) → p + 1 < len → ((i : ℕ) → i < len → m i ≡ m' i) → be16 m p ≡ be16 m' p
  be16_within p q h = omega (arith, h p (omega arith), h (p + 1) q)

  be64_within : ((i : ℕ) → i < len → m i ≡ m' i) → 10 ≤ len → be64 m 2 ≡ be64 m' 2
  be64_within h q = omega (
    arith,
    h 2 (omega arith),
    h 3 (omega arith),
    h 4 (omega arith),
    h 5 (omega arith),
    h 6 (omega arith),
    h 7 (omega arith),
    h 8 (omega arith),
    h 9 (omega arith),
  )

  parse_length_within :
      (frame : Frame)
      → ((i : ℕ) → i < len → m i ≡ m' i)
      → 2 ≤ len
      → parse_length m len frame ≡ parse_length m' len frame
  unfolding parse_length
  parse_length_within frame h q = ground (
    arith,
    h 1 (omega arith),
    parse_key_within 2 (record frame { payload_len = m 1 % 128; payload_len_type = 7 }) h,
    parse_key_within 4 (record frame { payload_len = be16 m 2; payload_len_type = 16 }) h,
    parse_key_within 10 (record frame { payload_len = be64 m 2; payload_len_type = 64 }) h,
    λ (r : 4 ≤ len). be16_within 2 r h,
    λ (r : 10 ≤ len). be64_within h r,
  )

-- The frame with the fields of the first two bytes.
abbrev pub first_bytes : Memory → Frame
first_bytes m = record zero_frame { fin = m 0 / 128 % 2; opcode = m 0 % 16; mask = m 1 / 128 % 2 }

parse_short :
    (m : Memory) (len : ℕ) (frame : Frame)
    → ltb len 2 ≡ true
    → neon_parse_ws_frame m len frame ≡ (invalid, frame)
unfolding neon_parse_ws_frame
parse_short m len frame h = rw h

parse_start :
    (m : Memory) (len : ℕ) (frame : Frame)
    → ltb len 2 ≡ false
    → neon_parse_ws_frame m len frame ≡ parse_length m len (first_bytes m)
unfolding neon_parse_ws_frame
parse_start m len frame h = rw h

-- The parser reads no byte at or past `len`: the result is a function of the bytes before it.
pub parse_reads_within :
    (m m' : Memory) (len : ℕ) (frame : Frame)
    → ((i : ℕ) → i < len → m i ≡ m' i)
    → neon_parse_ws_frame m len frame ≡ neon_parse_ws_frame m' len frame
parse_reads_within m m' len frame h = elim (Bool-cases (ltb len 2)) [
  | inl short ↦ parse_short m len frame short ∙ sym (parse_short m' len frame short)
  | inr some_header ↦
      parse_start m len frame some_header
      ∙ parse_length_within m m' len (first_bytes m) h (ground arith)
      ∙ ap (parse_length m' len) (ground (arith, h 0, h 1))
      ∙ sym (parse_start m' len frame some_header)
]

-- A frame that the parser accepts lies inside the buffer, unless the sum of its header's and its
-- payload's length does not fit a size_t.
pub parse_bounds :
    (m : Memory) (len : ℕ) (frame : Frame) {out : Frame}
    → neon_parse_ws_frame m len frame ≡ (success, out)
    → (2 ≤ out.header_size)
      × (out.header_size ≤ 14)
      × (out.payload ≡ some out.header_size)
      × ((out.header_size + out.payload_len ≤ len) ⊎ (2 ^ 64 ≤ out.header_size + out.payload_len))
unfolding neon_parse_ws_frame
parse_bounds m len frame h = ground arith

-- For every buffer of at least ten bytes that starts with an unmasked 64-bit length within ten of
-- 2 ^ 64, the parser accepts a frame whose payload is longer than the buffer.
pub parse_overflow :
    (m : Memory) (len : ℕ) (frame : Frame)
    → 10 ≤ len
    → len < 2 ^ 63
    → m 1 ≡ 127
    → be64 m 2 < 2 ^ 64
    → 2 ^ 64 ≤ be64 m 2 + 10
    → let (code, out) = neon_parse_ws_frame m len frame in
      (code ≡ success) × (len < out.payload_len)
unfolding neon_parse_ws_frame
parse_overflow m len frame h small byte1 word big = ground arith

-- The parser refuses a buffer exactly when it has fewer than two bytes.
pub parse_invalid_iff :
    (m : Memory) (len : ℕ) (frame : Frame)
    → ((neon_parse_ws_frame m len frame).0 ≡ invalid) ↔ (len < 2)
unfolding neon_parse_ws_frame
parse_invalid_iff m len frame = ground arith
