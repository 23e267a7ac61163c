-- ===== src/Frame/Roundtrip.antt =====
-- What the parser makes of the headers that this program builds.
use websocket.Prelude.{
  ℕ, ◌+◌, ◌/◌, ◌%◌, ◌^◌, ◌≤◌, ◌<◌, ◌≡◌, refl, List, [], ◌∷◌, ◌++◌, ap, ◌∙◌, append_assoc, Bool,
  true, false, some, ltb, if◌then◌else◌, Memory, length, length-append, arith, Bool-cases, inl, inr,
  bytes_at,
}
use websocket.Frame.{Frame, success, be16, be64, le32, neon_parse_ws_frame}
use websocket.Frame.Build.{
  send_header, as_memory, len16_bytes, len64_bytes, key_bytes, ws_opcode_text, ws_opcode_binary,
  bytes_at-middle,
}

pub be64-len64_bytes : (x : ℕ) → x < 2 ^ 64 → be64 (as_memory (len64_bytes x)) 0 ≡ x
be64-len64_bytes x h = omega arith

le32-key_bytes : (x : ℕ) → x < 2 ^ 32 → le32 (as_memory (key_bytes x)) 0 ≡ x
le32-key_bytes x h = omega arith

-- The frame that the parser makes of a whole frame in the buffer.
abbrev pub parsed : ℕ → ℕ → ℕ → ℕ → ℕ → ℕ → Frame
parsed byte0 mask type len key header = record {
  fin = byte0 / 128 % 2;
  opcode = byte0 % 16;
  mask = mask;
  payload_len_type = type;
  payload_len = len;
  masking_key = key;
  payload = some header;
  header_size = header;
}

module _ (m : Memory) (n len : ℕ) (frame : Frame) (small : n < 2 ^ 62) where
  parse_7_bits :
      m 1 ≡ n
      → n < 126
      → n + 2 ≤ len
      → neon_parse_ws_frame m len frame ≡ (success, parsed (m 0) 0 7 n 0 2)
  unfolding neon_parse_ws_frame
  parse_7_bits e h q = ground arith

  parse_16_bits :
      m 1 ≡ 126
      → be16 m 2 ≡ n
      → n + 4 ≤ len
      → neon_parse_ws_frame m len frame ≡ (success, parsed (m 0) 0 16 n 0 4)
  unfolding neon_parse_ws_frame
  parse_16_bits e h q = ground arith

  parse_64_bits :
      m 1 ≡ 127
      → be64 m 2 ≡ n
      → n + 10 ≤ len
      → neon_parse_ws_frame m len frame ≡ (success, parsed (m 0) 0 64 n 0 10)
  unfolding neon_parse_ws_frame
  parse_64_bits e h q = ground arith

  module _ (key : ℕ) where
    pub parse_masked_7_bits :
        m 1 ≡ 128 + n
        → n < 126
        → le32 m 2 ≡ key
        → n + 6 ≤ len
        → neon_parse_ws_frame m len frame ≡ (success, parsed (m 0) 1 7 n key 6)
    unfolding neon_parse_ws_frame
    parse_masked_7_bits e h k q = ground arith

    pub parse_masked_16_bits :
        m 1 ≡ 254
        → be16 m 2 ≡ n
        → le32 m 4 ≡ key
        → n + 8 ≤ len
        → neon_parse_ws_frame m len frame ≡ (success, parsed (m 0) 1 16 n key 8)
    unfolding neon_parse_ws_frame
    parse_masked_16_bits e h k q = ground arith

    pub parse_masked_64_bits :
        m 1 ≡ 255
        → be64 m 2 ≡ n
        → le32 m 10 ≡ key
        → n + 14 ≤ len
        → neon_parse_ws_frame m len frame ≡ (success, parsed (m 0) 1 64 n key 14)
    unfolding neon_parse_ws_frame
    parse_masked_64_bits e h k q = ground arith

-- The number that tells how the length is written.
abbrev pub length_type : ℕ → ℕ
length_type len = if ltb len 126 then 7 else if ltb len 65536 then 16 else 64

-- The first byte of a data frame: FIN and the opcode.
abbrev pub data_byte : Bool → ℕ
data_byte is_text = 128 + (if is_text then ws_opcode_text else ws_opcode_binary)

pub send_header_cases :
    (is_text : Bool) (n : ℕ)
    → send_header is_text n
      ≡ data_byte is_text
        ∷ (if ltb n 126
            then n ∷ []
            else if ltb n 65536
            then 126 ∷ len16_bytes n
            else 127 ∷ len64_bytes n)
unfolding send_header
send_header_cases true n = ground arith
send_header_cases false n = ground arith

pub parse_send :
    (is_text : Bool) (n len : ℕ) (rest : List ℕ) (frame : Frame)
    → n < 2 ^ 62
    → length (send_header is_text n) + n ≤ len
    → neon_parse_ws_frame (as_memory (send_header is_text n ++ rest)) len frame
      ≡ (success, parsed (data_byte is_text) 0 (length_type n) n 0 (length (send_header is_text n)))
parse_send is_text n len rest frame h q = elim (Bool-cases (ltb n 126)) [
  | inl short ↦
      let header : send_header is_text n ≡ data_byte is_text ∷ n ∷ [] =
        rw (send_header_cases, short) in
      let room : 2 + n ≤ len = rw header at q in
      rw (header, short) (parse_7_bits _ n len frame h refl (ground arith) (omega arith))
  | inr more ↦ elim (Bool-cases (ltb n 65536)) [
    | inl medium ↦
        let header : send_header is_text n ≡ data_byte is_text ∷ 126 ∷ len16_bytes n =
          rw (send_header_cases, more, medium) in
        let room : 4 + n ≤ len = rw header at q in
        let below : n < 65536 = ground arith in
        rw (header, more, medium) (parse_16_bits _ n len frame h refl (omega arith) (omega arith))
    | inr long ↦
        let header : send_header is_text n ≡ data_byte is_text ∷ 127 ∷ len64_bytes n =
          rw (send_header_cases, more, long) in
        let room : 10 + n ≤ len = rw header at q in
        rw (header, more, long) (parse_64_bits _ n len frame h refl (omega arith) (omega arith))
  ]
]

-- A frame of websocket_send with a payload of fewer than 2 ^ 62 bytes, whatever follows it in the
-- buffer, parses back: the parser returns 0, the opcode and the length, finds no mask, and points
-- at the payload.
pub parse-send_header :
    (is_text : Bool) (xs rest : List ℕ) (frame : Frame)
    → length xs < 2 ^ 62
    → let header = send_header is_text (length xs) in
      let bytes = header ++ xs ++ rest in
      (neon_parse_ws_frame (as_memory bytes) (length bytes) frame ≡ (
        success,
        parsed (data_byte is_text) 0 (length_type (length xs)) (length xs) 0 (length header),
      ))
      × (bytes_at (as_memory bytes) (length header) (length xs) ≡ xs)
parse-send_header is_text xs rest frame h =
    let header = send_header is_text (length xs) in
    (
      ap (λ t. neon_parse_ws_frame (as_memory t) (length (header ++ xs ++ rest)) frame)
            (append_assoc header xs rest)
          ∙ parse_send is_text (length xs) _ (xs ++ rest) frame h
              (omega (arith, length-append {0} (header ++ xs) rest, length-append {0} header xs)),
      bytes_at-middle header xs rest,
    )
