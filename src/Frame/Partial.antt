-- ===== src/Frame/Partial.antt =====
-- What the parser makes of a data frame of this program that has arrived in part
-- (src/parser_neon.c).
use websocket.Prelude.{
  ℕ, ◌+◌, ◌^◌, ◌≤◌, ◌<◌, ◌≡◌, refl, List, [], ◌∷◌, ◌++◌, Bool, Bool-cases, inl, inr, ltb, length,
  arith, Memory,
}
use websocket.Frame.{Frame, need_more, be16, be64, neon_parse_ws_frame}
use websocket.Frame.Build.{send_header, as_memory, len16_bytes, len64_bytes}
use websocket.Frame.Roundtrip.{send_header_cases, data_byte}

module _ (m : Memory) (n len : ℕ) (frame : Frame) (small : n < 2 ^ 62) (begun : 2 ≤ len) where
  part_7_bits : m 1 ≡ n → n < 126 → len < n + 2 → (neon_parse_ws_frame m len frame).0 ≡ need_more
  unfolding neon_parse_ws_frame
  part_7_bits e h q = ground arith

  part_16_bits :
      m 1 ≡ 126 → be16 m 2 ≡ n → len < n + 4 → (neon_parse_ws_frame m len frame).0 ≡ need_more
  unfolding neon_parse_ws_frame
  part_16_bits e h q = ground arith

  part_64_bits :
      m 1 ≡ 127 → be64 m 2 ≡ n → len < n + 10 → (neon_parse_ws_frame m len frame).0 ≡ need_more
  unfolding neon_parse_ws_frame
  part_64_bits e h q = ground arith

-- From the second byte on, and up to the last but one, the parser asks for more.
pub parse_part :
    (is_text : Bool) (n len : ℕ) (rest : List ℕ) (frame : Frame)
    → n < 2 ^ 62
    → 2 ≤ len
    → len < length (send_header is_text n) + n
    → (neon_parse_ws_frame (as_memory (send_header is_text n ++ rest)) len frame).0 ≡ need_more
parse_part is_text n len rest frame h begun q = elim (Bool-cases (ltb n 126)) [
  | inl short ↦
      let header : send_header is_text n ≡ data_byte is_text ∷ n ∷ [] =
        rw (send_header_cases, short) in
      let room : len < 2 + n = rw header at q in
      rw header (part_7_bits _ n len frame h begun refl (ground arith) (omega arith))
  | inr more ↦ elim (Bool-cases (ltb n 65536)) [
    | inl medium ↦
        let header : send_header is_text n ≡ data_byte is_text ∷ 126 ∷ len16_bytes n =
          rw (send_header_cases, more, medium) in
        let room : len < 4 + n = rw header at q in
        let below : n < 65536 = ground arith in
        rw header (part_16_bits _ n len frame h begun refl (omega arith) (omega arith))
    | inr long ↦
        let header : send_header is_text n ≡ data_byte is_text ∷ 127 ∷ len64_bytes n =
          rw (send_header_cases, more, long) in
        let room : len < 10 + n = rw header at q in
        rw header (part_64_bits _ n len frame h begun refl (omega arith) (omega arith))
  ]
]
