-- ===== src/Frame/Pong.antt =====
-- What the parser makes of the pong frames that websocket_send_pong builds.
use websocket.Prelude.{
  ℕ, ◌+◌, ◌^◌, ◌≤◌, ◌<◌, ◌≡◌, refl, sym, List, ◌∷◌, ◌++◌, ap, ◌∙◌, append_assoc, ltb, if◌then◌else◌,
  bit_or_high, length, length-append, arith, Bool-cases, inl, inr, bytes_at,
}
use websocket.Frame.{Frame, success, neon_parse_ws_frame}
use websocket.Frame.Build.{
  pong_header, as_memory, len16_bytes, len64_bytes, key_bytes, bytes_at-middle,
}
use websocket.Frame.Mask.{
  mask_from, mask_from_undo, length-mask_from, unmask_loop, unmask_loop_whole,
}
use websocket.Frame.Roundtrip.{
  parsed, length_type, parse_masked_7_bits, parse_masked_16_bits, parse_masked_64_bits,
}

pong_header_cases :
    (key n : ℕ)
    → pong_header key n
      ≡ 138
        ∷ (if ltb n 126
            then (128 + n) ∷ key_bytes key
            else if ltb n 65536
            then 254 ∷ len16_bytes n ++ key_bytes key
            else 255 ∷ len64_bytes n ++ key_bytes key)
unfolding pong_header
pong_header_cases key n = ground (arith, bit_or_high n)

parse_pong :
    (key n len : ℕ) (rest : List ℕ) (frame : Frame)
    → n < 2 ^ 62
    → key < 2 ^ 32
    → length (pong_header key n) + n ≤ len
    → neon_parse_ws_frame (as_memory (pong_header key n ++ rest)) len frame
      ≡ (success, parsed 138 1 (length_type n) n key (length (pong_header key n)))
parse_pong key n len rest frame h k q = elim (Bool-cases (ltb n 126)) [
  | inl short ↦
      let header : pong_header key n ≡ 138 ∷ (128 + n) ∷ key_bytes key =
        rw (pong_header_cases, short) in
      let room : 6 + n ≤ len = rw header at q in
      rw (header, short)
        (parse_masked_7_bits _ n len frame h key refl (ground arith) (omega arith) (omega arith))
  | inr more ↦ elim (Bool-cases (ltb n 65536)) [
    | inl medium ↦
        let header : pong_header key n ≡ 138 ∷ 254 ∷ len16_bytes n ++ key_bytes key =
          rw (pong_header_cases, more, medium) in
        let room : 8 + n ≤ len = rw header at q in
        let below : n < 65536 = ground arith in
        rw (header, more, medium)
          (parse_masked_16_bits _ n len frame h key refl (omega arith) (omega arith) (omega arith))
    | inr long ↦
        let header : pong_header key n ≡ 138 ∷ 255 ∷ len64_bytes n ++ key_bytes key =
          rw (pong_header_cases, more, long) in
        let room : 14 + n ≤ len = rw header at q in
        rw (header, more, long)
          (parse_masked_64_bits _ n len frame h key refl (omega arith) (omega arith) (omega arith))
  ]
]

-- A pong frame of websocket_send_pong, with a payload of fewer than 2 ^ 62 bytes masked by its
-- 32-bit key, parses back: the parser returns 0, the opcode, the length and the key, and the
-- receiver's unmasking loop restores the payload.
pub parse-pong_header :
    (key : ℕ) (xs rest : List ℕ) (frame : Frame)
    → length xs < 2 ^ 62
    → key < 2 ^ 32
    → let header = pong_header key (length xs) in
      let m = as_memory (header ++ mask_from key 0 xs ++ rest) in
      let len = length (header ++ mask_from key 0 xs ++ rest) in
      (neon_parse_ws_frame m len frame
        ≡ (success, parsed 138 1 (length_type (length xs)) (length xs) key (length header)))
      × (bytes_at (unmask_loop (length header) key (length xs) 0 m) (length header) (length xs)
          ≡ xs)
parse-pong_header key xs rest frame h k =
    let header = pong_header key (length xs) in
    let masked = mask_from key 0 xs in
    let size = length-mask_from key 0 xs in
    (
      ap (λ t. neon_parse_ws_frame (as_memory t) (length (header ++ masked ++ rest)) frame)
            (append_assoc header masked rest)
          ∙ parse_pong key (length xs) _ (masked ++ rest) frame h k (
              omega (
                arith,
                size,
                length-append {0} (header ++ masked) rest,
                length-append {0} header masked,
              )),
      unmask_loop_whole (length header) key (length xs) (as_memory (header ++ masked ++ rest))
          ∙ ap
              (λ n.
                mask_from key 0 (bytes_at (as_memory (header ++ masked ++ rest)) (length header) n))
              (sym size)
          ∙ ap (mask_from key 0) (bytes_at-middle header masked rest)
          ∙ mask_from_undo key 0 xs,
    )
