-- ===== src/Frame/Stream.antt =====
-- A frame that has wholly arrived is parsed alike when more bytes follow.
use websocket.Prelude.{
  ℕ, ◌+◌, ◌/◌, ◌%◌, ◌≡◌, Memory, arith, sym, ◌∙◌, true, false, Bool-cases, inl, inr, ltb,
}
use websocket.Frame.{
  Frame, zero_frame, success, invalid, be16, be64, le32, neon_parse_ws_frame, parse_length,
  parse_key, finish_frame,
}

-- The frame with the fields of the first two bytes.
abbrev first_bytes : Memory → Frame
first_bytes m = record zero_frame { fin = m 0 / 128 % 2; opcode = m 0 % 16; mask = m 1 / 128 % 2 }

parse_short :
    (m : Memory) (len : ℕ) (frame : Frame)
    → ltb len 2 ≡ true
    → neon_parse_ws_frame m len frame ≡ (invalid, frame)
unfolding neon_parse_ws_frame
parse_short m len frame h = rw h

parse_start :
    (m : Memory) (len : ℕ) (frame : Frame)
    → ltb len 2 ≡ false
    → neon_parse_ws_frame m len frame ≡ parse_length m len (first_bytes m)
unfolding neon_parse_ws_frame
parse_start m len frame h = rw h

module _ (m : Memory) (len more : ℕ) where
  finish_frame_extends :
      (p : ℕ) (frame out : Frame)
      → finish_frame len p frame ≡ (success, out)
      → finish_frame (len + more) p frame ≡ (success, out)
  unfolding finish_frame
  finish_frame_extends p frame out e = ground arith

  parse_key_extends :
      (p : ℕ) (frame out : Frame)
      → parse_key m len p frame ≡ (success, out)
      → parse_key m (len + more) p frame ≡ (success, out)
  unfolding parse_key
  parse_key_extends p frame out e = ground (
    arith,
    finish_frame_extends p frame out,
    finish_frame_extends (p + 4) (record frame { masking_key = le32 m p }) out,
  )

  parse_length_extends :
      (frame out : Frame)
      → parse_length m len frame ≡ (success, out)
      → parse_length m (len + more) frame ≡ (success, out)
  unfolding parse_length
  parse_length_extends frame out e = ground (
    arith,
    parse_key_extends 2 (record frame { payload_len = m 1 % 128; payload_len_type = 7 }) out,
    parse_key_extends 4 (record frame { payload_len = be16 m 2; payload_len_type = 16 }) out,
    parse_key_extends 10 (record frame { payload_len = be64 m 2; payload_len_type = 64 }) out,
  )

-- More data does not change what the parser makes of a buffer that holds a whole frame.
pub parse_extends :
    (m : Memory) (len more : ℕ) (frame : Frame) {out : Frame}
    → neon_parse_ws_frame m len frame ≡ (success, out)
    → neon_parse_ws_frame m (len + more) frame ≡ (success, out)
parse_extends m len more frame {out} e = elim (Bool-cases (ltb len 2)) [
  | inl short ↦ cc (parse_short m len frame short)
  | inr some_header ↦
      parse_start m (len + more) frame (ground arith)
      ∙ parse_length_extends m len more (first_bytes m) out
          (sym (parse_start m len frame some_header) ∙ e)
]
