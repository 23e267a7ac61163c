-- ===== src/Frame.antt =====
-- The frame codec: src/parser_neon.c (neon_parse_ws_frame, scalar_parse_ws_frame) and the headers
-- that src/websocket.c builds in websocket_send and websocket_send_pong. `data` is the memory from
-- the pointer on; it and `frame` are never NULL in this program. The host is little-endian, as the
-- NEON code requires: ntohs, htons and __builtin_bswap64 swap bytes, and a uint32_t read by memcpy
-- has its first byte lowest.
pub mod Bounds
pub mod Stream
pub mod Build
pub mod Mask
pub mod Roundtrip
pub mod Partial
pub mod Pong
use websocket.Prelude.{
  ℕ, ◌+◌, ◌*◌, ◌/◌, ◌%◌, ◌^◌, Option, none, some, Bool, true, false, ltb, ◌==◌, if◌then◌else◌,
  Memory, add_size,
}

-- `WSFrame`. `payload` is an offset from `data`, none for NULL.
pub record Frame : Type 0 where
  pub fin : ℕ
  pub opcode : ℕ
  pub mask : ℕ
  pub payload_len_type : ℕ
  pub payload_len : ℕ
  pub masking_key : ℕ
  pub payload : Option ℕ
  pub header_size : ℕ

abbrev pub zero_frame : Frame
zero_frame = record {
  fin = 0;
  opcode = 0;
  mask = 0;
  payload_len_type = 0;
  payload_len = 0;
  masking_key = 0;
  payload = none;
  header_size = 0;
}

-- The return values 0, 1 and -1.
pub data Outcome : Type 0 where
  success need_more invalid : Outcome

-- Big-endian and little-endian words at `p`.
abbrev pub be16 : Memory → ℕ → ℕ
be16 m p = m p * 256 + m (p + 1)

abbrev pub be64 : Memory → ℕ → ℕ
be64 m p = (be16 m p * 65536 + be16 m (p + 2)) * 2 ^ 32 + (be16 m (p + 4) * 65536 + be16 m (p + 6))

abbrev pub le32 : Memory → ℕ → ℕ
le32 m p = m p + m (p + 1) * 256 + (m (p + 2) + m (p + 3) * 256) * 65536

-- The end of neon_parse_ws_frame: the check for the whole frame.
finish_frame : ℕ → ℕ → Frame → Outcome × Frame
finish_frame len header_bytes frame =
    let frame' = record frame { header_size = header_bytes } in
    if ltb len (add_size header_bytes frame.payload_len)
    then (need_more, frame')
    else (success, record frame' { payload = some header_bytes })

-- The masking key, if present.
parse_key : Memory → ℕ → ℕ → Frame → Outcome × Frame
parse_key m len header_bytes frame =
    if frame.mask == 0
    then finish_frame len header_bytes frame
    else if ltb len (header_bytes + 4)
    then (need_more, frame)
    else finish_frame len (header_bytes + 4) (record frame { masking_key = le32 m header_bytes })

-- The length field.
parse_length : Memory → ℕ → Frame → Outcome × Frame
parse_length m len frame =
    let payload_len = m 1 % 128 in
    if payload_len == 126
    then (if ltb len 4
        then (need_more, frame)
        else parse_key m len 4 (record frame { payload_len = be16 m 2; payload_len_type = 16 }))
    else if payload_len == 127
    then (if ltb len 10
        then (need_more, frame)
        else parse_key m len 10 (record frame { payload_len = be64 m 2; payload_len_type = 64 }))
    else parse_key m len 2 (record frame { payload_len = payload_len; payload_len_type = 7 })

-- `neon_parse_ws_frame`; `& 0x7F` is `% 128` and `(b >> 7) & 1` is `/ 128 % 2`.
unfoldable pub neon_parse_ws_frame : Memory → ℕ → Frame → Outcome × Frame
unfolding finish_frame parse_key parse_length
neon_parse_ws_frame m len frame =
    if ltb len 2
    then (invalid, frame)
    else (parse_length m len
        (record zero_frame { fin = m 0 / 128 % 2; opcode = m 0 % 16; mask = m 1 / 128 % 2 }))

-- `scalar_parse_ws_frame`, with its early returns gathered at the end: each returns the frame as
-- filled so far.
pub scalar_parse_ws_frame : Memory → ℕ → Frame → Outcome × Frame
scalar_parse_ws_frame m len frame =
    let frame0 = record zero_frame {
      fin = m 0 / 128 % 2;
      opcode = m 0 % 16;
      mask = m 1 / 128 % 2;
    } in
    let payload_len = m 1 % 128 in
    let sized : Frame =
      if payload_len == 126
      then record frame0 { payload_len = be16 m 2; payload_len_type = 16 }
      else if payload_len == 127
      then record frame0 { payload_len = be64 m 2; payload_len_type = 64 }
      else record frame0 { payload_len = payload_len; payload_len_type = 7 } in
    let length_bytes : ℕ = if payload_len == 126 then 4 else if payload_len == 127 then 10 else 2 in
    let keyed = record sized { masking_key = le32 m length_bytes } in
    let header_bytes : ℕ = if frame0.mask == 0 then length_bytes else length_bytes + 4 in
    let whole = if frame0.mask == 0 then sized else keyed in
    let headed = record whole { header_size = header_bytes } in
    if ltb len 2
    then (invalid, frame)
    else if ltb len length_bytes
    then (need_more, frame0)
    else if ltb len header_bytes
    then (need_more, sized)
    else if ltb len (add_size header_bytes sized.payload_len)
    then (need_more, headed)
    else (success, record headed { payload = some header_bytes })
