-- ===== src/Frame/Build.antt =====
-- The frame headers that websocket_send and websocket_send_pong fill in (src/websocket.c), as the
-- `header_size` first bytes of `frame_header`.
use websocket.Prelude.{
  ℕ, ◌/◌, ◌%◌, ◌^◌, ◌≡◌, List, [], ◌∷◌, ◌++◌, append_assoc, ◌+◌, Bool, ltb, if◌then◌else◌, bit_or,
  Memory, get_or, length, ap, ◌∙◌, tabulate_congr, tabulate-get_or, bytes_at, get_or_append_left,
  get_or_append_right,
}

-- The opcodes of websocket.h.
abbrev pub ws_opcode_text : ℕ
ws_opcode_text = 0x1

abbrev pub ws_opcode_binary : ℕ
ws_opcode_binary = 0x2

abbrev pub ws_opcode_close : ℕ
ws_opcode_close = 0x8

abbrev pub ws_opcode_ping : ℕ
ws_opcode_ping = 0x9

abbrev pub ws_opcode_pong : ℕ
ws_opcode_pong = 0xa

-- htons((uint16_t) len) as memcpy copies it.
abbrev pub len16_bytes : ℕ → List ℕ
len16_bytes len = len / 256 % 256 ∷ len % 256 ∷ []

-- __builtin_bswap64(len) as memcpy copies it.
abbrev pub len64_bytes : ℕ → List ℕ
len64_bytes len =
    len / 2 ^ 56 % 256
    ∷ len / 2 ^ 48 % 256
    ∷ len / 2 ^ 40 % 256
    ∷ len / 2 ^ 32 % 256
    ∷ len / 2 ^ 24 % 256
    ∷ len / 2 ^ 16 % 256
    ∷ len / 256 % 256
    ∷ len % 256
    ∷ []

-- ((uint8_t *) &masking_key)[j]
abbrev pub key_byte : ℕ → ℕ → ℕ
key_byte key j = key / 256 ^ j % 256

abbrev pub key_bytes : ℕ → List ℕ
key_bytes key = key % 256 ∷ key / 256 % 256 ∷ key / 65536 % 256 ∷ key / 2 ^ 24 % 256 ∷ []

-- The header of websocket_send. `|= len` on a zero byte stores `len`.
unfoldable pub send_header : Bool → ℕ → List ℕ
send_header is_text len =
    let byte0 = bit_or 0x80 (if is_text then ws_opcode_text else ws_opcode_binary) in
    if ltb len 126
    then byte0 ∷ len ∷ []
    else if ltb len 65536
    then byte0 ∷ 126 ∷ len16_bytes len
    else byte0 ∷ 127 ∷ len64_bytes len

-- The header of websocket_send_pong: the mask bit is set and the key follows the length.
unfoldable pub pong_header : ℕ → ℕ → List ℕ
pong_header key len =
    let byte0 = bit_or 0x80 ws_opcode_pong in
    if ltb len 126
    then byte0 ∷ bit_or 0x80 len ∷ key_bytes key
    else if ltb len 65536
    then byte0 ∷ bit_or 0x80 126 ∷ len16_bytes len ++ key_bytes key
    else byte0 ∷ bit_or 0x80 127 ∷ len64_bytes len ++ key_bytes key

-- A list as the memory that it stands in.
abbrev pub as_memory : List ℕ → Memory
as_memory xs i = get_or xs i 0

pub bytes_at-middle :
    (xs ys zs : List ℕ) → bytes_at (as_memory (xs ++ ys ++ zs)) (length xs) (length ys) ≡ ys
bytes_at-middle xs ys zs =
    tabulate_congr (length ys) _ _ (λ k h.
      ap (λ t. get_or t (length xs + k) 0) (append_assoc xs ys zs)
      ∙ get_or_append_right xs (ys ++ zs) k 0
      ∙ get_or_append_left ys zs k 0 h)
    ∙ tabulate-get_or ys 0
