-- ===== src/Client/Handshake.antt =====
-- The HTTP upgrade: generate_websocket_key, send_handshake and parse_handshake_response
-- (src/websocket.c, with the sizes of src/internal.h).
pub mod Headers
pub mod Response
use websocket.Prelude.{
  ℕ, zero, suc, ◌+◌, ◌-◌, List, [], ◌∷◌, ◌++◌, Option, none, some, Bool, true, false, not, ltb, leb,
  ◌==◌, ◌||◌, ◌&&◌, if◌then◌else◌, length, take, drop, get_or, codes, has_prefix, strstr, c_string,
  to_lower, bytes_at,
}
use websocket.Ring.{Ring, read_inline, write, read}
use websocket.Ring.Setup.{ringbuffer_alignment}
use websocket.Client.{WebSocket, Flush, flush}

abbrev pub ws_max_header_size : ℕ
ws_max_header_size = 4096

abbrev pub ws_http_upgrade_header_size : ℕ
ws_http_upgrade_header_size = 512

-- `generate_websocket_key`: the key buffer, given what EVP_EncodeUpdate and EVP_EncodeFinal put out
-- for the sixteen random bytes, none if there is no encoding context.
unfoldable pub generate_websocket_key : List ℕ → Option (List ℕ) → List ℕ
generate_websocket_key key none = key
generate_websocket_key key (some encoded) =
    let total_len = length encoded in
    let kept = if get_or encoded (total_len - 1) 0 == b'\n' then total_len - 1 else total_len in
    if ltb 0 total_len && ltb total_len 25 then c_string (take kept encoded) else key

-- ws_http_upgrade_template, filled in.
abbrev pub upgrade_request : List ℕ → List ℕ → List ℕ → List ℕ
upgrade_request path host key =
    codes "GET "
    ++ path
    ++ codes " HTTP/1.1\r\nHost: "
    ++ host
    ++ codes "\r\nUpgrade: websocket\r\nConnection: Upgrade\r\nSec-WebSocket-Key: "
    ++ key
    ++ codes "\r\nSec-WebSocket-Version: 13\r\n\r\n"

-- The request as snprintf puts it into the buffer.
unfoldable pub handshake_text : WebSocket → List ℕ
handshake_text ws =
    take (ws_http_upgrade_header_size - 1) (upgrade_request ws.path ws.host ws.sec_websocket_key)

-- `send_handshake`: whether it returns 0.
unfoldable pub send_handshake : WebSocket → Option (List ℕ) → Flush → Bool × WebSocket
send_handshake ws encoded out =
    let keyed = record ws {
      sec_websocket_key = generate_websocket_key ws.sec_websocket_key encoded;
    } in
    let handshake = handshake_text keyed in
    let (written, ring) = write keyed.tx_ring (some handshake) in
    let queued = record keyed { tx_ring = ring } in
    if not (written == length handshake) then (false, queued) else (true, flush queued out)

-- The return values 0, 1 and -1 of parse_handshake_response.
pub data HandshakeResult : Type 0 where
  complete more_data refused : HandshakeResult

-- "HTTP/1.1" or "HTTP/1.0" at the beginning.
unfoldable pub is_http : List ℕ → Bool
is_http s = has_prefix (codes "HTTP/1.1") s || has_prefix (codes "HTTP/1.0") s

-- The search for the response among the bytes from index `i` on, with `left` indices left to try.
unfoldable pub find_http : List ℕ → ℕ → ℕ → Option ℕ
find_http bytes i zero = none
find_http bytes i (suc left) =
    let rest = find_http bytes (i + 1) left in
    if leb 12 (length bytes - i) && is_http (drop i bytes) then some i else rest

abbrev pub map_lower : List ℕ → List ℕ
map_lower [] = []
map_lower (c ∷ s) = to_lower c ∷ map_lower s

unfoldable pub is_101 : List ℕ → Bool
is_101 response =
    has_prefix (codes "HTTP/1.1 101") response || has_prefix (codes "HTTP/1.0 101") response

unfoldable pub contains : List ℕ → List ℕ → Bool
contains pattern s = elim (strstr pattern s) [ none ↦ false | some i ↦ true ]

-- The two headers, in lower case.
unfoldable pub has_upgrade : List ℕ → Bool
has_upgrade lower =
    contains (codes "upgrade: websocket") lower || contains (codes "upgrade:websocket") lower

unfoldable pub has_connection : List ℕ → Bool
has_connection lower =
    contains (codes "connection: upgrade") lower || contains (codes "connection:upgrade") lower

-- The C string that stands at offset `p` from the ring's buffer. The search for the headers' end
-- runs through it past the bytes received; past the allocated block it is not defined.
unfoldable pub string_at : Ring → ℕ → List ℕ
string_at r p = c_string (bytes_at r.buf p (r.size + ringbuffer_alignment - p))

-- Consuming the response: first the bytes before it, with a NULL destination, then the headers.
unfoldable pub consume_response : Ring → ℕ → Ring
consume_response r http_offset =
    elim (strstr (codes "\r\n\r\n") (string_at r (r.read_ptr + http_offset))) [
      | none ↦ r
      | some header_end ↦
          let header_len = header_end + 4 in
          let skipped = read false r http_offset in
          if skipped.count == http_offset
          then (read true skipped.ring (if ltb header_len 4096 then header_len else 4096)).ring
          else skipped.ring
    ]

-- What follows once the response has been found.
unfoldable pub check_response : WebSocket → List ℕ → ℕ → Bool → HandshakeResult × WebSocket
check_response ws bytes http_offset malloc =
    let remaining = length bytes - http_offset in
    let copy_len =
      if ltb remaining (ws_max_header_size - 1) then remaining else ws_max_header_size - 1 in
    let response = c_string (take copy_len (drop http_offset bytes)) in
    let lower = map_lower response in
    if not (leb 12 copy_len && is_101 response)
    then (refused, ws)
    else if not malloc
    then (refused, ws)
    else if has_upgrade lower && has_connection lower
    then (complete, record ws { rx_ring = consume_response ws.rx_ring http_offset })
    else (more_data, ws)

-- `parse_handshake_response`; whether malloc succeeds is an argument.
unfoldable pub parse_handshake_response : WebSocket → Bool → HandshakeResult × WebSocket
parse_handshake_response ws malloc =
    let (p, len) = read_inline ws.rx_ring in
    let bytes = bytes_at ws.rx_ring.buf p len in
    if ltb len 12
    then (more_data, ws)
    else elim (find_http bytes 0 (if ltb len 100 then len else 100)) [
      | none ↦ (if ltb 200 len then refused else more_data, ws)
      | some http_offset ↦ check_response ws bytes http_offset malloc
    ]
