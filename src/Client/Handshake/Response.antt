-- ===== src/Client/Handshake/Response.antt =====
-- When parse_handshake_response takes the response out of the receive ring.
use websocket.Prelude.{
  ℕ, zero, suc, ◌+◌, ◌-◌, ◌≤◌, ◌<◌, ◌≡◌, ◌∙◌, refl, sym, ap, List, ◌++◌, Option, none, some, Bool,
  Bool-cases, inl, inr, true, false, ltb, leb, ◌==◌, if◌then◌else◌, length, length-append, take,
  drop, codes, strstr, c_string, bytes_at, tabulate, tabulate-add, take-tabulate, take_front,
  drop_front, take-append, take_of_le, c_string-append, strstr_extends, arith, lacks, Memory,
}
use websocket.Ring.{Ring, read_inline, read}
use websocket.Ring.Setup.{ringbuffer_alignment}
use websocket.Ring.Invariant.{IsValid, readable-eq-used}
use websocket.Ring.Stored.{contents, length-contents}
use websocket.Ring.Inline.{straight_read, straight_used, read_inline-contents}
use websocket.Ring.Refine.{read_null, read_lem}
use websocket.Client.{WebSocket}
use websocket.Client.Handshake.Headers.{
  map_lower-append, has_upgrade_extends, has_connection_extends, is_101_extends, is_101-is_http,
  is_101_fits,
}
use websocket.Client.Handshake.{
  complete, is_http, find_http, map_lower, is_101, has_upgrade, has_connection, string_at,
  consume_response, check_response, parse_handshake_response,
}

-- A NULL destination skips nothing.
consume_response_stuck :
    (r : Ring) (http_offset : ℕ) → 0 < http_offset → consume_response r http_offset ≡ r
unfolding consume_response
consume_response_stuck r http_offset h =
    let none_skipped : (0 == http_offset) ≡ false = ground arith in
    go (strstr (codes "\r\n\r\n") (string_at r (r.read_ptr + http_offset))) refl
  where
    go :
        (o : Option ℕ)
        → strstr (codes "\r\n\r\n") (string_at r (r.read_ptr + http_offset)) ≡ o
        → consume_response r http_offset ≡ r
    go none e = rw (consume_response, e)
    go (some i) e =
        let none_skipped : (0 == http_offset) ≡ false = ground arith in
        rw (consume_response, e, read_null, none_skipped)

check_response_stuck :
    (ws : WebSocket) (bytes : List ℕ) (http_offset : ℕ) (malloc : Bool)
    → 0 < http_offset
    → (check_response ws bytes http_offset malloc).1 ≡ ws
unfolding check_response
check_response_stuck ws bytes http_offset malloc h =
    rw (consume_response_stuck ws.rx_ring http_offset h) (ground arith)

-- Where anything stands before the response in the receive ring, parse_handshake_response takes
-- nothing out of the ring, whatever it returns.
pub parse_handshake_response_stuck :
    (ws : WebSocket) (malloc : Bool) (http_offset : ℕ)
    → (let (p, len) = read_inline ws.rx_ring in
        find_http (bytes_at ws.rx_ring.buf p len) 0 (if ltb len 100 then len else 100)
        ≡ some http_offset)
    → 0 < http_offset
    → (parse_handshake_response ws malloc).1 ≡ ws
unfolding parse_handshake_response
parse_handshake_response_stuck ws malloc http_offset found h =
    elim (Bool-cases (ltb (read_inline ws.rx_ring).1 12)) [
      | inl short ↦ rw short
      | inr long ↦ rw (long, found) (check_response_stuck ws _ http_offset malloc h)
    ]

-- A whole response: it has no NUL, says 101, has both headers and ends with the first empty line.
pub record IsResponse (s : List ℕ) : Type 0 where
  pub is_text : lacks 0 s ≡ true
  pub switching : is_101 s ≡ true
  pub upgrade : has_upgrade (map_lower s) ≡ true
  pub connection : has_connection (map_lower s) ≡ true
  pub header_end : ℕ
  pub ends : strstr (codes "\r\n\r\n") s ≡ some header_end
  pub whole : length s ≡ header_end + 4
  pub small : length s ≤ 4095

find_http-first :
    (s t : List ℕ) (left : ℕ) → is_101 s ≡ true → 0 < left → find_http (s ++ t) 0 left ≡ some 0
unfolding find_http
find_http-first s t zero h p = absurd (omega arith)
find_http-first s t (suc left) h p =
    let long : leb 12 (length (s ++ t) - 0) ≡ true =
      ground (arith, is_101_fits s h, length-append s t) in
    let http : is_http (s ++ t) ≡ true = is_101-is_http (s ++ t) (is_101_extends s t h) in
    rw (long, http)

-- The bytes at the beginning of a longer block.
front_lem :
    (m : Memory) (p n : ℕ) (s t : List ℕ)
    → bytes_at m p n ≡ s ++ t
    → n ≡ length s + length t
    → bytes_at m p (length s) ≡ s
front_lem m p n s t e h =
    sym (take-tabulate (length s) (length t) (λ k. m (p + k)))
    ∙ ap (take (length s)) (ap (bytes_at m p) (sym h) ∙ e)
    ∙ take_front s t

string_at-append :
    (r : Ring) (p more : ℕ) (s : List ℕ)
    → bytes_at r.buf p (length s) ≡ s
    → r.size + ringbuffer_alignment - p ≡ length s + more
    → lacks 0 s ≡ true
    → string_at r p ≡ s ++ c_string (tabulate more (λ k. r.buf (p + (length s + k))))
unfolding string_at
string_at-append r p more s e h q =
    ap (λ n. c_string (bytes_at r.buf p n)) h
    ∙ ap c_string (tabulate-add (length s) more (λ k. r.buf (p + k)))
    ∙ ap (λ t. c_string (t ++ tabulate more (λ k. r.buf (p + (length s + k))))) e
    ∙ c_string-append s _ q

module _ (r : Ring) (s rest : List ℕ) (v : IsValid r) (straight : r.read_ptr ≤ r.write_ptr)
    (e : contents r ≡ s ++ rest) (w : IsResponse s) where
  held : bytes_at r.buf r.read_ptr (r.write_ptr - r.read_ptr) ≡ s ++ rest
  held =
      ap (λ (p : ℕ × ℕ). bytes_at r.buf p.0 p.1) (sym (straight_read r v straight))
      ∙ read_inline-contents v (inl straight)
      ∙ e

  held_length : r.write_ptr - r.read_ptr ≡ length s + length rest
  held_length = omega (
    arith,
    length-append s rest,
    ap length e,
    length-contents r,
    readable-eq-used r,
    straight_used r v straight,
  )

  headers_end : strstr (codes "\r\n\r\n") (string_at r (r.read_ptr + 0)) ≡ some w.header_end
  headers_end =
      let more = r.size + ringbuffer_alignment - r.read_ptr - length s in
      ap (strstr (codes "\r\n\r\n")) (
        ap (string_at r) (omega arith)
        ∙ string_at-append r r.read_ptr more s
            (front_lem r.buf r.read_ptr _ s rest held held_length)
            (let v' = v in omega (arith, held_length)) w.is_text)
      ∙ strstr_extends (codes "\r\n\r\n") s _ w.header_end w.ends

  consume_response-read : consume_response r 0 ≡ (read true r (length s)).ring
  unfolding consume_response
  consume_response-read =
      let limit : (if ltb (w.header_end + 4) 4096 then w.header_end + 4 else 4096) ≡ length s =
        ground (arith, w.whole, w.small) in
      rw (consume_response, headers_end, read_null r 0, limit) refl

  contents-consume_response : contents (consume_response r 0) ≡ rest
  contents-consume_response =
      ap contents consume_response-read
      ∙ (read_lem (length s) v).2
      ∙ ap (drop (length s)) e
      ∙ drop_front s rest

-- The response copied out is the text and whatever follows it.
copied_lem :
    (s rest : List ℕ) (copy_len : ℕ)
    → length s ≤ copy_len
    → lacks 0 s ≡ true
    → c_string (take copy_len (s ++ rest)) ≡ s ++ c_string (take (copy_len - length s) rest)
copied_lem s rest copy_len h q =
    ap c_string (
      take-append copy_len s rest
      ∙ ap (λ t. t ++ take (copy_len - length s) rest) (take_of_le copy_len s h))
    ∙ c_string-append s _ q

check_response-complete :
    (ws : WebSocket) (s rest : List ℕ)
    → IsResponse s
    → check_response ws (s ++ rest) 0 true
      ≡ (complete, record ws { rx_ring = consume_response ws.rx_ring 0 })
unfolding check_response
check_response-complete ws s rest w =
    let copy_len = if ltb (length (s ++ rest) - 0) 4095 then length (s ++ rest) - 0 else 4095 in
    let fits : length s ≤ copy_len = ground (arith, length-append s rest, w.small) in
    let t = c_string (take (copy_len - length s) rest) in
    let long : leb 12 copy_len ≡ true = ground (arith, is_101_fits s w.switching) in
    let text : c_string (take copy_len (s ++ rest)) ≡ s ++ t =
      copied_lem s rest copy_len fits w.is_text in
    let lower : map_lower (s ++ t) ≡ map_lower s ++ map_lower t = map_lower-append s t in
    let switching = is_101_extends s t w.switching in
    let upgrade = has_upgrade_extends (map_lower s) (map_lower t) w.upgrade in
    let connection = has_connection_extends (map_lower s) (map_lower t) w.connection in
    rw (text, lower, switching, upgrade, connection, long) refl

-- On a well-formed receive ring that does not wrap round its end and whose bytes begin with a whole
-- response, of at most 4095 bytes, parse_handshake_response completes the handshake, given memory,
-- takes exactly the response out of the ring and keeps every byte that follows it.
pub parse_handshake_response_lem :
    (ws : WebSocket) (s rest : List ℕ)
    → IsValid ws.rx_ring
    → ws.rx_ring.read_ptr ≤ ws.rx_ring.write_ptr
    → contents ws.rx_ring ≡ s ++ rest
    → IsResponse s
    → let (result, ws') = parse_handshake_response ws true in
      (result ≡ complete) × (contents ws'.rx_ring ≡ rest)
unfolding parse_handshake_response
parse_handshake_response_lem ws s rest v straight e w =
    let r = ws.rx_ring in
    let len = r.write_ptr - r.read_ptr in
    let bound = if ltb len 100 then len else 100 in
    let total = held_length r s rest v straight e w in
    let long = is_101_fits s w.switching in
    let enough : ltb len 12 ≡ false = ground arith in
    let some_left : 0 < bound = ground arith in
    let all : bytes_at r.buf (read_inline r).0 (read_inline r).1 ≡ s ++ rest =
      read_inline-contents v (inl straight) ∙ e in
    rw
      (
        straight_read r v straight,
        held r s rest v straight e w,
        enough,
        find_http-first s rest bound w.switching some_left,
        all,
        check_response-complete ws s rest w,
      )
      (refl, contents-consume_response r s rest v straight e w)
