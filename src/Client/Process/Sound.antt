-- ===== src/Client/Process/Sound.antt =====
-- What the calls of websocket_process (src/websocket.c) leave of the receive ring, whatever
-- arrives.
use websocket.Prelude.{
  ℕ, zero, suc, ◌+◌, ◌-◌, ◌≡◌, ◌⊎◌, inl, inr, ◌∙◌, refl, List, Option, none, some, Bool, true,
  false, ◌&&◌, ◌||◌, ltb, leb, strstr, bytes_at, Bool-cases, if◌then◌else◌, arith, codes,
}
use websocket.Ring.{Ring, read_inline, read}
use websocket.Ring.Invariant.{Fits}
use websocket.Transfer.{SslContext}
use websocket.Transfer.Session.{ssl_is_handshake_complete}
use websocket.Transfer.Secure.{ssl_read-Fits}
use websocket.Transfer.Plain.{io_read-Fits}
use websocket.Client.{WebSocket}
use websocket.Client.Handshake.{
  HandshakeResult, more_data, refused, consume_response, check_response, string_at, find_http,
  parse_handshake_response,
}
use websocket.Client.Process.{
  World, Run, call_ssl_read, call_ssl_write, call_io_read, pass, is_positive, is_zero, is_negative,
  drive_ssl, read_while,
}
use websocket.Client.Receive.Robust.{process_frames-consumes}

-- The receive ring is well formed and has a given size.
abbrev pub IsSound : ℕ → Run → Type 0
IsSound size s = Fits size s.ws.rx_ring

found_or_not :
    {A : Type 0} (P : A → Type 0) (found : Option ℕ) (x : A) (f : ℕ → A)
    → P x
    → ((n : ℕ) → P (f n))
    → P (elim found as (λ _. A) [ none ↦ x | some n ↦ f n ])
found_or_not P none x f h k = h
found_or_not P (some n) x f h k = k n

context_cases : (o : Option SslContext) → (o ≡ none) ⊎ ((ctx : SslContext) × (o ≡ some ctx))
context_cases none = inl refl
context_cases (some ctx) = inr (ctx, refl)

module _ (size : ℕ) where
  pub IsSound-if :
      (b : Bool) (s t : Run) → IsSound size s → IsSound size t → IsSound size (if b then s else t)
  IsSound-if true s t h k = h
  IsSound-if false s t h k = k

  pub call_ssl_read-IsSound :
      (w : World) (s : Run) → IsSound size s → IsSound size (call_ssl_read w s).1
  unfolding call_ssl_read
  call_ssl_read-IsSound w s v = elim (context_cases s.ws.ssl_ctx) [
    | inl h ↦ rw h v
    | inr (ctx, h) ↦
        let (status, xs, arrivals) = w.reads s.read in
        rw h (ssl_read-Fits ctx s.ws.rx_ring status xs arrivals v)
  ]

  pub call_ssl_write-IsSound :
      (w : World) (s : Run) → IsSound size s → IsSound size (call_ssl_write w s).1
  unfolding call_ssl_write
  call_ssl_write-IsSound w s v = elim (context_cases s.ws.ssl_ctx) [
    | inl h ↦ rw h v
    | inr (ctx, h) ↦ rw h v
  ]

  pub call_io_read-IsSound :
      (w : World) (s : Run) (index : Option ℕ)
      → IsSound size s
      → IsSound size (call_io_read w s index)
  unfolding call_io_read
  call_io_read-IsSound w s index v =
      let (arrival, clock, stamp) = w.receives s.received in
      io_read-Fits s.ws.io_ctx index s.ws.rx_ring arrival clock stamp v

  pub drive_ssl-IsSound :
      (w : World) (left : ℕ) (made_progress : Bool) (s : Run)
      → IsSound size s
      → IsSound size (drive_ssl w left made_progress s)
  unfolding drive_ssl
  drive_ssl-IsSound w zero made_progress s v = v
  drive_ssl-IsSound w (suc left) made_progress s v =
      let (wrote, s1) = call_ssl_write w s in
      let (got, s2) = call_ssl_read w s1 in
      let v2 : IsSound size s2 = call_ssl_read-IsSound w s1 (call_ssl_write-IsSound w s v) in
      let moved = is_positive got || is_positive wrote in
      let after = drive_ssl w left (made_progress || moved) s2 in
      let rest : IsSound size after = drive_ssl-IsSound w left (made_progress || moved) s2 v2 in
      let stalls = (is_zero got && is_zero wrote) && (made_progress || leb 5 (20 - left)) in
      let fails = (is_negative got || is_negative wrote) && leb 10 (20 - left) in
      let failed = if fails then s2 else after in
      let stalled = if stalls then s2 else failed in
      IsSound-if (ssl_is_handshake_complete s2.ws.ssl_ctx) s2 (if moved then after else stalled) v2
        (IsSound-if moved after stalled rest
          (IsSound-if stalls s2 failed v2 (IsSound-if fails s2 after v2 rest)))

  pub read_while-IsSound :
      (w : World) (left : ℕ) (s : Run) → IsSound size s → IsSound size (read_while w left s)
  unfolding read_while
  read_while-IsSound w zero s v = v
  read_while-IsSound w (suc left) s v =
      let (result, s') = call_ssl_read w s in
      let v' : IsSound size s' = call_ssl_read-IsSound w s v in
      IsSound-if (is_positive result) (read_while w left s') s' (read_while-IsSound w left s' v') v'

  read-Fits : (given : Bool) (r : Ring) (len : ℕ) → Fits size r → Fits size (read given r len).ring
  unfolding read
  read-Fits given r len v = ground arith

  consume_response-Fits : (r : Ring) (n : ℕ) → Fits size r → Fits size (consume_response r n)
  unfolding consume_response
  consume_response-Fits r n v =
      let skipped = read-Fits false r n v in
      found_or_not (Fits size) (strstr (codes "\r\n\r\n") (string_at r (r.read_ptr + n))) r _ v
        (λ header_end.
          let taken =
            read-Fits true (read false r n).ring
              (if ltb (header_end + 4) 4096 then header_end + 4 else 4096) skipped in
          ground arith)

  check_response-Fits :
      (ws : WebSocket) (bytes : List ℕ) (n : ℕ) (malloc : Bool)
      → Fits size ws.rx_ring
      → Fits size (check_response ws bytes n malloc).1.rx_ring
  unfolding check_response
  check_response-Fits ws bytes n malloc v =
      let taken = consume_response-Fits ws.rx_ring n v in ground arith

  pub parse_handshake_response-Fits :
      (ws : WebSocket) (malloc : Bool)
      → Fits size ws.rx_ring
      → Fits size (parse_handshake_response ws malloc).1.rx_ring
  unfolding parse_handshake_response
  parse_handshake_response-Fits ws malloc v =
      let (p, len) = read_inline ws.rx_ring in
      let bytes = bytes_at ws.rx_ring.buf p len in
      let searched =
        found_or_not (λ (x : HandshakeResult × WebSocket). Fits size x.1.rx_ring)
          (find_http bytes 0 (if ltb len 100 then len else 100))
          (if ltb 200 len then refused else more_data, ws) (λ n. check_response ws bytes n malloc) v
          (λ n. check_response-Fits ws bytes n malloc v) in
      elim (Bool-cases (ltb len 12)) [ inl h ↦ rw h v | inr h ↦ rw h searched ]

  -- A call of process_frames.
  pub pass-IsSound : (w : World) (s : Run) → IsSound size s → IsSound size (pass w s)
  unfolding pass
  pass-IsSound w s v =
      let (v', rest) = process_frames-consumes s.ws (w.passes s.passed) v.valid in
      let (n, h, p, total) = rest in record { valid = v'; same_size = p.size ∙ v.same_size }
