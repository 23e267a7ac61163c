-- ===== src/Client/Process/Turn.antt =====
-- The handling of events, and websocket_process itself (src/websocket.c).
use websocket.Prelude.{
  ℕ, zero, suc, ◌+◌, ◌-◌, List, [], ◌∷◌, Option, none, some, Bool, false, not, ◌&&◌, ◌||◌, ltb,
  ◌==◌, if◌then◌else◌, length, codes,
}
use websocket.Ring.{read_inline, readable}
use websocket.Io.{IoContext}
use websocket.Client.{WebSocket, connecting, connected, closing, closed}
use websocket.Client.Send.{is_connected}
use websocket.Client.Handshake.{
  complete, more_data, refused, contains, string_at, parse_handshake_response,
}
use websocket.Client.Lifecycle.{is_open, websocket_close}
use websocket.Client.Observe.{Floating, check_health, report_metrics_if_needed}
use websocket.Client.Pings.{check_heartbeat}
use websocket.Client.Process.{
  Kevent, World, Run, io_poll, call_ssl_read, call_ssl_write, call_io_read, pass, is_positive,
  is_zero, call_on_error, drive_ssl, read_while, establish,
}

-- What follows the reads while the connection is opening.
unfoldable pub take_response : World → Run → Run
take_response w s =
    let (p, test_len) = read_inline s.ws.rx_ring in
    let (result, ws') = parse_handshake_response s.ws (w.mallocs s.parsed) in
    let parsed = record s { parsed = s.parsed + 1 } in
    if test_len == 0 then s else elim result [
      | complete ↦ record parsed { ws = establish ws' w.established_ns }
      | more_data ↦ record parsed { ws = ws' }
      | refused ↦
          if ltb 200 test_len && contains (codes "HTTP") (string_at ws'.rx_ring p)
          then record parsed { ws = websocket_close (call_on_error ws') }
          else record parsed { ws = ws' }
    ]

unfoldable pub go_on_connecting : World → Run → Run
go_on_connecting w s =
    let driven = (call_ssl_write w (drive_ssl w 20 false s)).1 in
    if s.ws.use_ssl then take_response w (read_while w 20 driven) else take_response w s

-- The loop that calls process_frames until the read position stays, with at most `fuel` calls.
unfoldable pub drain : World → ℕ → Run → Run
drain w zero s = s
drain w (suc fuel) s =
    let s' = pass w s in
    let rest = drain w fuel s' in
    if s'.ws.rx_ring.read_ptr == s.ws.rx_ring.read_ptr then s' else rest

-- A call of process_frames, and the loop. As many calls as there are bytes, and one more, are
-- enough.
unfoldable pub drain_all : World → Run → Run
drain_all w s = let s' = pass w s in drain w (readable s'.ws.rx_ring + 1) s'

-- EV_EOF or EV_ERROR.
unfoldable pub lose : WebSocket → WebSocket
lose ws = if is_open ws.state then call_on_error (record ws { state = closed }) else ws

-- One event of websocket_process.
unfoldable pub handle_event : World → Run → Kevent → Run
handle_event w s event =
    let s1 = if s.ws.use_ssl then (call_ssl_read w s).1 else call_io_read w s event.udata in
    if event.broken
    then record s { ws = lose s.ws }
    else if not event.readable_filter
    then s
    else elim s1.ws.state [
      | connecting ↦ go_on_connecting w s1
      | connected ↦ drain_all w s1
      | closing ↦ s1
      | closed ↦ s1
    ]

unfoldable pub handle_events : World → Run → List Kevent → Run
handle_events w s [] = s
handle_events w s (event ∷ events) = handle_events w (handle_event w s event) events

-- The inner loop of the reads over TLS, with `left` of its 50 iterations left.
unfoldable pub drain_some : World → ℕ → Run → Run
drain_some w zero s = s
drain_some w (suc left) s =
    let s' = pass w s in
    let rest = drain_some w left s' in
    if not (is_connected s.ws.state)
    then s
    else if s'.ws.rx_ring.read_ptr == s.ws.rx_ring.read_ptr
    then s'
    else if not (is_connected s'.ws.state)
    then s'
    else rest

-- The reads over TLS without events, with `left` of at most 200 left.
unfoldable pub drain_ssl : World → ℕ → Bool → Run → Run
drain_ssl w zero made_progress s = s
drain_ssl w (suc left) made_progress s =
    let ssl_read_attempts = 200 - left in
    let (result, s1) = call_ssl_read w s in
    let passed = pass w s1 in
    let handled = if is_positive result then drain_some w 50 passed else passed in
    let rest = drain_ssl w left (made_progress || is_positive result) handled in
    if not (is_connected s.ws.state)
    then s
    else if not (is_connected s1.ws.state)
    then passed
    else if is_positive result
    then rest
    else if is_zero result
    then (if made_progress && ltb ssl_read_attempts 5 then rest else passed)
    else pass w (record s1 { ws = call_on_error (record (s1.ws) { state = closed }) })

-- What follows the events on an open connection.
unfoldable pub drain_connection : World → Run → Run
drain_connection w s =
    let drained = drain_ssl w 200 false s in
    if not (is_connected s.ws.state)
    then s
    else if not s.ws.use_ssl
    then pass w s
    else if is_connected drained.ws.state
    then pass w drained
    else drained

-- The periodic checks.
unfoldable pub observe : Floating → World → WebSocket → WebSocket
observe f w ws =
    let checked = check_health f ws w.health_ns in
    let reported = report_metrics_if_needed f checked w.report_ns w.metrics_ns w.malloc_samples in
    if is_connected ws.state then check_heartbeat reported w.heartbeat_ns w.out else ws

-- The state of a turn before its first event.
unfoldable pub turn_start : WebSocket → Run
turn_start ws = record { ws = ws; read = 0; written = 0; received = 0; passed = 0; parsed = 0 }

-- What follows io_poll, which returns the events and the I/O context.
unfoldable pub after_poll :
    Floating → World → WebSocket → Option (List Kevent) × Option IoContext → Option ℕ × WebSocket
after_poll f w ws (none, io) = (none, ws)
after_poll f w ws (some events, io) =
    let start = turn_start (record ws { io_ctx = io }) in
    let handled = drain_connection w (handle_events w start events) in
    (some (length events), observe f w handled.ws)

-- `websocket_process`, given the events that kevent() returns, none for -1. The result is their
-- number, none for -1.
unfoldable pub websocket_process :
    Floating → World → WebSocket → Option (List Kevent) → Option ℕ × WebSocket
websocket_process f w ws polled = after_poll f w ws (io_poll ws.io_ctx polled)
