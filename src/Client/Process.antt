-- ===== src/Client/Process.antt =====
-- websocket_process (src/websocket.c) with io_poll (src/io_kqueue.c). What the kernel and the TLS
-- library return is the argument `World`, whose n-th answers are those to the n-th call of each
-- kind.
pub mod Turn
pub mod Drained
pub mod Lost
pub mod Stays
pub mod Onward
pub mod Unheard
pub mod Hands
pub mod Sound
pub mod Robust
use websocket.Prelude.{
  ℕ, zero, suc, ◌+◌, ◌-◌, List, [], ◌∷◌, ◌++◌, Option, none, some, Bool, true, false, not, ◌&&◌,
  ◌||◌, ltb, leb, ◌==◌, if◌then◌else◌, codes,
}
use websocket.Ring.{Ring, read_inline, readable}
use websocket.Io.{IoContext, ev_add, rewatch}
use websocket.Transfer.{SslContext, OsStatus, Received, Clock, Stamp, ssl_read, ssl_write, io_read}
use websocket.Transfer.Session.{ssl_is_handshake_complete}
use websocket.Client.{
  WebSocket, WsState, connecting, connected, closing, closed, failed, ws_log, info, Reconnect,
}
use websocket.Client.Send.{is_connected}
use websocket.Client.Receive.{Outside, process_frames}
use websocket.Client.Handshake.{
  HandshakeResult, complete, more_data, refused, contains, string_at, parse_handshake_response,
}
use websocket.Client.Lifecycle.{is_open, websocket_close}
use websocket.Client.Observe.{Floating, check_health, report_metrics_if_needed}
use websocket.Client.Pings.{check_heartbeat}
use websocket.Client.{Flush}

-- `struct kevent`, as kevent() returns it: the udata, none where it is negative, whether EV_EOF or
-- EV_ERROR is set, and whether the filter is EVFILT_READ.
pub record Kevent : Type 0 where
  pub udata : Option ℕ
  pub broken : Bool
  pub readable_filter : Bool

-- The rest of what websocket_process takes from outside.
pub record World : Type 0 where
  pub reads : ℕ → OsStatus × List ℕ × List (ℕ × Clock × Option Stamp)  -- SSLRead
  pub writes : ℕ → OsStatus × ℕ  -- SSLWrite
  pub receives : ℕ → Received × Clock × Option Stamp  -- recvmsg
  pub passes : ℕ → ℕ → Outside  -- the rounds of each process_frames
  pub mallocs : ℕ → Bool  -- the malloc of each parse_handshake_response
  pub malloc_samples : Bool
  pub established_ns : ℕ  -- the readings of the clock
  pub health_ns : ℕ
  pub report_ns : ℕ
  pub metrics_ns : ℕ
  pub heartbeat_ns : ℕ
  pub out : Flush  -- the transfer of a ping

-- The WebSocket and how many calls of each kind have been made.
pub record Run : Type 0 where
  pub ws : WebSocket
  pub read : ℕ
  pub written : ℕ
  pub received : ℕ
  pub passed : ℕ
  pub parsed : ℕ

-- EV_ADD for the socket of one event.
unfoldable pub rearm : IoContext → Option ℕ → IoContext
rearm ctx none = ctx
rearm ctx (some i) =
    if ltb i ctx.socket_count
    then record ctx { watch = rewatch ctx.watch (ctx.sockets i).fd i }
    else ctx

unfoldable pub rearm_all : IoContext → List Kevent → IoContext
rearm_all ctx [] = ctx
rearm_all ctx (event ∷ events) = rearm_all (rearm ctx event.udata) events

-- `io_poll`, given the events that kevent() returns, none for -1.
unfoldable pub io_poll :
    Option IoContext → Option (List Kevent) → Option (List Kevent) × Option IoContext
io_poll none polled = (none, none)
io_poll (some ctx) none = (none, some ctx)
io_poll (some ctx) (some events) = (some events, some (rearm_all ctx events))

-- A call of ssl_read on the receive ring.
unfoldable pub call_ssl_read : World → Run → Option ℕ × Run
call_ssl_read w s = go s.ws.ssl_ctx
  where
    go : Option SslContext → Option ℕ × Run
    go none = (none, s)
    go (some ctx) =
        let (status, xs, arrivals) = w.reads s.read in
        let (result, ctx', rx) = ssl_read ctx s.ws.rx_ring status xs arrivals in
        (
          result,
          record s { ws = record (s.ws) { ssl_ctx = some ctx'; rx_ring = rx }; read = s.read + 1 },
        )

-- A call of ssl_write on the transmit ring.
unfoldable pub call_ssl_write : World → Run → Option ℕ × Run
call_ssl_write w s = go s.ws.ssl_ctx
  where
    go : Option SslContext → Option ℕ × Run
    go none = (none, s)
    go (some ctx) =
        let (status, n) = w.writes s.written in
        let (result, tx) = ssl_write s.ws.tx_ring status n in
        (result, record s { ws = record (s.ws) { tx_ring = tx }; written = s.written + 1 })

-- A call of io_read.
unfoldable pub call_io_read : World → Run → Option ℕ → Run
call_io_read w s index =
    let (arrival, clock, stamp) = w.receives s.received in
    let (result, io, rx) = io_read s.ws.io_ctx index s.ws.rx_ring arrival clock stamp in
    record s { ws = record (s.ws) { io_ctx = io; rx_ring = rx }; received = s.received + 1 }

-- A call of process_frames.
unfoldable pub pass : World → Run → Run
pass w s = record s { ws = process_frames s.ws (w.passes s.passed); passed = s.passed + 1 }

unfoldable pub is_positive : Option ℕ → Bool
is_positive none = false
is_positive (some n) = ltb 0 n

unfoldable pub is_zero : Option ℕ → Bool
is_zero none = false
is_zero (some n) = n == 0

unfoldable pub is_negative : Option ℕ → Bool
is_negative none = true
is_negative (some n) = false

-- on_error, where it is set.
unfoldable pub call_on_error : WebSocket → WebSocket
call_on_error ws = record ws {
  events = if ws.on_error then ws.events ++ failed ∷ [] else ws.events;
}

-- The loop that drives the TLS handshake, with `left` of its 20 iterations left.
unfoldable pub drive_ssl : World → ℕ → Bool → Run → Run
drive_ssl w zero made_progress s = s
drive_ssl w (suc left) made_progress s =
    let iterations = 20 - left in
    let (wrote, s1) = call_ssl_write w s in
    let (got, s2) = call_ssl_read w s1 in
    let moved = is_positive got || is_positive wrote in
    let rest = drive_ssl w left (made_progress || moved) s2 in
    if ssl_is_handshake_complete s2.ws.ssl_ctx
    then s2
    else if moved
    then rest
    else if (is_zero got && is_zero wrote) && (made_progress || leb 5 iterations)
    then s2
    else if (is_negative got || is_negative wrote) && leb 10 iterations
    then s2
    else rest

-- Reading from the TLS connection while it gives bytes, at most `left` times more.
unfoldable pub read_while : World → ℕ → Run → Run
read_while w zero s = s
read_while w (suc left) s =
    let (result, s') = call_ssl_read w s in
    let rest = read_while w left s' in if is_positive result then rest else s'

-- The handshake is complete. The write filter that is added is not part of `watch`.
unfoldable pub establish : WebSocket → ℕ → WebSocket
establish ws now_ns =
    let r = ws.reconnect in
    let opened = record ws { state = connected } in
    let started =
      if ws.connection_start_ns == 0
      then ws_log (record opened { connection_start_ns = now_ns }) info
      else opened in
    record started {
      reconnect =
          if r.reset_backoff_on_success
          then record r {
            reconnect_attempts = 0;
            is_reconnecting = false;
            next_backoff_ms = r.initial_backoff_ms;
          }
          else r;
    }
