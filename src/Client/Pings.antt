-- ===== src/Client/Pings.antt =====
-- The heartbeat (src/websocket.c, websocket_set_heartbeat_config and check_heartbeat).
pub mod Timeout
use websocket.Prelude.{
  ℕ, ◌*◌, ◌%◌, ◌^◌, List, [], ◌∷◌, ◌++◌, some, Bool, true, false, not, ◌||◌, ◌&&◌, ltb, leb, ◌==◌,
  if◌then◌else◌, sub_size,
}
use websocket.Ring.{write}
use websocket.Client.{WebSocket, Heartbeat, heartbeat_timeout, Flush, flush, ws_log, debug, warn}
use websocket.Client.Send.{is_connected}

-- `websocket_set_heartbeat_config`, with the fields of the configuration, which is not NULL.
pub websocket_set_heartbeat_config :
    WebSocket → (enable callback : Bool) → (interval timeout : ℕ) → WebSocket
websocket_set_heartbeat_config ws enable callback interval timeout = record ws {
  heartbeat = record {
    enable_heartbeat = enable;
    ping_interval_ms = interval;
    pong_timeout_ms = timeout;
    on_heartbeat_timeout = callback;
    last_ping_sent_ns = 0;
    last_pong_received_ns = 0;
  };
}

-- Milliseconds as nanoseconds.
unfoldable pub ms_to_ns : ℕ → ℕ
ms_to_ns ms = ms * 1000000 % 2 ^ 64

-- Whether the ping interval has elapsed.
unfoldable pub ping_due : Heartbeat → ℕ → Bool
ping_due h now_ns =
    (h.last_ping_sent_ns == 0)
    || leb (ms_to_ns h.ping_interval_ms) (sub_size now_ns h.last_ping_sent_ns)

-- The empty ping frame.
abbrev pub ping_frame : List ℕ
ping_frame = 0x89 ∷ 0x00 ∷ []

-- Sending a ping; it is noted only if the ring took all of it.
unfoldable pub send_ping : WebSocket → ℕ → Flush → WebSocket
send_ping ws now_ns out =
    let (written, ring) = write ws.tx_ring (some ping_frame) in
    let queued = record ws { tx_ring = ring } in
    let flushed = flush queued out in
    let noted = record flushed {
      heartbeat = record (flushed.heartbeat) { last_ping_sent_ns = now_ns };
    } in
    if written == 2 then ws_log noted debug else queued

-- Whether a ping has waited for its pong too long.
unfoldable pub pong_overdue : Heartbeat → ℕ → Bool
pong_overdue h now_ns =
    (ltb 0 h.last_ping_sent_ns && ltb h.last_pong_received_ns h.last_ping_sent_ns)
    && leb (ms_to_ns h.pong_timeout_ms) (sub_size now_ns h.last_ping_sent_ns)

-- The timeout: it is logged and reported, and the next check sends a ping again.
unfoldable pub report_timeout : WebSocket → WebSocket
report_timeout ws =
    let logged = ws_log ws warn in
    record logged {
      events =
          if logged.heartbeat.on_heartbeat_timeout
          then logged.events ++ heartbeat_timeout ∷ []
          else logged.events;
      heartbeat = record (logged.heartbeat) { last_ping_sent_ns = 0 };
    }

-- `check_heartbeat`
unfoldable pub check_heartbeat : WebSocket → ℕ → Flush → WebSocket
check_heartbeat ws now_ns out =
    let pinged = if ping_due ws.heartbeat now_ns then send_ping ws now_ns out else ws in
    if not ws.heartbeat.enable_heartbeat || not (is_connected ws.state)
    then ws
    else if pong_overdue pinged.heartbeat now_ns
    then report_timeout pinged
    else pinged
