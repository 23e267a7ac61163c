-- ===== src/Tests/Wire.antt =====
-- Frames, transfers and a connection with two messages in its receive ring.
use websocket.Prelude.{
  pos, ℕ, ◌+◌, ◌^◌, ◌≤◌, ◌<◌, ◌≡◌, ◌⊎◌, refl, List, [], ◌∷◌, ◌++◌, none, some, Bool, true, false,
  memcpy, bytes_at, length, arith, if◌then◌else◌,
}
use websocket.Tests.{wrapped, straight, fresh, wrapped-IsValid, fresh-IsValid}
use websocket.Ring.{Ring, writeable, used, write_inline}
use websocket.Ring.Invariant.{IsValid}
use websocket.Ring.Stored.{contents}
use websocket.Frame.{Frame, success, zero_frame, neon_parse_ws_frame, scalar_parse_ws_frame}
use websocket.Frame.Bounds.{neon_parse-eq-scalar_parse, parse_bounds, parse_overflow}
use websocket.Frame.Build.{send_header, pong_header, as_memory}
use websocket.Frame.Mask.{mask_from, unmask_loop}
use websocket.Frame.Roundtrip.{parsed, length_type, data_byte, parse-send_header}
use websocket.Frame.Pong.{parse-pong_header}
use websocket.Io.{IoContext, zeroed_socket}
use websocket.Transfer.{arrived, receive, SslContext, would_block}
use websocket.Transfer.Plain.{receive_overfill}
use websocket.Client.{WebSocket, connected, Flush, flush}
use websocket.Client.{Heartbeat, Reconnect, healthy}
use websocket.Client.Send.{is_connected, websocket_send}
use websocket.Client.Send.Queued.{Queues, websocket_send_lem}
use websocket.Client.Receive.{Outside}
use websocket.Client.Receive.Rounds.{frames}

-- "hi" as a text frame.
abbrev pub hi : List ℕ
hi = 104 ∷ 105 ∷ []

abbrev hi_frame : List ℕ
hi_frame = 129 ∷ 2 ∷ hi

abbrev hi_parsed : Frame
hi_parsed = parsed 129 0 7 2 0 2

hi_parses : neon_parse_ws_frame (as_memory hi_frame) 4 zero_frame ≡ (success, hi_parsed)
unfolding neon_parse_ws_frame
hi_parses = refl

neon_parse-eq-scalar_parse_example :
    neon_parse_ws_frame (as_memory hi_frame) 4 zero_frame
    ≡ scalar_parse_ws_frame (as_memory hi_frame) 4 zero_frame
neon_parse-eq-scalar_parse_example = neon_parse-eq-scalar_parse (as_memory hi_frame) 4 zero_frame

parse_bounds_example :
    (2 ≤ 2) × (2 ≤ 14) × (hi_parsed.payload ≡ some 2) × ((2 + 2 ≤ 4) ⊎ (2 ^ 64 ≤ 2 + 2))
parse_bounds_example = parse_bounds (as_memory hi_frame) 4 zero_frame {out = hi_parsed} hi_parses

-- A length of 2 ^ 64 - 1.
abbrev huge : List ℕ
huge = 130 ∷ 127 ∷ 255 ∷ 255 ∷ 255 ∷ 255 ∷ 255 ∷ 255 ∷ 255 ∷ 255 ∷ []

parse_overflow_example :
    let (code, out) = neon_parse_ws_frame (as_memory huge) 10 zero_frame in
    (code ≡ success) × (10 < out.payload_len)
parse_overflow_example =
    parse_overflow (as_memory huge) 10 zero_frame (omega arith) (omega arith) refl (omega arith)
      (omega arith)

parse-send_header_example :
    let bytes = send_header true 2 ++ hi ++ 130 ∷ [] in
    (neon_parse_ws_frame (as_memory bytes) (length bytes) zero_frame
      ≡ (success, parsed (data_byte true) 0 (length_type 2) 2 0 (length (send_header true 2))))
    × (bytes_at (as_memory bytes) (length (send_header true 2)) 2 ≡ hi)
parse-send_header_example = parse-send_header true hi (130 ∷ []) zero_frame (omega arith)

parse-pong_header_example :
    let header = pong_header 305419896 2 in
    let m = as_memory (header ++ mask_from 305419896 0 hi ++ []) in
    let len = length (header ++ mask_from 305419896 0 hi ++ []) in
    (neon_parse_ws_frame m len zero_frame
      ≡ (success, parsed 138 1 (length_type 2) 2 305419896 (length header)))
    × (bytes_at (unmask_loop (length header) 305419896 2 0 m) (length header) 2 ≡ hi)
parse-pong_header_example = parse-pong_header 305419896 hi [] zero_frame (omega arith) (omega arith)

room-wrapped : (write_inline wrapped).1 ≡ 5
unfolding write_inline
room-wrapped = refl

abbrev eight : List ℕ
eight = 1 ∷ 2 ∷ 3 ∷ 4 ∷ 5 ∷ 6 ∷ 7 ∷ 8 ∷ []

receive_overfill_example :
    let (n, r') = receive fresh (arrived eight) in (n ≡ some 8) × (contents r' ≡ [])
unfolding write_inline writeable
receive_overfill_example = receive_overfill eight fresh-IsValid refl refl

abbrev pub secure : SslContext
secure = record {
  fd = some 5;
  cert_validation_disabled = false;
  peer_hostname = [];
  st_ctx = true;
  st_conn = true;
  read_buf = true;
  read_buf_size = 65536;
  last_nic_timestamp_ns = 0;
  last_nic_timestamp_ticks = 0;
}

abbrev unused : IoContext
unused = record {
  opened = true;
  watch = λ _. none;
  sockets = λ _. zeroed_socket;
  socket_count = 0;
  e_core_pinned = false;
}

abbrev pub no_reconnect : Reconnect
no_reconnect = record {
  auto_reconnect = false;
  max_retries = 0;
  initial_backoff_ms = 100;
  max_backoff_ms = 30000;
  backoff_multiplier = 0;
  reset_backoff_on_success = true;
  is_reconnecting = false;
  reconnect_attempts = 0;
  next_backoff_ms = 100;
  last_reconnect_attempt_ns = 0;
}

-- An open connection over SSL with the given rings.
abbrev pub live : Ring → Ring → WebSocket
live rx tx = record {
  state = connected;
  fd = some 5;
  url = none;
  host = [];
  path = [];
  port = pos 443;
  use_ssl = true;
  cert_validation_disabled = false;
  sec_websocket_key = [];
  ssl_ctx = some secure;
  io_ctx = some unused;
  socket_index = some 0;
  rx_ring = rx;
  tx_ring = tx;
  on_message = true;
  on_error = false;
  on_metrics = false;
  on_health = false;
  log_callback = false;
  frame_pool_idx = 0;
  frame_parse_errors = 0;
  metrics = record {
    messages_received = 0;
    messages_sent = 0;
    errors_total = 0;
    bytes_received = 0;
    bytes_sent = 0;
    latency_p50_ns = 0;
    latency_p99_ns = 0;
    throughput_msg_per_sec = 0;
    ringbuffer_utilization = 0;
    connection_uptime_ns = 0;
  };
  metrics_last_report_ns = 0;
  connection_start_ns = 0;
  current_health = healthy;
  last_health_check_ns = 0;
  reconnect = no_reconnect;
  closed_fds = [];
  freed = [];
  wire = [];
  latency = record { samples = none; count = 0; capacity = 0; idx = 0 };
  heartbeat = record {
    enable_heartbeat = false;
    ping_interval_ms = 0;
    pong_timeout_ms = 0;
    on_heartbeat_timeout = false;
    last_ping_sent_ns = 0;
    last_pong_received_ns = 0;
  };
  events = [];
}

abbrev ws : WebSocket
ws = live straight wrapped

-- Nothing is written.
abbrev pub blocked : Flush
blocked = record { writev = none; status = would_block; written = 0 }

websocket_send_lem_example :
    let (sent, ws') = websocket_send ws (some hi) true blocked in
    (r : Ring) × (q : Queues wrapped (send_header true 2 ++ hi) sent r) × (ws'.tx_ring
      ≡ (if sent then (flush (record ws { tx_ring = r }) blocked).tx_ring else r))
    × (ws'.wire ≡ (if sent then (flush (record ws { tx_ring = r }) blocked).wire else []))
    × (ws'.metrics.messages_sent ≡ (if sent then 1 else 0))
unfolding is_connected
websocket_send_lem_example =
    websocket_send_lem ws hi true blocked wrapped-IsValid refl (omega arith)

abbrev pub messages : List (Bool × List ℕ)
messages = (true, hi) ∷ (false, 1 ∷ 2 ∷ 3 ∷ []) ∷ []

abbrev arrived_ring : Ring
arrived_ring = record {
  base = 128;
  buf = memcpy (λ _. 0) 2 (hi_frame ++ 130 ∷ 3 ∷ 1 ∷ 2 ∷ 3 ∷ []);
  size = 16;
  read_ptr = 2;
  write_ptr = 11;
  locked = false;
}

arrived_ring-IsValid : IsValid arrived_ring
arrived_ring-IsValid = record {
  nonempty = omega arith;
  small = omega arith;
  read_in = omega arith;
  write_in = omega arith;
}

contents-arrived_ring : contents arrived_ring ≡ frames messages
unfolding used frames send_header
contents-arrived_ring = refl

abbrev waiting : WebSocket
waiting = live arrived_ring wrapped

abbrev pub outside : ℕ → Outside
outside _ = record { now_ns = 0; key = 0; malloc = true; out = blocked }

-- A ping was sent at 1 ns, no pong has come.
abbrev heartbeat_of : ℕ → ℕ → Heartbeat
heartbeat_of interval timeout = record {
  enable_heartbeat = true;
  ping_interval_ms = interval;
  pong_timeout_ms = timeout;
  on_heartbeat_timeout = true;
  last_ping_sent_ns = 1;
  last_pong_received_ns = 0;
}

abbrev patient : WebSocket
patient = record (live straight straight) { heartbeat = heartbeat_of 20000 60000 }

abbrev hasty : WebSocket
hasty = record (live straight straight) { heartbeat = heartbeat_of 60000 10000 }
