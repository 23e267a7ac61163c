-- ===== src/Client/Receive.antt =====
-- process_frames and what it calls (src/websocket.c). A frame's payload is given by its offset from
-- `rx_ring.buf`, which is where the loop unmasks it.
pub mod Handled
pub mod Rounds
pub mod Delivery
pub mod Partial
pub mod Prefix
pub mod Stream
pub mod Same
pub mod Robust
use websocket.Prelude.{
  ℕ, zero, suc, ◌+◌, ◌-◌, ◌%◌, List, [], ◌∷◌, ◌++◌, Option, none, some, Bool, true, false, not,
  ◌||◌, ltb, ◌==◌, if◌then◌else◌, Memory, bytes_at, add_size, sub_size,
}
use websocket.Ring.{Ring, read_inline}
use websocket.Io.{IoContext}
use websocket.Transfer.{SslContext}
use websocket.Frame.{Frame, Outcome, success, need_more, invalid, zero_frame, neon_parse_ws_frame}
use websocket.Frame.Build.{
  ws_opcode_text, ws_opcode_binary, ws_opcode_close, ws_opcode_ping, ws_opcode_pong,
}
use websocket.Frame.Mask.{unmask_loop}
use websocket.Client.{
  WebSocket, WsState, closing, Event, message, Metrics, Heartbeat, Flush, ws_log, warn, debug,
  u32_add, u64_add,
}
use websocket.Client.Samples.{update_latency_sample}
use websocket.Client.Send.{websocket_send_pong}

-- What the handling of one frame takes from outside: get_time_ns, the random key of a pong, whether
-- its malloc succeeds, and what its transfer returns.
pub record Outside : Type 0 where
  pub now_ns : ℕ
  pub key : ℕ
  pub malloc : Bool
  pub out : Flush

-- `io_get_last_nic_timestamp_ns`
unfoldable pub io_get_last_nic_timestamp_ns : Option IoContext → ℕ → ℕ
io_get_last_nic_timestamp_ns none i = 0
io_get_last_nic_timestamp_ns (some ctx) i =
    if not (ltb i ctx.socket_count) then 0 else (ctx.sockets i).last_nic_timestamp_ns

-- `websocket_get_last_nic_timestamp_ns`
unfoldable pub websocket_get_last_nic_timestamp_ns : WebSocket → ℕ
websocket_get_last_nic_timestamp_ns ws = go ws.socket_index
  where
    go : Option ℕ → ℕ
    go none = 0
    go (some i) = by_ssl ws.ssl_ctx
      where
        by_ssl : Option SslContext → ℕ
        by_ssl none = io_get_last_nic_timestamp_ns ws.io_ctx i
        by_ssl (some c) =
            if ws.use_ssl then c.last_nic_timestamp_ns else io_get_last_nic_timestamp_ns ws.io_ctx i

-- `get_frame_from_pool`
unfoldable pub get_frame_from_pool : WebSocket → WebSocket
get_frame_from_pool ws = record ws { frame_pool_idx = (ws.frame_pool_idx + 1) % 16 }

-- Unmasking the payload at `p` in place.
unfoldable pub unmask : WebSocket → Frame → ℕ → WebSocket
unmask ws frame p = if frame.mask == 0 then ws else (record ws {
  rx_ring = record (ws.rx_ring) {
    buf = unmask_loop p frame.masking_key frame.payload_len 0 ws.rx_ring.buf;
  };
})

-- The latency sample of a message, if the network card stamped it.
unfoldable pub sample_latency : WebSocket → ℕ → WebSocket
sample_latency ws now_ns =
    let nic = websocket_get_last_nic_timestamp_ns ws in
    if nic == 0 then ws else (record ws {
      latency = update_latency_sample ws.latency (if ltb nic now_ns then now_ns - nic else 0);
    })

-- The metrics of a received message.
unfoldable pub count_message : WebSocket → ℕ → WebSocket
count_message ws len = record ws {
  metrics = record (ws.metrics) {
    messages_received = u64_add ws.metrics.messages_received 1;
    bytes_received = u64_add ws.metrics.bytes_received len;
  };
}

-- `if (ws->on_message) ws->on_message(...)`
unfoldable pub call_on_message : WebSocket → List ℕ → WebSocket
call_on_message ws payload = record ws {
  events = if ws.on_message then ws.events ++ message payload ∷ [] else ws.events;
}

-- The branch for a text or binary frame.
unfoldable pub receive_message : WebSocket → Outside → Frame → ℕ → WebSocket
receive_message ws o frame p =
    let ws1 = sample_latency (count_message (unmask ws frame p) frame.payload_len) o.now_ns in
    call_on_message ws1 (bytes_at ws1.rx_ring.buf p frame.payload_len)

-- The branch for a ping frame.
unfoldable pub receive_ping : WebSocket → Outside → Frame → ℕ → WebSocket
receive_ping ws o frame p =
    let ws1 = unmask ws frame p in
    let payload = bytes_at ws1.rx_ring.buf p frame.payload_len in
    (websocket_send_pong ws1 payload o.key o.malloc o.out).1

-- The branch for a pong frame.
unfoldable pub receive_pong : WebSocket → ℕ → WebSocket
receive_pong ws now_ns =
    ws_log (record ws { heartbeat = record (ws.heartbeat) { last_pong_received_ns = now_ns } })
      debug

-- The dispatch on the opcode.
unfoldable pub handle_frame : WebSocket → Outside → Frame → ℕ → WebSocket
handle_frame ws o frame p =
    if (frame.opcode == ws_opcode_text) || (frame.opcode == ws_opcode_binary)
    then receive_message ws o frame p
    else if frame.opcode == ws_opcode_ping
    then receive_ping ws o frame p
    else if frame.opcode == ws_opcode_pong
    then receive_pong ws o.now_ns
    else if frame.opcode == ws_opcode_close
    then record ws { state = closing }
    else ws

-- The variables of the loop.
pub record Loop : Type 0 where
  pub ws : WebSocket
  pub offset : ℕ
  pub total_consumed : ℕ

-- A byte that is no frame is skipped.
unfoldable pub skip_byte : Loop → Loop
skip_byte l = record l {
  ws = record (l.ws) { frame_parse_errors = u32_add l.ws.frame_parse_errors 1 };
  offset = add_size l.offset 1;
}

-- A parse error is also counted in the metrics and logged.
unfoldable pub parse_error : Loop → Loop
parse_error l =
    let ws = l.ws in
    let errors_total = u64_add ws.metrics.errors_total 1 in
    let skipped = skip_byte (record l {
      ws = record ws { metrics = record (ws.metrics) { errors_total = errors_total } };
    }) in
    record skipped { ws = ws_log skipped.ws warn }

-- A parsed frame: too long a frame is skipped too, any other handled and consumed.
unfoldable pub take_frame : Loop → Outside → ℕ → ℕ → Frame → Loop
take_frame l o start len frame =
    let frame_size = add_size frame.header_size frame.payload_len in
    if (frame_size == 0) || ltb (sub_size len l.offset) frame_size then skip_byte l else (record {
      ws = handle_frame l.ws o frame (start + l.offset + frame.header_size);
      offset = add_size l.offset frame_size;
      total_consumed = add_size l.total_consumed frame_size;
    })

-- What follows the parser's return: whether the loop goes on, and its variables.
unfoldable pub after_parse : Loop → Outside → ℕ → ℕ → Outcome × Frame → Bool × Loop
after_parse l o start len (need_more, frame) = (false, l)
after_parse l o start len (invalid, frame) = (true, parse_error l)
after_parse l o start len (success, frame) = (true, take_frame l o start len frame)

-- One round: whether the loop goes on, and its variables.
unfoldable pub frame_round : Loop → Outside → ℕ → ℕ → Bool × Loop
frame_round l o start len =
    if not (ltb l.offset len)
    then (false, l)
    else (let pooled = record l { ws = get_frame_from_pool l.ws } in
        let bytes : Memory = λ i. l.ws.rx_ring.buf (start + l.offset + i) in
        let parsed = neon_parse_ws_frame bytes (sub_size len l.offset) zero_frame in
        after_parse pooled o start len parsed)

-- The loop with `left` of its max_parse_attempts rounds left; `outside` says what each one meets.
unfoldable pub frame_loop : ℕ → (ℕ → Outside) → ℕ → ℕ → Loop → Loop
frame_loop zero outside start len l = l
frame_loop (suc left) outside start len l =
    let (more, l') = frame_round l (outside left) start len in
    let rest = frame_loop left outside start len l' in if more then rest else l'

abbrev pub max_parse_attempts : ℕ
max_parse_attempts = 1000

abbrev pub loop_start : WebSocket → Loop
loop_start ws = record { ws = ws; offset = 0; total_consumed = 0 }

-- The read position moved past the consumed bytes.
unfoldable pub advance_read : WebSocket → ℕ → WebSocket
advance_read ws total_consumed =
    let ring = ws.rx_ring in
    if total_consumed == 0 then ws else (record ws {
      rx_ring = record ring { read_ptr = add_size ring.read_ptr total_consumed % ring.size };
    })

-- `process_frames`
unfoldable pub process_frames : WebSocket → (ℕ → Outside) → WebSocket
process_frames ws outside =
    let (start, len) = read_inline ws.rx_ring in
    let done = frame_loop max_parse_attempts outside start len (loop_start ws) in
    if len == 0 then ws else advance_read done.ws done.total_consumed
