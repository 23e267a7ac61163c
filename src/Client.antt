-- ===== src/Client.antt =====
-- src/websocket.h and src/websocket.c: the WebSocket itself. A callback is called with the values
-- that stand in `events`, oldest first, and does not call back into the library. The clock, the
-- random masking key, whether malloc succeeds and what a transfer returns are arguments of each
-- call.
pub mod Send
pub mod Samples
pub mod Receive
pub mod Pings
pub mod Url
pub mod Handshake
pub mod Lifecycle
pub mod Connect
pub mod Observe
pub mod Process
pub mod Link
use websocket.Prelude.{
  ℤ, ℕ, ◌+◌, ◌%◌, ◌^◌, List, [], ◌∷◌, ◌++◌, Option, none, some, Bool, true, false, if◌then◌else◌,
}
use websocket.Ring.{Ring}
use websocket.Io.{IoContext}
use websocket.Transfer.{SslContext, OsStatus, ssl_write, io_write}

pub data WsState : Type 0 where
  connecting connected closing closed : WsState

pub data WsLogLevel : Type 0 where
  debug info warn error : WsLogLevel

pub data WsHealthStatus : Type 0 where
  healthy degraded unhealthy : WsHealthStatus

-- A double, as its bits.
abbrev pub Double : Type 0
Double = ℕ

-- `WebSocketMetrics`
pub record Metrics : Type 0 where
  pub messages_received : ℕ
  pub messages_sent : ℕ
  pub errors_total : ℕ
  pub bytes_received : ℕ
  pub bytes_sent : ℕ
  pub latency_p50_ns : Double
  pub latency_p99_ns : Double
  pub throughput_msg_per_sec : Double
  pub ringbuffer_utilization : Double
  pub connection_uptime_ns : ℕ

-- A call of one of the registered callbacks.
pub data Event : Type 0 where
  message : List ℕ → Event
  failed : Event
  log : WsLogLevel → Event
  metrics : Metrics → Event
  health : WsHealthStatus → Event
  heartbeat_timeout : Event

-- `WSReconnectConfig` and `WSReconnectState`.
pub record Reconnect : Type 0 where
  pub auto_reconnect : Bool
  pub max_retries : ℕ
  pub initial_backoff_ms : ℕ
  pub max_backoff_ms : ℕ
  pub backoff_multiplier : Double
  pub reset_backoff_on_success : Bool
  pub is_reconnecting : Bool
  pub reconnect_attempts : ℕ
  pub next_backoff_ms : ℕ
  pub last_reconnect_attempt_ns : ℕ

-- The rolling window of latency samples: the array, none if its allocation failed.
pub record Latency : Type 0 where
  pub samples : Option (List ℕ)
  pub count : ℕ
  pub capacity : ℕ
  pub idx : ℕ

-- `WSHeartbeatConfig` and the heartbeat's times.
pub record Heartbeat : Type 0 where
  pub enable_heartbeat : Bool
  pub ping_interval_ms : ℕ
  pub pong_timeout_ms : ℕ
  pub on_heartbeat_timeout : Bool
  pub last_ping_sent_ns : ℕ
  pub last_pong_received_ns : ℕ

-- What is given back: a ring's block to vm_deallocate; an I/O context, as io_cleanup leaves it, the
-- URL's text and the array of samples to free.
pub data Freed : Type 0 where
  block : ℕ → Freed
  io_context : IoContext → Freed
  url_text : List ℕ → Freed
  sample_array : List ℕ → Freed

-- `struct WebSocket`, with whether each callback is set; the arguments of close(), what is given
-- back, and the bytes that writev took of the transmit ring, oldest first.
pub record WebSocket : Type 0 where
  pub state : WsState
  pub fd : Option ℕ
  pub url : Option (List ℕ)
  pub host : List ℕ
  pub path : List ℕ
  pub port : ℤ
  pub use_ssl : Bool
  pub cert_validation_disabled : Bool
  pub sec_websocket_key : List ℕ
  pub ssl_ctx : Option SslContext
  pub io_ctx : Option IoContext
  pub socket_index : Option ℕ
  pub rx_ring : Ring
  pub tx_ring : Ring
  pub on_message : Bool
  pub on_error : Bool
  pub on_metrics : Bool
  pub on_health : Bool
  pub log_callback : Bool
  pub frame_pool_idx : ℕ
  pub frame_parse_errors : ℕ
  pub metrics : Metrics
  pub metrics_last_report_ns : ℕ
  pub connection_start_ns : ℕ
  pub latency : Latency
  pub current_health : WsHealthStatus
  pub last_health_check_ns : ℕ
  pub reconnect : Reconnect
  pub heartbeat : Heartbeat
  pub events : List Event
  pub closed_fds : List ℕ
  pub freed : List Freed
  pub wire : List ℕ

-- What the transfer behind a send returns: writev's result, or the status and count of SSLWrite.
pub record Flush : Type 0 where
  pub writev : Option ℕ
  pub status : OsStatus
  pub written : ℕ

-- ssl_write on the transmit ring, which a missing context leaves alone.
ssl_flush : Option SslContext → Ring → Flush → Ring
ssl_flush none tx out = tx
ssl_flush (some ctx) tx out = (ssl_write tx out.status out.written).1

-- `if (ws->use_ssl) ssl_write(...) else io_write(...)`, whose result is not looked at.
unfoldable pub flush : WebSocket → Flush → WebSocket
unfolding ssl_flush
flush ws out = record ws {
  tx_ring =
      if ws.use_ssl
      then ssl_flush ws.ssl_ctx ws.tx_ring out
      else (io_write ws.io_ctx ws.socket_index ws.tx_ring out.writev).2;
  wire =
      if ws.use_ssl
      then ws.wire
      else ws.wire ++ (io_write ws.io_ctx ws.socket_index ws.tx_ring out.writev).1;
}

-- WS_LOG
unfoldable pub ws_log : WebSocket → WsLogLevel → WebSocket
ws_log ws level = record ws {
  events = if ws.log_callback then ws.events ++ log level ∷ [] else ws.events;
}

-- Counters of 32 and 64 bits.
abbrev pub u32_add : ℕ → ℕ → ℕ
u32_add a b = (a + b) % 2 ^ 32

abbrev pub u64_add : ℕ → ℕ → ℕ
u64_add a b = (a + b) % 2 ^ 64
