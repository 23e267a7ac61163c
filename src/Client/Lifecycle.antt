-- ===== src/Client/Lifecycle.antt =====
-- websocket_create, websocket_close and websocket_destroy (src/websocket.c). Whether an allocation
-- succeeds is an argument. Pointers of user data are left out, and so is last_metric_reset_ns,
-- which nothing reads.
pub mod Destroy
use websocket.Prelude.{
  ℕ, ◌^◌, List, [], ◌∷◌, ◌++◌, Option, none, some, Bool, true, false, ◌||◌, if◌then◌else◌, pos,
  tabulate, Memory,
}
use websocket.Ring.Setup.{init, zeroed, cleanup}
use websocket.Io.{IoContext, io_init, io_add_socket, io_remove_socket, io_cleanup}
use websocket.Transfer.Session.{SslStart, SslPeer, ssl_init, ssl_connect, ssl_cleanup, listed}
use websocket.Client.{
  Freed, block, io_context, url_text, sample_array, WebSocket, WsState, connecting, connected,
  closing, closed, healthy, Metrics, Latency, Flush,
}
use websocket.Client.Url.{UrlParts, parse_url}
use websocket.Client.Handshake.{send_handshake}

-- The metrics after memset.
abbrev pub zeroed_metrics : Metrics
zeroed_metrics = record {
  messages_received = 0;
  messages_sent = 0;
  errors_total = 0;
  bytes_received = 0;
  bytes_sent = 0;
  latency_p50_ns = 0;
  latency_p99_ns = 0;
  throughput_msg_per_sec = 0;
  ringbuffer_utilization = 0;
  connection_uptime_ns = 0;
}

-- The window of latencies, given whether its calloc succeeds.
unfoldable pub new_samples : Bool → Latency
new_samples calloc = record {
  samples = if calloc then some (tabulate 1000 (λ _. 0)) else none;
  count = 0;
  capacity = if calloc then 1000 else 0;
  idx = 0;
}

-- `websocket_create`, given whether each calloc succeeds; none for NULL.
unfoldable pub websocket_create : Bool → Bool → Option WebSocket
websocket_create false calloc_samples = none
websocket_create true calloc_samples = some (record {
  state = closed;
  fd = none;
  url = none;
  host = [];
  path = [];
  port = pos 0;
  use_ssl = false;
  cert_validation_disabled = false;
  sec_websocket_key = [];
  ssl_ctx = none;
  io_ctx = none;
  socket_index = none;
  rx_ring = zeroed;
  tx_ring = zeroed;
  on_message = false;
  on_error = false;
  on_metrics = false;
  on_health = false;
  log_callback = false;
  frame_pool_idx = 0;
  frame_parse_errors = 0;
  metrics = zeroed_metrics;
  metrics_last_report_ns = 0;
  connection_start_ns = 0;
  latency = new_samples calloc_samples;
  current_health = healthy;
  last_health_check_ns = 0;
  reconnect = record {
    auto_reconnect = false;
    max_retries = 0;
    initial_backoff_ms = 100;
    max_backoff_ms = 30000;
    backoff_multiplier = 2 ^ 62;
    reset_backoff_on_success = true;
    is_reconnecting = false;
    reconnect_attempts = 0;
    next_backoff_ms = 100;
    last_reconnect_attempt_ns = 0;
  };
  heartbeat = record {
    enable_heartbeat = false;
    ping_interval_ms = 0;
    pong_timeout_ms = 0;
    on_heartbeat_timeout = false;
    last_ping_sent_ns = 0;
    last_pong_received_ns = 0;
  };
  events = [];
  closed_fds = [];
  freed = [];
  wire = [];
})

-- `websocket_set_on_message` and `websocket_set_on_error`
unfoldable pub websocket_set_on_message : WebSocket → Bool → WebSocket
websocket_set_on_message ws callback = record ws { on_message = callback }

unfoldable pub websocket_set_on_error : WebSocket → Bool → WebSocket
websocket_set_on_error ws callback = record ws { on_error = callback }

-- ssl_cleanup and the pointer's reset.
unfoldable pub drop_ssl : WebSocket → WebSocket
drop_ssl ws = record ws { closed_fds = ws.closed_fds ++ ssl_cleanup ws.ssl_ctx; ssl_ctx = none }

unfoldable pub has_some : Option ℕ → Bool
has_some none = false
has_some (some fd) = true

-- io_remove_socket, which does nothing without a context.
unfoldable pub unregister : WebSocket → Option IoContext
unregister ws = go ws.io_ctx
  where
    go : Option IoContext → Option IoContext
    go none = none
    go (some ctx) =
        if has_some ws.socket_index then some (io_remove_socket ctx ws.fd).1 else some ctx

unfoldable pub is_closed : WsState → Bool
is_closed connecting = false
is_closed connected = false
is_closed closing = false
is_closed closed = true

-- `websocket_close`
unfoldable pub websocket_close : WebSocket → WebSocket
websocket_close ws =
    if is_closed ws.state
    then ws
    else if has_some ws.fd
    then record ws {
      io_ctx = unregister ws;
      closed_fds = ws.closed_fds ++ listed ws.fd;
      fd = none;
      state = closed;
    }
    else record ws { state = closed }

unfoldable pub is_open : WsState → Bool
is_open connecting = true
is_open connected = true
is_open closing = false
is_open closed = false

-- What io_cleanup and free, ringbuffer_cleanup, and free of the URL and of the samples give back.
unfoldable pub io_freed : Option IoContext → List Freed
io_freed none = []
io_freed (some ctx) = io_context (io_cleanup ctx) ∷ []

unfoldable pub block_freed : Option ℕ → List Freed
block_freed none = []
block_freed (some address) = block address ∷ []

unfoldable pub url_freed : Option (List ℕ) → List Freed
url_freed none = []
url_freed (some url) = url_text url ∷ []

unfoldable pub samples_freed : Option (List ℕ) → List Freed
samples_freed none = []
samples_freed (some xs) = sample_array xs ∷ []

-- `websocket_destroy`: the WebSocket as it stands when it is freed.
unfoldable pub websocket_destroy : WebSocket → WebSocket
websocket_destroy ws =
    let left = if is_open ws.state then websocket_close ws else ws in
    let dropped = drop_ssl left in
    record dropped {
      io_ctx = none;
      freed =
          dropped.freed
          ++ (io_freed dropped.io_ctx
              ++ (block_freed (cleanup dropped.rx_ring).freed
                  ++ (block_freed (cleanup dropped.tx_ring).freed
                      ++ (samples_freed dropped.latency.samples ++ url_freed dropped.url))));
      rx_ring = (cleanup dropped.rx_ring).ring;
      tx_ring = (cleanup dropped.tx_ring).ring;
      latency = record {
        samples = none;
        count = elim dropped.latency.samples [ none ↦ dropped.latency.count | some xs ↦ 0 ];
        capacity = elim dropped.latency.samples [ none ↦ dropped.latency.capacity | some xs ↦ 0 ];
        idx = dropped.latency.idx;
      };
      url = none;
    }

-- `websocket_get_state`
unfoldable pub websocket_get_state : Option WebSocket → WsState
websocket_get_state none = closed
websocket_get_state (some ws) = ws.state
