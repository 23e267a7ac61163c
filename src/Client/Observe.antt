-- ===== src/Client/Observe.antt =====
-- Metrics, latency percentiles, health, and the state of reconnection (src/websocket.c). A double
-- is known by its bits alone: the arithmetic of the processor is the parameter `Floating`.
pub mod Sort
pub mod Percentiles
pub mod Limits
use websocket.Prelude.{
  ℕ, zero, suc, ◌-◌, List, [], ◌∷◌, ◌++◌, Option, none, some, Bool, true, false, not, ◌&&◌, ◌||◌,
  ltb, leb, ◌==◌, if◌then◌else◌, length, get_or, take, sub_size,
}
use websocket.Ring.{Ring, readable}
use websocket.Client.{
  WebSocket, Double, Metrics, Latency, Reconnect, WsHealthStatus, healthy, degraded, unhealthy,
  metrics, health, u32_add, u64_add, ws_log, warn, info,
}
use websocket.Client.Send.{is_connected}
use websocket.Client.Lifecycle.{zeroed_metrics}

-- Conversions, sums, products, quotients and the comparison `>` of doubles.
pub record Floating : Type 0 where
  pub of_integer : ℕ → Double
  pub to_integer : Double → ℕ
  pub add : Double → Double → Double
  pub mul : Double → Double → Double
  pub div : Double → Double → Double
  pub above : Double → Double → Bool

-- The constants 0.50, 0.99, 1000000000.0, 2.0, 0.1 and 0.8.
abbrev pub half : Double
half = 0x3FE0000000000000

abbrev pub ninety_nine : Double
ninety_nine = 0x3FEFAE147AE147AE

abbrev pub billion : Double
billion = 0x41CDCD6500000000

abbrev pub two : Double
two = 0x4000000000000000

abbrev pub error_limit : Double
error_limit = 0x3FB999999999999A

abbrev pub saturation_limit : Double
saturation_limit = 0x3FE999999999999A

-- The inner loop of the bubble sort: `left` comparisons of neighbours from the front on.
unfoldable pub bubble_pass : ℕ → List ℕ → List ℕ
bubble_pass zero xs = xs
bubble_pass (suc left) [] = []
bubble_pass (suc left) (x ∷ []) = x ∷ []
bubble_pass (suc left) (x ∷ y ∷ xs) =
    let (low, high) = if ltb y x then (y, x) else (x, y) in low ∷ bubble_pass left (high ∷ xs)

-- The outer loop, with `left` passes left, the next of which makes as many comparisons.
unfoldable pub bubble_loop : ℕ → List ℕ → List ℕ
bubble_loop zero xs = xs
bubble_loop (suc left) xs = bubble_loop left (bubble_pass (suc left) xs)

unfoldable pub bubble_sort : List ℕ → List ℕ
bubble_sort xs = bubble_loop (length xs - 1) xs

-- The last `if` on an index.
unfoldable pub clamp : ℕ → ℕ → ℕ
clamp index count = if leb count index then count - 1 else index

-- `calculate_latency_percentiles`, given whether malloc gives memory: what it stores through `p50`
-- and `p99`.
unfoldable pub calculate_latency_percentiles : Floating → Latency → Bool → Double × Double
calculate_latency_percentiles f l malloc = go l.samples
  where
    go : Option (List ℕ) → Double × Double
    go none = (0, 0)
    go (some samples) =
        let count = l.count in
        let sorted = bubble_sort (take count samples) in
        let p50_idx = f.to_integer (f.mul (f.of_integer count) half) in
        let p99_idx = clamp (f.to_integer (f.mul (f.of_integer count) ninety_nine)) count in
        if (count == 0) || not malloc
        then (0, 0)
        else (f.of_integer (get_or sorted p50_idx 0), f.of_integer (get_or sorted p99_idx 0))

-- The throughput that websocket_get_metrics stores.
unfoldable pub throughput : Floating → WebSocket → ℕ → Double
throughput f ws now_ns =
    let elapsed_sec = f.div (f.of_integer (now_ns - ws.connection_start_ns)) billion in
    if ltb 0 ws.connection_start_ns && ltb ws.connection_start_ns now_ns && f.above elapsed_sec 0
    then f.div (f.of_integer ws.metrics.messages_received) elapsed_sec
    else ws.metrics.throughput_msg_per_sec

-- How full a ring is.
unfoldable pub utilization : Floating → Ring → Double
utilization f r = f.div (f.of_integer (readable r)) (f.of_integer r.size)

-- `websocket_get_metrics`; `*out_metrics` is a copy of the metrics that it leaves.
unfoldable pub websocket_get_metrics : Floating → WebSocket → ℕ → Bool → WebSocket
websocket_get_metrics f ws now_ns malloc =
    let (p50, p99) = calculate_latency_percentiles f ws.latency malloc in
    record ws {
      metrics = record (ws.metrics) {
        latency_p50_ns = p50;
        latency_p99_ns = p99;
        throughput_msg_per_sec = throughput f ws now_ns;
        ringbuffer_utilization =
            f.div (f.add (utilization f ws.rx_ring) (utilization f ws.tx_ring)) two;
        connection_uptime_ns =
            if ltb 0 ws.connection_start_ns
            then sub_size now_ns ws.connection_start_ns
            else ws.metrics.connection_uptime_ns;
      };
    }

-- `websocket_reset_metrics`
unfoldable pub websocket_reset_metrics : WebSocket → WebSocket
websocket_reset_metrics ws = record ws {
  metrics = zeroed_metrics;
  latency = record (ws.latency) { count = 0; idx = 0 };
  metrics_last_report_ns = 0;
}

-- Whether the error rate is above the limit.
unfoldable pub failing : Floating → Metrics → Bool
failing f m =
    let total_operations = u64_add m.messages_received m.messages_sent in
    ltb 0 total_operations
    && f.above (f.div (f.of_integer m.errors_total) (f.of_integer total_operations)) error_limit

-- `websocket_get_health`
unfoldable pub websocket_get_health : Floating → WebSocket → WsHealthStatus
websocket_get_health f ws =
    if not (is_connected ws.state)
    then unhealthy
    else if failing f ws.metrics
    then unhealthy
    else if f.above ws.metrics.latency_p99_ns (f.of_integer 100000)
    then degraded
    else if f.above ws.metrics.ringbuffer_utilization saturation_limit
    then degraded
    else healthy

-- `websocket_set_on_metrics`, `websocket_set_on_health` and `websocket_set_log_callback`
unfoldable pub websocket_set_on_metrics : WebSocket → Bool → WebSocket
websocket_set_on_metrics ws callback = record ws { on_metrics = callback }

unfoldable pub websocket_set_on_health : WebSocket → Bool → WebSocket
websocket_set_on_health ws callback = record ws { on_health = callback }

unfoldable pub websocket_set_log_callback : WebSocket → Bool → WebSocket
websocket_set_log_callback ws callback = record ws { log_callback = callback }

abbrev pub rank : WsHealthStatus → ℕ
rank healthy = 0
rank degraded = 1
rank unhealthy = 2

-- `check_health`
unfoldable pub check_health : Floating → WebSocket → ℕ → WebSocket
check_health f ws now_ns =
    let new_health = websocket_get_health f ws in
    let checked = record ws { last_health_check_ns = now_ns } in
    if not ws.on_health
    then ws
    else if ltb (sub_size now_ns ws.last_health_check_ns) 1000000000
    then ws
    else if rank new_health == rank ws.current_health
    then checked
    else record checked {
      current_health = new_health;
      events = ws.events ++ health new_health ∷ [];
    }

-- `report_metrics_if_needed`, with the clock as it reads it and as websocket_get_metrics does.
unfoldable pub report_metrics_if_needed :
    Floating → WebSocket → (now_ns now2_ns : ℕ) → Bool → WebSocket
report_metrics_if_needed f ws now_ns now2_ns malloc =
    let current =
      websocket_get_metrics f (record ws { metrics_last_report_ns = now_ns }) now2_ns malloc in
    if not ws.on_metrics
    then ws
    else if ltb (sub_size now_ns ws.metrics_last_report_ns) 1000000000
    then ws
    else record current { events = current.events ++ metrics current.metrics ∷ [] }

-- `websocket_set_reconnect_config`: the configuration's fields are those of its second argument.
unfoldable pub websocket_set_reconnect_config : WebSocket → Reconnect → WebSocket
websocket_set_reconnect_config ws config = record ws {
  reconnect = record (ws.reconnect) {
    auto_reconnect = config.auto_reconnect;
    max_retries = config.max_retries;
    initial_backoff_ms = config.initial_backoff_ms;
    max_backoff_ms = config.max_backoff_ms;
    backoff_multiplier = config.backoff_multiplier;
    reset_backoff_on_success = config.reset_backoff_on_success;
    next_backoff_ms =
        if ws.reconnect.reconnect_attempts == 0
        then config.initial_backoff_ms
        else ws.reconnect.next_backoff_ms;
  };
}

-- `websocket_get_reconnect_state`: attempts, next back-off, and whether a reconnection is going on.
unfoldable pub websocket_get_reconnect_state : WebSocket → ℕ × ℕ × Bool
websocket_get_reconnect_state ws =
    (ws.reconnect.reconnect_attempts, ws.reconnect.next_backoff_ms, ws.reconnect.is_reconnecting)

-- The loop of calculate_backoff.
unfoldable pub backoff_loop : Floating → Double → ℕ → Double → Double
backoff_loop f multiplier zero backoff_ms = backoff_ms
backoff_loop f multiplier (suc left) backoff_ms =
    backoff_loop f multiplier left (f.mul backoff_ms multiplier)

-- `calculate_backoff`
unfoldable pub calculate_backoff : Floating → Reconnect → ℕ
calculate_backoff f r =
    let backoff_ms =
      backoff_loop f r.backoff_multiplier r.reconnect_attempts
        (f.of_integer r.initial_backoff_ms) in
    let limit = f.of_integer r.max_backoff_ms in
    if r.reconnect_attempts == 0
    then r.initial_backoff_ms
    else f.to_integer (if f.above backoff_ms limit then limit else backoff_ms)

-- `trigger_reconnect`
unfoldable pub trigger_reconnect : Floating → WebSocket → ℕ → WebSocket
trigger_reconnect f ws now_ns =
    let r = ws.reconnect in
    let tried = record r {
      is_reconnecting = true;
      reconnect_attempts = u32_add r.reconnect_attempts 1;
    } in
    let next = record tried {
      next_backoff_ms = calculate_backoff f tried;
      last_reconnect_attempt_ns = now_ns;
    } in
    if not r.auto_reconnect
    then ws
    else if ltb 0 r.max_retries && leb r.max_retries r.reconnect_attempts
    then ws_log ws warn
    else ws_log (record ws { reconnect = next }) info
