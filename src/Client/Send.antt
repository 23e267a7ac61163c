-- ===== src/Client/Send.antt =====
-- websocket_send and websocket_send_pong (src/websocket.c).
pub mod Queued
use websocket.Prelude.{
  ℕ, ◌+◌, List, [], ◌∷◌, ◌++◌, Option, none, some, Bool, true, false, not, ◌||◌, ◌&&◌, ltb, ◌==◌,
  if◌then◌else◌, length,
}
use websocket.Ring.{Ring, write}
use websocket.Frame.Build.{send_header, pong_header}
use websocket.Frame.Mask.{mask_from}
use websocket.Client.{
  WebSocket, WsState, connecting, connected, closing, closed, Flush, flush, Metrics, u64_add,
}

unfoldable pub is_connected : WsState → Bool
is_connected connected = true
is_connected _ = false

-- A write of all the bytes or nothing to go on with: `written != len`.
unfoldable pub wrote_all : Ring → List ℕ → Bool × Ring
wrote_all r bytes = let (n, r') = write r (some bytes) in (n == length bytes, r')

-- `websocket_send`: whether it returns 0. `data` is none for NULL, else the `len` bytes there. The
-- header is written, then the payload; a failure of either returns -1 with what was written left in
-- the ring.
unfoldable pub websocket_send : WebSocket → Option (List ℕ) → Bool → Flush → Bool × WebSocket
websocket_send ws none is_text out = (false, ws)
websocket_send ws (some bytes) is_text out =
    let len = length bytes in
    let (header_ok, ring1) = wrote_all ws.tx_ring (send_header is_text len) in
    let (payload_ok, ring2) = wrote_all ring1 bytes in
    let counted = record ws {
      tx_ring = ring2;
      metrics = record (ws.metrics) {
        messages_sent = u64_add ws.metrics.messages_sent 1;
        bytes_sent = u64_add ws.metrics.bytes_sent len;
      };
    } in
    if (len == 0) || not (is_connected ws.state)
    then (false, ws)
    else if not header_ok
    then (false, record ws { tx_ring = ring1 })
    else if not payload_ok
    then (false, record ws { tx_ring = ring2 })
    else (true, flush counted out)

-- `websocket_send_pong`, with the random key and whether malloc succeeds. The payload is never
-- NULL.
unfoldable pub websocket_send_pong : WebSocket → List ℕ → ℕ → Bool → Flush → Bool × WebSocket
websocket_send_pong ws payload key malloc out =
    let (header_ok, ring1) = wrote_all ws.tx_ring (pong_header key (length payload)) in
    let (payload_ok, ring2) = wrote_all ring1 (mask_from key 0 payload) in
    if not (is_connected ws.state)
    then (false, ws)
    else if not header_ok
    then (false, record ws { tx_ring = ring1 })
    else if length payload == 0
    then (true, flush (record ws { tx_ring = ring1 }) out)
    else if not malloc
    then (false, record ws { tx_ring = ring1 })
    else if not payload_ok
    then (false, record ws { tx_ring = ring2 })
    else (true, flush (record ws { tx_ring = ring2 }) out)
