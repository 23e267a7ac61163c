-- ===== src/Client/Receive/Same.antt =====
-- What handling a frame leaves of the receive ring (src/websocket.c).
use websocket.Prelude.{ℕ, ◌≡◌, ◌∙◌, ap, List, Bool, arith}
use websocket.Ring.{Ring}
use websocket.Frame.{Frame}
use websocket.Client.{WebSocket, Flush, flush, ws_log}
use websocket.Client.Send.{websocket_send_pong}
use websocket.Client.Receive.{
  Outside, unmask, sample_latency, count_message, call_on_message, receive_message, receive_ping,
  receive_pong, handle_frame,
}

-- The same ring but for its bytes.
pub record SamePositions (r r' : Ring) : Type 0 where
  pub size : r'.size ≡ r.size
  pub read_ptr : r'.read_ptr ≡ r.read_ptr
  pub write_ptr : r'.write_ptr ≡ r.write_ptr

pub SamePositions-eq : {r r' : Ring} → r' ≡ r → SamePositions r r'
SamePositions-eq e = record {
  size = ap (λ (x : Ring). x.size) e;
  read_ptr = ap (λ (x : Ring). x.read_ptr) e;
  write_ptr = ap (λ (x : Ring). x.write_ptr) e;
}

pub SamePositions-trans : {a b c : Ring} → SamePositions a b → SamePositions b c → SamePositions a c
SamePositions-trans p q = record {
  size = q.size ∙ p.size;
  read_ptr = q.read_ptr ∙ p.read_ptr;
  write_ptr = q.write_ptr ∙ p.write_ptr;
}

pub unmask_same :
    (ws : WebSocket) (frame : Frame) (p : ℕ) → SamePositions ws.rx_ring (unmask ws frame p).rx_ring
unfolding unmask
unmask_same ws frame p = record {
  size = ground arith;
  read_ptr = ground arith;
  write_ptr = ground arith;
}

pub sample_latency_same :
    (ws : WebSocket) (now_ns : ℕ) → (sample_latency ws now_ns).rx_ring ≡ ws.rx_ring
unfolding sample_latency
sample_latency_same ws now_ns = ground arith

pub receive_message_same :
    (ws : WebSocket) (o : Outside) (frame : Frame) (p : ℕ)
    → SamePositions ws.rx_ring (receive_message ws o frame p).rx_ring
unfolding receive_message count_message call_on_message
receive_message_same ws o frame p = SamePositions-trans (unmask_same ws frame p) (
    SamePositions-eq
      (sample_latency_same (count_message (unmask ws frame p) frame.payload_len) o.now_ns))

pub websocket_send_pong-rx :
    (ws : WebSocket) (payload : List ℕ) (key : ℕ) (malloc : Bool) (out : Flush)
    → (websocket_send_pong ws payload key malloc out).1.rx_ring ≡ ws.rx_ring
unfolding websocket_send_pong flush
websocket_send_pong-rx ws payload key malloc out = ground arith

pub receive_ping_same :
    (ws : WebSocket) (o : Outside) (frame : Frame) (p : ℕ)
    → SamePositions ws.rx_ring (receive_ping ws o frame p).rx_ring
unfolding receive_ping
receive_ping_same ws o frame p =
    SamePositions-trans (unmask_same ws frame p)
      (SamePositions-eq (websocket_send_pong-rx _ _ _ _ _))

pub handle_frame_same :
    (ws : WebSocket) (o : Outside) (frame : Frame) (p : ℕ)
    → SamePositions ws.rx_ring (handle_frame ws o frame p).rx_ring
unfolding handle_frame receive_pong ws_log
handle_frame_same ws o frame p =
    let message = receive_message_same ws o frame p in
    let ping = receive_ping_same ws o frame p in
    record {
      size = ground (arith, message.size, ping.size);
      read_ptr = ground (arith, message.read_ptr, ping.read_ptr);
      write_ptr = ground (arith, message.write_ptr, ping.write_ptr);
    }
