-- ===== src/Tests/Link.antt =====
-- A message over a plain connection, in two pieces; and a stream of which the last frame has not
-- wholly arrived.
use websocket.Prelude.{
  ℕ, ◌≡◌, refl, List, [], ◌∷◌, ◌++◌, none, some, Bool, true, false, arith, memcpy,
}
use websocket.Ring.{Ring, used, read_inline, write_inline, writeable, space, clip, write, copy_in}
use websocket.Ring.Invariant.{IsValid}
use websocket.Ring.Stored.{contents}
use websocket.Io.{io_init, io_add_socket}
use websocket.Transfer.{
  arrived, Clock, io_read, io_ready, receive, stamped, moved_write, io_write, transmit, offered,
  iovecs,
}
use websocket.Frame.Build.{send_header}
use websocket.Client.{WebSocket, Flush, flush}
use websocket.Client.Send.{websocket_send, wrote_all, is_connected}
use websocket.Client.Receive.{process_frames}
use websocket.Client.Receive.Rounds.{frames}
use websocket.Client.Receive.Partial.{messages_in, payloads}
use websocket.Client.Receive.Stream.{Advanced, process_frames-Advanced}
use websocket.Client.Link.{Link, Step, send, arrive, handle, Reach, here, next, read_in}
use websocket.Client.Link.Ordered.{IsIdle, link_in_order, link_delivers}
use websocket.Tests.Wire.{live, blocked, hi, outside, messages}

abbrev pub empty : Ring
empty = record { base = 128; buf = λ _. 0; size = 32; read_ptr = 4; write_ptr = 4; locked = false }

pub empty-IsValid : IsValid empty
empty-IsValid = record {
  nonempty = omega arith;
  small = omega arith;
  read_in = omega arith;
  write_in = omega arith;
}

abbrev pub endpoint : WebSocket
endpoint = record (live empty empty) {
  use_ssl = false;
  io_ctx = some (io_add_socket (io_init true true).1 (some 5) 1 2 0 true true).1;
}

abbrev idle : Link
idle = record { sender = endpoint; flight = []; receiver = endpoint; sent = [] }

idle-IsIdle : IsIdle idle
unfolding used
idle-IsIdle = record {
  sent = refl;
  flight = refl;
  tx = refl;
  rx = refl;
  tx_valid = empty-IsValid;
  rx_valid = empty-IsValid;
  listens = refl;
}

-- writev takes the whole frame.
abbrev taken : Flush
taken = record blocked { writev = some 4 }

abbrev sent : Link
sent = record idle {
  sender = (websocket_send endpoint (some hi) true taken).1;
  flight = [] ++ (129 ∷ 2 ∷ hi);
  sent = [] ++ (true, hi) ∷ [];
}

Step-sent : Step idle sent
unfolding websocket_send wrote_all is_connected send_header used io_ready io_init io_add_socket
    write space clip flush io_write transmit read_inline offered iovecs copy_in
Step-sent =
    send idle true hi taken (129 ∷ 2 ∷ hi) refl refl (omega arith) (omega arith) refl (omega arith)
      refl

abbrev clock : Clock
clock = record { now_ticks = 1; numer = 1; denom = 1 }

-- First one byte arrives, then the rest.
abbrev begun : Link
begun = record sent { flight = 2 ∷ hi; receiver = read_in endpoint (arrived (129 ∷ [])) clock none }

Step-begun : Step sent begun
unfolding send_header used io_ready io_init io_add_socket write_inline writeable
Step-begun =
    arrive sent (129 ∷ []) (2 ∷ hi) clock none refl refl (omega arith) (omega arith) (omega arith)

abbrev whole : Link
whole = record begun {
  flight = [];
  receiver = read_in begun.receiver (arrived (2 ∷ hi)) clock none;
}

Step-whole : Step begun whole
unfolding read_in io_read receive stamped moved_write io_ready io_init io_add_socket write_inline
    writeable
Step-whole = arrive begun (2 ∷ hi) [] clock none refl refl (omega arith) (omega arith) (omega arith)

Reach-whole : Reach idle whole
Reach-whole = next (next (next here Step-sent) Step-begun) Step-whole

link_in_order_example :
    (done : List (Bool × List ℕ)) × (rest : List (Bool × List ℕ)) × ([] ++ (true, hi) ∷ []
      ≡ done ++ rest)
    × (messages_in (process_frames whole.receiver outside).events ≡ [] ++ payloads done)
    × (contents (process_frames whole.receiver outside).rx_ring
          ++ ([] ++ contents whole.sender.tx_ring)
        ≡ frames rest)
unfolding read_in io_read receive stamped moved_write io_ready io_init io_add_socket write_inline
link_in_order_example =
    link_in_order {start = idle}
      {s = record whole { receiver = process_frames whole.receiver outside }} idle-IsIdle
      (next Reach-whole (handle whole outside (omega arith)))

link_delivers_example :
    messages_in (process_frames whole.receiver outside).events
    ≡ [] ++ payloads ([] ++ (true, hi) ∷ [])
unfolding read_in io_read receive stamped moved_write io_ready io_init io_add_socket write_inline
    websocket_send wrote_all is_connected send_header used write space clip flush io_write transmit
    read_inline
link_delivers_example =
    link_delivers {start = idle} {s = whole} outside idle-IsIdle Reach-whole refl refl (omega arith)
      (omega arith)

-- Two whole frames, and the first two bytes of a third.
abbrev partial_ring : Ring
partial_ring = record {
  base = 128;
  buf = memcpy (λ _. 0) 2 (129 ∷ 2 ∷ hi ++ (130 ∷ 3 ∷ 1 ∷ 2 ∷ 3 ∷ 129 ∷ 2 ∷ []));
  size = 16;
  read_ptr = 2;
  write_ptr = 13;
  locked = false;
}

partial_ring-IsValid : IsValid partial_ring
partial_ring-IsValid = record {
  nonempty = omega arith;
  small = omega arith;
  read_in = omega arith;
  write_in = omega arith;
}

contents-partial_ring : contents partial_ring ++ hi ≡ frames (messages ++ (true, hi) ∷ [])
unfolding used frames send_header
contents-partial_ring = refl

process_frames-Advanced_example :
    Advanced
      (messages ++ (true, hi) ∷ [])
      hi
      (live partial_ring empty)
      (process_frames (live partial_ring empty) outside)
process_frames-Advanced_example =
    process_frames-Advanced (live partial_ring empty) (messages ++ (true, hi) ∷ []) hi outside
      partial_ring-IsValid (omega arith) contents-partial_ring (omega arith) refl
