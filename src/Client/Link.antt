-- ===== src/Client/Link.antt =====
-- Two WebSockets of src/websocket.c over a plain TCP connection: one calls websocket_send, the
-- other io_read (src/io_kqueue.c), process_frames and websocket_process, in any order. The
-- connection delivers the bytes that writev took, in order, and in pieces of any length.
pub mod Kept
pub mod Ordered
use websocket.Prelude.{
  ℕ, ◌+◌, ◌^◌, ◌≤◌, ◌<◌, ◌≡◌, List, [], ◌∷◌, ◌++◌, Option, none, some, Bool, true, false, length,
  take,
}
use websocket.Ring.{write_inline, writeable}
use websocket.Ring.Stored.{contents}
use websocket.Transfer.{Received, arrived, Clock, Stamp, io_ready, io_read, receive}
use websocket.Frame.Build.{send_header}
use websocket.Client.{WebSocket, Flush, connected}
use websocket.Client.Observe.{Floating}
use websocket.Client.Process.{World, Kevent}
use websocket.Client.Process.Turn.{websocket_process}
use websocket.Client.Send.{websocket_send}
use websocket.Client.Receive.{Outside, process_frames}

-- Both ends, the bytes between them, and the messages that websocket_send has accepted.
pub record Link : Type 0 where
  pub sender : WebSocket
  pub flight : List ℕ
  pub receiver : WebSocket
  pub sent : List (Bool × List ℕ)

-- writev takes no more than it is offered.
abbrev pub Takes : Option ℕ → List ℕ → Type 0
Takes none xs = Unit {0}
Takes (some n) xs = n ≤ length xs

-- What websocket_send has writev offer: the bytes that wait in the ring, and the frame.
abbrev pub queue : WebSocket → Bool → List ℕ → List ℕ
queue ws is_text bytes = contents ws.tx_ring ++ (send_header is_text (length bytes) ++ bytes)

-- A call of io_read by websocket_process.
unfoldable pub read_in : WebSocket → Received → Clock → Option Stamp → WebSocket
read_in ws result clock stamp =
    let (n, io, rx) = io_read ws.io_ctx ws.socket_index ws.rx_ring result clock stamp in
    record ws { io_ctx = io; rx_ring = rx }

-- `taken` is what io_write adds to the bytes that writev took.
pub data Step : Link → Link → Type 0 where
  send :
      (s : Link) (is_text : Bool) (bytes : List ℕ) (out : Flush) (taken : List ℕ)
      → s.sender.use_ssl ≡ false
      → io_ready s.sender.io_ctx s.sender.socket_index (λ k. k.tx_ring) ≡ true
      → 0 < length bytes
      → length bytes < 2 ^ 62
      → (websocket_send s.sender (some bytes) is_text out).0 ≡ true
      → Takes out.writev (queue s.sender is_text bytes)
      → (websocket_send s.sender (some bytes) is_text out).1.wire ≡ s.sender.wire ++ taken
      → Step s (record s {
        sender = (websocket_send s.sender (some bytes) is_text out).1;
        flight = s.flight ++ taken;
        sent = s.sent ++ (is_text, bytes) ∷ [];
      })
  arrive :
      (s : Link) (xs rest : List ℕ) (clock : Clock) (stamp : Option Stamp)
      → io_ready s.receiver.io_ctx s.receiver.socket_index (λ k. k.rx_ring) ≡ true
      → s.flight ≡ xs ++ rest
      → 0 < length xs
      → length xs ≤ (write_inline s.receiver.rx_ring).1
      → length xs ≤ writeable s.receiver.rx_ring
      → Step s (record s { flight = rest; receiver = read_in s.receiver (arrived xs) clock stamp })
  handle :
      (s : Link) (outside : ℕ → Outside)
      → s.receiver.rx_ring.read_ptr ≤ s.receiver.rx_ring.write_ptr
      → Step s (record s { receiver = process_frames s.receiver outside })
  turn :
      (s : Link) (f : Floating) (w : World) (event : Kevent) (xs rest : List ℕ)
      → s.receiver.state ≡ connected
      → s.receiver.use_ssl ≡ false
      → io_ready s.receiver.io_ctx event.udata (λ k. k.rx_ring) ≡ true
      → event.broken ≡ false
      → event.readable_filter ≡ true
      → (w.receives 0).0 ≡ arrived xs
      → s.flight ≡ xs ++ rest
      → 0 < length xs
      → length xs ≤ (write_inline s.receiver.rx_ring).1
      → length xs ≤ writeable s.receiver.rx_ring
      → (let r = (receive s.receiver.rx_ring (arrived xs)).1 in r.read_ptr ≤ r.write_ptr)
      → Step s (record s {
        flight = rest;
        receiver = (websocket_process f w s.receiver (some (event ∷ []))).1;
      })

pub data Reach (s : Link) : Link → Type 0 where
  here : Reach s s
  next : {t u : Link} → Reach s t → Step t u → Reach s u
