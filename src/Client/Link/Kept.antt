-- ===== src/Client/Link/Kept.antt =====
-- What one call of websocket_send or io_read does to the bytes of a stream (src/websocket.c,
-- src/io_kqueue.c).
use mathlib.Core.Path.{subst}
use websocket.Prelude.{
  ap₂, drop, drop_front, ℕ, ◌≤◌, ◌<◌, ◌≡◌, ◌∙◌, refl, ap, sym, List, ◌++◌, Option, none, some, Bool,
  Bool-cases, inl, inr, true, false, ◌==◌, length, take-append-drop, take_of_le, arith,
}
use websocket.Ring.{Ring, read_inline, write_inline, writeable}
use websocket.Ring.Invariant.{IsValid}
use websocket.Ring.Stored.{contents, length-contents}
use websocket.Io.{IoContext}
use websocket.Transfer.{arrived, Clock, Stamp, receive, transmit, io_ready, io_read, io_write}
use websocket.Transfer.Plain.{transmit_lem, receive_lem}
use websocket.Frame.Build.{send_header}
use websocket.Client.{WebSocket, Flush, flush}
use websocket.Client.Send.{is_connected, websocket_send}
use websocket.Client.Send.Queued.{websocket_send_lem, websocket_send_refused}
use websocket.Client.Link.{Takes, queue, read_in}

-- The bytes that writev takes and those that stay are those that waited.
transmit_keeps :
    {r : Ring} (result : Option ℕ)
    → IsValid r
    → Takes result (contents r)
    → let (m, taken, r') = transmit r result in (taken ++ contents r' ≡ contents r) × IsValid r'
unfolding transmit
transmit_keeps {r} none v h = elim (Bool-cases ((read_inline r).1 == 0)) [
  | inl nothing ↦ rw nothing (refl, v)
  | inr some_bytes ↦ rw some_bytes (refl, v)
]
transmit_keeps {r} (some n) v h =
    let t = transmit_lem n v (omega (arith, length-contents r)) in
    (ap₂ ◌++◌ t.1 t.2 ∙ take-append-drop n (contents r), t.3)

flush-transmit :
    (ws : WebSocket) (out : Flush)
    → ws.use_ssl ≡ false
    → io_ready ws.io_ctx ws.socket_index (λ k. k.tx_ring) ≡ true
    → let (m, taken, r') = transmit ws.tx_ring out.writev in
      ((flush ws out).tx_ring ≡ r') × ((flush ws out).wire ≡ ws.wire ++ taken)
unfolding flush io_write
flush-transmit ws out plain ready = rw (plain, ready) (refl, refl)

append_cancel : (s t u : List ℕ) → s ++ t ≡ s ++ u → t ≡ u
append_cancel s t u h = sym (drop_front s t) ∙ ap (drop (length s)) h ∙ drop_front s u

-- A successful websocket_send: what the kernel took and what waits in the ring are what waited
-- before and the new frame.
pub send_keeps :
    (ws : WebSocket) (is_text : Bool) (bytes : List ℕ) (out : Flush) (taken : List ℕ)
    → IsValid ws.tx_ring
    → ws.use_ssl ≡ false
    → io_ready ws.io_ctx ws.socket_index (λ k. k.tx_ring) ≡ true
    → 0 < length bytes
    → (websocket_send ws (some bytes) is_text out).0 ≡ true
    → Takes out.writev (queue ws is_text bytes)
    → (websocket_send ws (some bytes) is_text out).1.wire ≡ ws.wire ++ taken
    → let ws' = (websocket_send ws (some bytes) is_text out).1 in
      (taken ++ contents ws'.tx_ring ≡ queue ws is_text bytes) × IsValid ws'.tx_ring
send_keeps ws is_text bytes out taken v plain ready some_bytes ok takes wired =
    elim (Bool-cases (is_connected ws.state)) [
      | inr down ↦
          let no : false ≡ true =
            sym
              (ap (λ t. t.0) (websocket_send_refused ws (some bytes) is_text out (inr (inr down))))
            ∙ ok in
          cc
      | inl up ↦
          let (r, q, tx, wire, count) = websocket_send_lem ws bytes is_text out v up some_bytes in
          let frame = send_header is_text (length bytes) ++ bytes in
          let whole : length frame ≤ writeable ws.tx_ring = ground (arith, q.fits) in
          let queued : contents r ≡ queue ws is_text bytes =
            q.bytes ∙ ap (λ t. contents ws.tx_ring ++ t) (take_of_le _ frame whole) in
          let (moved, handed) = flush-transmit (record ws { tx_ring = r }) out plain ready in
          let flushed : (websocket_send ws (some bytes) is_text out).1.tx_ring
              ≡ (transmit r out.writev).2 =
            (rw ok at tx) ∙ moved in
          let same : taken ≡ (transmit r out.writev).1 =
            append_cancel ws.wire _ _ (sym wired ∙ (rw ok at wire) ∙ handed) in
          let kept = transmit_keeps out.writev q.valid (rw (← queued) at takes) in
          rw (flushed, same) (kept.0 ∙ queued, kept.1)
    ]

pub io_read-receive :
    (ctx : Option IoContext) (idx : Option ℕ) (r : Ring) (xs : List ℕ) (clock : Clock)
    → (stamp : Option Stamp) → io_ready ctx idx (λ k. k.rx_ring) ≡ true
    → 0 < (write_inline r).1
    → (io_read ctx idx r (arrived xs) clock stamp).2 ≡ (receive r (arrived xs)).1
unfolding io_read
io_read-receive none idx r xs clock stamp ready room =
    let no : false ≡ true = unfold io_ready in ready in cc
io_read-receive (some ctx) none r xs clock stamp ready room =
    let no : false ≡ true = unfold io_ready in ready in cc
io_read-receive (some ctx) (some i) r xs clock stamp ready room =
    let some_room : ((write_inline r).1 == 0) ≡ false = ground arith in rw (ready, some_room) refl

-- io_read of bytes that arrived appends them to the receive ring.
pub read_in_keeps :
    (ws : WebSocket) (xs : List ℕ) (clock : Clock) (stamp : Option Stamp)
    → IsValid ws.rx_ring
    → io_ready ws.io_ctx ws.socket_index (λ k. k.rx_ring) ≡ true
    → 0 < length xs
    → length xs ≤ (write_inline ws.rx_ring).1
    → length xs ≤ writeable ws.rx_ring
    → let ws' = read_in ws (arrived xs) clock stamp in
      (contents ws'.rx_ring ≡ contents ws.rx_ring ++ xs)
      × IsValid ws'.rx_ring
      × (ws'.events ≡ ws.events)
      × (ws'.on_message ≡ ws.on_message)
unfolding read_in
read_in_keeps ws xs clock stamp v ready pos offer room =
    let same =
      io_read-receive ws.io_ctx ws.socket_index ws.rx_ring xs clock stamp ready (omega arith) in
    let kept = receive_lem xs v pos offer room in
    (ap contents same ∙ kept.1, subst IsValid (sym same) kept.2, refl, refl)
