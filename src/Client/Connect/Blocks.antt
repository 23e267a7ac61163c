-- ===== src/Client/Connect/Blocks.antt =====
-- The memory of the two rings while websocket_connect runs (src/websocket.c).
use websocket.Prelude.{
  ℕ, ◌+◌, ◌^◌, ◌<◌, ◌≡◌, refl, Option, none, some, Bool, Bool-cases, inl, inr, true, false, ◌&&◌,
  ltb, leb, ◌==◌, Memory, arith,
}
use websocket.Ring.{Ring}
use websocket.Ring.Setup.{ringbuffer_size, ringbuffer_alignment, init, zeroed, cleanup}
use websocket.Client.{WebSocket, Flush, flush, ssl_flush}
use websocket.Transfer.{SslContext}
use websocket.Transfer.Plain.{io_write-base}
use websocket.Transfer.Secure.{ssl_write-base}
use websocket.Client.Connect.{Dial, open_rings}

pub flush-base : (ws : WebSocket) (out : Flush) → (flush ws out).tx_ring.base ≡ ws.tx_ring.base
unfolding flush ssl_flush
flush-base ws out = elim (Bool-cases ws.use_ssl) [
  | inr plain ↦ rw plain (io_write-base ws.io_ctx ws.socket_index ws.tx_ring out.writev)
  | inl secure ↦ rw secure (go ws.ssl_ctx)
]
  where
    go : (ctx : Option SslContext) → (ssl_flush ctx ws.tx_ring out).base ≡ ws.tx_ring.base
    go none = refl
    go (some ctx) = ssl_write-base ws.tx_ring out.status out.written

pub flush-rx : (ws : WebSocket) (out : Flush) → (flush ws out).rx_ring ≡ ws.rx_ring
unfolding flush
flush-rx ws out = refl

-- Both rings have their blocks.
pub record Blocks (ws : WebSocket) : Type 0 where
  pub rx : 0 < ws.rx_ring.base
  pub tx : 0 < ws.tx_ring.base

-- ringbuffer_cleanup empties both rings.
pub record Freeable (ws : WebSocket) : Type 0 where
  pub rx : (cleanup ws.rx_ring).ring ≡ zeroed
  pub tx : (cleanup ws.tx_ring).ring ≡ zeroed

-- vm_allocate gives a block inside the address space, which does not begin at 0.
unfoldable pub is_block : Option (ℕ × Memory) → Bool
is_block none = true
is_block (some (addr, memory)) =
    ltb 0 addr && leb (addr + (ringbuffer_size + ringbuffer_alignment)) (2 ^ 64)

pub cleanup_block : (r : Ring) → 0 < r.base → (cleanup r).ring ≡ zeroed
unfolding cleanup
cleanup_block r h = let there : (r.base == 0) ≡ false = ground arith in rw there refl

pub cleanup-zeroed : (cleanup zeroed).ring ≡ zeroed
unfolding cleanup
cleanup-zeroed = refl

pub init-block :
    (r : Ring) (block : Option (ℕ × Memory)) (locks : Bool)
    → is_block block ≡ true
    → (init r block locks).0 ≡ true
    → 0 < (init r block locks).1.base
unfolding init is_block
init-block r none locks h ok = absurd (ground arith)
init-block r (some (addr, memory)) locks h ok = ground arith

pub init_failed :
    (r : Ring) (block : Option (ℕ × Memory)) (locks : Bool)
    → (init r block locks).0 ≡ false
    → (init r block locks).1 ≡ r
unfolding init
init_failed r none locks e = refl
init_failed r (some (addr, memory)) locks e = absurd (ground arith)

pub open_rings-Blocks :
    (d : Dial) (ws : WebSocket)
    → is_block d.rx_block ≡ true
    → is_block d.tx_block ≡ true
    → (open_rings d ws).0 ≡ true
    → Blocks (open_rings d ws).1
unfolding open_rings
open_rings-Blocks d ws h q ok = record {
  rx = ground (arith, init-block ws.rx_ring d.rx_block d.rx_locks h);
  tx = ground (arith, init-block ws.tx_ring d.tx_block d.tx_locks q);
}

pub Blocks-Freeable : {ws : WebSocket} → Blocks ws → Freeable ws
Blocks-Freeable {ws} b = record {
  rx = cleanup_block ws.rx_ring b.rx;
  tx = cleanup_block ws.tx_ring b.tx;
}
