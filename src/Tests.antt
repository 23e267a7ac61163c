-- ===== src/Tests.antt =====
-- The theorems at concrete inputs: a ring of eight bytes that goes round its end, a connection with
-- two messages in its receive ring.
pub mod Wire
pub mod Session
pub mod Fields
pub mod Events
pub mod Link
pub mod Turns
pub mod Tls
pub mod Ticker
use websocket.Prelude.{
  ℕ, zero, ◌+◌, ◌*◌, ◌/◌, ◌%◌, ◌^◌, ◌≤◌, ◌<◌, ◌≡◌, ◌≢◌, ◌↔◌, ◌⊎◌, inl, inr, refl, List, [], ◌∷◌,
  ◌++◌, Option, none, some, Bool, true, false, Memory, memcpy, bytes_at, length, take, drop, min,
  arith, if◌then◌else◌, ltb, leb, ◌==◌, bit_or,
}
use websocket.Io.{IoContext, io_init, io_add_socket, io_remove_socket}
use websocket.Io.Registry.{
  Agrees, io_init-Agrees, io_add_socket-Agrees, io_remove_socket-Agrees, io_remove_socket_lem,
}
use websocket.Client.{Latency}
use websocket.Client.Samples.{set_at, update_latency_sample}
use websocket.Client.Samples.Window.{IsWindow, recent, update_latency_sample_lem}
use websocket.Ring.{
  Ring, space, used, clip, copy_in, write, read, batch_write, batch_read, readable, writeable,
  read_inline, write_inline,
}
use websocket.Ring.Setup.{
  init, cleanup, zeroed, ringbuffer_size, ringbuffer_alignment, init-IsValid, cleanup-init,
}
use websocket.Ring.Invariant.{IsValid, write-IsValid, writeable-add-readable}
use websocket.Ring.Stored.{contents}
use websocket.Ring.Refine.{write_lem, read_lem}
use websocket.Ring.Queue.{Call, put, get, clear, run, run_queue, run_refines}
use websocket.Ring.Batch.{joined, batch_write_lem}
use websocket.Ring.BatchRead.{wanted, batch_read_lem}
use websocket.Ring.Spsc.{System, Producer, Consumer, Step, Reach, writes, reads}
use websocket.Ring.Spsc.Order.{fifo_order}
use websocket.Ring.Inline.{read_inline_overrun, read_inline-contents, write_inline_room}
use websocket.Frame.{Frame, success, zero_frame, neon_parse_ws_frame, scalar_parse_ws_frame}

abbrev pub letters : List ℕ
letters = 97 ∷ 98 ∷ 99 ∷ 100 ∷ 101 ∷ []

-- Eight bytes, of which 6, 7 and 0 are stored.
abbrev pub wrapped : Ring
wrapped = record { base = 128; buf = λ i. i; size = 8; read_ptr = 6; write_ptr = 1; locked = false }

abbrev pub fresh : Ring
fresh = record { base = 128; buf = λ i. i; size = 8; read_ptr = 0; write_ptr = 0; locked = false }

-- 1, 2 and 3, which do not go round the end.
abbrev pub straight : Ring
straight = record {
  base = 128;
  buf = λ i. i;
  size = 8;
  read_ptr = 1;
  write_ptr = 4;
  locked = false;
}

pub wrapped-IsValid : IsValid wrapped
wrapped-IsValid = record {
  nonempty = omega arith;
  small = omega arith;
  read_in = omega arith;
  write_in = omega arith;
}

pub fresh-IsValid : IsValid fresh
fresh-IsValid = record {
  nonempty = omega arith;
  small = omega arith;
  read_in = omega arith;
  write_in = omega arith;
}

pub straight-IsValid : IsValid straight
straight-IsValid = record {
  nonempty = omega arith;
  small = omega arith;
  read_in = omega arith;
  write_in = omega arith;
}

contents-wrapped : contents wrapped ≡ 6 ∷ 7 ∷ 0 ∷ []
unfolding used
contents-wrapped = refl

write_rounds_the_end :
    contents (write wrapped (some letters)).1 ≡ 6 ∷ 7 ∷ 0 ∷ 97 ∷ 98 ∷ 99 ∷ 100 ∷ []
unfolding write space used clip copy_in
write_rounds_the_end = refl

abbrev script : List Call
script =
    put (some letters)
    ∷ get true 4
    ∷ put none
    ∷ put (some letters)
    ∷ get true 9
    ∷ clear
    ∷ get true 1
    ∷ []

run_refines_example : run wrapped script ≡ run_queue 7 (contents wrapped) script
run_refines_example = run_refines script wrapped-IsValid

abbrev chunks : List (Option (List ℕ))
chunks = some (1 ∷ 2 ∷ []) ∷ none ∷ some (3 ∷ 4 ∷ 5 ∷ []) ∷ []

batch_write_lem_example :
    let (n, r') = batch_write wrapped chunks in
    (n ≡ min (length (joined chunks)) (writeable wrapped))
    × (contents r' ≡ contents wrapped ++ take (writeable wrapped) (joined chunks))
    × IsValid r'
batch_write_lem_example = batch_write_lem chunks wrapped-IsValid

abbrev dests : List (Bool × ℕ)
dests = (true, 1) ∷ (false, 4) ∷ (true, 1) ∷ []

batch_read_lem_example :
    let done = batch_read wrapped dests in
    (done.count ≡ min (wanted dests) (readable wrapped))
    × (done.bytes ≡ take (wanted dests) (contents wrapped))
    × (contents done.ring ≡ drop (wanted dests) (contents wrapped))
    × IsValid done.ring
batch_read_lem_example = batch_read_lem dests wrapped-IsValid

read_inline_overrun_example :
    let (p, len) = read_inline wrapped in
    (len ≡ readable wrapped) × ((8 < p + len) ↔ ((1 < 6) × (0 < 1)))
read_inline_overrun_example = read_inline_overrun wrapped-IsValid

-- A write of five bytes by the producer, while the consumer has loaded the position before it.
abbrev system : Ring → Producer → Consumer → List ℕ → System
system r p c sent = record { ring = r; producer = p; consumer = c; sent = sent; got = [] }

abbrev filled : Ring
filled = record fresh { buf = copy_in fresh.buf 8 0 letters; write_ptr = 5 }

abbrev busy : System
busy = system filled Producer.resting (Consumer.loaded 0 3) letters

Reach-busy : Reach fresh busy
unfolding space used clip copy_in
Reach-busy =
    Reach.next
      (Reach.next
        (Reach.next (Reach.next Reach.start (Step.load_write_ptr 3 refl))
          (Step.load_read_ptr letters refl))
        (Step.copy_bytes_in 0 letters refl (omega arith)))
      (Step.store_write_ptr letters refl)

fresh-empty : contents fresh ≡ []
unfolding used
fresh-empty = refl

fifo_order_example : [] ++ contents filled ≡ letters
fifo_order_example = fifo_order {r = fresh} {s = busy} fresh-IsValid fresh-empty Reach-busy

-- Descriptors 5 and 7 are registered.
abbrev one_socket : IoContext
one_socket = (io_add_socket (io_init true true).1 (some 5) 1 2 0 true true).1

abbrev two_sockets : IoContext
two_sockets = (io_add_socket one_socket (some 7) 3 4 0 true true).1

one_socket-Agrees : Agrees one_socket
unfolding io_init
one_socket-Agrees =
    io_add_socket-Agrees (some 5) 1 2 0 true true (io_init-Agrees true true) (λ g e. refl)

seven_is_new : (g : ℕ) → some 7 ≡ some g → one_socket.watch g ≡ none
unfolding io_init io_add_socket
seven_is_new g e = ground arith

io_remove_socket-Agrees_example : Agrees (io_remove_socket one_socket (some 5)).1
io_remove_socket-Agrees_example = io_remove_socket-Agrees (some 5) one_socket-Agrees

-- Three samples in a full array of three, the oldest of which is overwritten.
abbrev samples : List ℕ
samples = 30 ∷ 10 ∷ 20 ∷ []

abbrev latencies : Latency
latencies = record { samples = some samples; count = 3; capacity = 3; idx = 1 }

latencies-IsWindow : IsWindow latencies samples
latencies-IsWindow = record {
  given = refl;
  whole = refl;
  inside = omega arith;
  bounded = omega arith;
}

newest_first : recent latencies samples ≡ 30 ∷ 20 ∷ 10 ∷ []
unfolding recent
newest_first = refl

update_latency_sample_lem_example :
    let samples' = set_at samples 1 40 in
    (w : IsWindow (update_latency_sample latencies 40) samples') × (recent
        (update_latency_sample latencies 40)
        samples'
      ≡ 40 ∷ take 2 (recent latencies samples))
update_latency_sample_lem_example = update_latency_sample_lem 40 latencies-IsWindow
