-- ===== src/Transfer/Plain.antt =====
-- io_read and io_write on well-formed rings.
use native.Mathlib.Decide.{dec_lt}
use websocket.Prelude.{
  true, ltb, take, ℕ, ◌+◌, ◌%◌, ◌^◌, ◌≤◌, ◌<◌, ◌≡◌, refl, ap, ◌∙◌, List, [], ◌++◌, append-nil,
  Option, none, some, false, ◌==◌, bytes_at, drop, take_of_le, length, add_size, arith, tabulate,
}
use websocket.Io.{IoContext}
use websocket.Ring.{Ring, read_inline, write_inline, readable, writeable, used, copy_out}
use websocket.Ring.Invariant.{IsValid, Fits, advance_lem, readable-eq-used}
use websocket.Ring.Copy.{copy_in_straight, around}
use websocket.Ring.Stored.{
  contents, length-contents, publish, consume, publish-IsValid, consume-IsValid, contents-publish,
  contents-consume, copy_out-stored,
}
use websocket.Ring.Inline.{read_inline_overrun, write_inline_room}
use websocket.Transfer.{
  Received, eof, again, error, Clock, Stamp, io_read, io_write, receive, arrived, moved_write,
  iovecs, offered, transmit,
}

-- The write position, also where it comes to the end of the buffer.
moved_write_lem :
    (size wp n : ℕ)
    → size ≤ 2 ^ 62
    → wp < size
    → wp + n ≤ size
    → moved_write size wp n ≡ add_size wp n % size
unfolding moved_write
moved_write_lem size wp n small q h = ground (arith, advance_lem size wp n)

-- recvmsg puts at most the bytes that it was offered room for.
receive-publish :
    {r : Ring} (xs : List ℕ)
    → IsValid r
    → 0 < length xs
    → length xs ≤ (write_inline r).1
    → receive r (arrived xs) ≡ (some (length xs), publish r xs)
unfolding receive
receive-publish {r} xs v pos h =
    let room : ((write_inline r).1 == 0) ≡ false = ground arith in
    let start : (write_inline r).0 ≡ r.write_ptr = unfold write_inline in refl in
    let straight : r.write_ptr + length xs ≤ r.size = omega (arith, write_inline_room v, start) in
    rw (
      room,
      start,
      moved_write_lem r.size r.write_ptr (length xs) v.small v.write_in straight,
      copy_in_straight r.buf r.size r.write_ptr xs v.small v.write_in straight,
    )

-- On a well-formed ring io_read appends the bytes that recvmsg delivers, in order, and keeps the
-- ring well formed, if they leave the reserved byte free.
pub receive_lem :
    {r : Ring} (xs : List ℕ)
    → IsValid r
    → 0 < length xs
    → length xs ≤ (write_inline r).1
    → length xs ≤ writeable r
    → let (n, r') = receive r (arrived xs) in
      (n ≡ some (length xs)) × (contents r' ≡ contents r ++ xs) × IsValid r'
receive_lem xs v pos offer room =
    rw (receive-publish xs v pos offer) (refl, contents-publish xs v room, publish-IsValid xs v)

-- When recvmsg fills the block that io_read offers and the block reaches up to the read position,
-- the ring reads as empty: all the bytes stored in it, old and new, are lost.
pub receive_overfill :
    {r : Ring} (xs : List ℕ)
    → IsValid r
    → length xs ≡ (write_inline r).1
    → length xs ≡ writeable r + 1
    → let (n, r') = receive r (arrived xs) in (n ≡ some (length xs)) × (contents r' ≡ [])
receive_overfill {r} xs v offer full =
    rw (receive-publish xs v (omega arith) (omega arith))
      (refl, ap (λ t. tabulate t (around (publish r xs).buf r.size r.read_ptr)) caught_up)
  where
    caught_up : used r.size r.read_ptr (publish r xs).write_ptr ≡ 0
    caught_up =
        unfold used write_inline writeable in
        ground (arith, advance_lem r.size r.write_ptr (length xs))

-- On a well-formed ring writev is offered exactly the bytes that the ring holds, in order, in one
-- piece or two.
pub offered-iovecs : {r : Ring} → IsValid r → offered r (iovecs r) ≡ contents r
offered-iovecs {r} v =
    pieces
    ∙ copy_out-stored r.buf r.size r.read_ptr r.write_ptr v.small v.read_in v.write_in
        (used r.size r.read_ptr r.write_ptr) (omega arith)
    ∙ take_of_le _ (contents r) (omega (arith, length-contents r, readable-eq-used r))
  where
    pieces :
        offered r (iovecs r) ≡ copy_out r.buf r.size r.read_ptr (used r.size r.read_ptr r.write_ptr)
    pieces =
        unfold offered iovecs copy_out read_inline used in
        ground (
          arith,
          append-nil (bytes_at r.buf r.read_ptr (used r.size r.read_ptr r.write_ptr)),
          append-nil (bytes_at r.buf 0 (r.write_ptr)),
        )

transmit-nothing : (r : Ring) → transmit r (some 0) ≡ (some 0, [], r)
unfolding transmit
transmit-nothing r = ground arith

transmit-consume :
    {r : Ring} (n : ℕ)
    → IsValid r
    → 0 < n
    → n ≤ readable r
    → transmit r (some n) ≡ (some n, take n (contents r), consume r n)
unfolding transmit
transmit-consume {r} n v pos h =
    let room : ((read_inline r).1 == 0) ≡ false = ground (arith, read_inline_overrun v) in
    let moves : ltb 0 n ≡ true = ground arith in rw (room, moves, offered-iovecs v) refl

-- On a well-formed ring writev takes bytes from the front of what the ring holds, at most all that
-- there is; io_write removes them from the ring, and keeps it well formed.
pub transmit_lem :
    {r : Ring} (n : ℕ)
    → IsValid r
    → n ≤ readable r
    → let (m, taken, r') = transmit r (some n) in
      (m ≡ some n)
      × (taken ≡ take n (contents r))
      × (contents r' ≡ drop n (contents r))
      × IsValid r'
transmit_lem {r} n v h = elim (dec_lt 0 n) [
  | no nothing ↦
      let zero_n : n ≡ 0 = omega arith in rw (zero_n, transmit-nothing r) (refl, refl, refl, v)
  | yes some_taken ↦
      rw (transmit-consume n v some_taken h)
        (refl, refl, contents-consume n v h, consume-IsValid n v)
]

-- The block stays where it is.
pub io_write-base :
    (ctx : Option IoContext) (idx : Option ℕ) (r : Ring) (result : Option ℕ)
    → (io_write ctx idx r result).2.base ≡ r.base
unfolding io_write transmit
io_write-base ctx idx r none = ground arith
io_write-base ctx idx r (some n) = ground arith

receive-Fits :
    {size : ℕ} (r : Ring) (result : Received) → Fits size r → Fits size (receive r result).1
unfolding receive moved_write
receive-Fits r (arrived xs) v = ground arith
receive-Fits r eof v = ground arith
receive-Fits r again v = ground arith
receive-Fits r error v = ground arith

-- Whatever recvmsg returns, the ring stays well formed and of its size.
pub io_read-Fits :
    {size : ℕ} (io : Option IoContext) (index : Option ℕ) (r : Ring) (result : Received)
    (clock : Clock)
    → (stamp : Option Stamp) → Fits size r
    → Fits size (io_read io index r result clock stamp).2
unfolding io_read
io_read-Fits none index r result clock stamp v = v
io_read-Fits (some ctx) none r result clock stamp v = v
io_read-Fits (some ctx) (some i) r result clock stamp v =
    let got = receive-Fits r result v in ground arith
