-- ===== src/Ring.antt =====
-- src/ringbuffer.h and src/ringbuffer.c: the byte ring between one producer and one consumer.
-- The pointers `rb` of this program are addresses of fields of a live WebSocket, never NULL, so the
-- tests `!rb` are left out. `buf` is the memory from the base pointer on, beyond `size` too: the
-- source allocates RINGBUFFER_ALIGNMENT bytes more than it uses.
pub mod Setup
pub mod Invariant
pub mod Copy
pub mod Stored
pub mod Refine
pub mod Queue
pub mod Batch
pub mod BatchRead
pub mod Spsc
pub mod Inline
use websocket.Prelude.{
  ℕ, zero, suc, ◌+◌, ◌-◌, ◌%◌, ◌/◌, ◌*◌, ◌^◌, List, [], ◌∷◌, ◌++◌, Option, none, some, Bool, true,
  false, not, ◌&&◌, ltb, leb, ◌==◌, if◌then◌else◌, length, take, drop, Memory, memcpy, bytes_at,
  add_size, sub_size,
}

-- `RingBuffer`. The atomic loads and stores of the two pointers are plain reads and writes here;
-- `Ring.Spsc` interleaves them.
pub record Ring : Type 0 where
  pub base : ℕ  -- the address `buf`; 0 is NULL
  pub buf : Memory  -- the bytes from that address on
  pub size : ℕ
  pub read_ptr : ℕ
  pub write_ptr : ℕ
  pub locked : Bool

-- The available space that `ringbuffer_write` and `ringbuffer_batch_write` compute.
unfoldable pub space : ℕ → ℕ → ℕ → ℕ
space size rp wp =
    if leb rp wp
    then (let available = add_size (sub_size size wp) rp in
        if ltb 1 available then sub_size available 1 else 0)
    else sub_size (sub_size rp wp) 1

-- The available bytes that `ringbuffer_read` and `ringbuffer_batch_read` compute.
unfoldable pub used : ℕ → ℕ → ℕ → ℕ
used size rp wp = if leb rp wp then sub_size wp rp else add_size (sub_size size rp) wp

-- `(len < available) ? len : available`
unfoldable pub clip : ℕ → ℕ → ℕ
clip len available = if ltb len available then len else available

-- Copying in at `wp`: one memcpy, or two round the end.
unfoldable pub copy_in : Memory → ℕ → ℕ → List ℕ → Memory
copy_in buf size wp xs =
    if leb (add_size wp (length xs)) size
    then memcpy buf wp xs
    else (let first_part = sub_size size wp in
        memcpy (memcpy buf wp (take first_part xs)) 0 (drop first_part xs))

-- Copying `n` bytes out from `rp`: one memcpy, or two round the end.
unfoldable pub copy_out : Memory → ℕ → ℕ → ℕ → List ℕ
copy_out buf size rp n =
    if leb (add_size rp n) size
    then bytes_at buf rp n
    else (let first_part = sub_size size rp in
        bytes_at buf rp first_part ++ bytes_at buf 0 (sub_size n first_part))

-- `ringbuffer_write`, returning the count: the bytes are those at `data`, none if it is NULL.
unfoldable pub write : Ring → Option (List ℕ) → ℕ × Ring
write r none = (0, r)
write r (some bytes) =
    let len = length bytes in
    if len == 0
    then (0, r)
    else (let available = space r.size r.read_ptr r.write_ptr in
        if available == 0
        then (0, r)
        else (let to_write = clip len available in
            (
              to_write,
              record r {
                buf = copy_in r.buf r.size r.write_ptr (take to_write bytes);
                write_ptr = add_size r.write_ptr to_write % r.size;
              },
            )))

-- What `ringbuffer_read` returns and stores: the count, and the bytes put at `data`.
pub record Read : Type 0 where
  pub count : ℕ
  pub bytes : List ℕ
  pub ring : Ring

-- `ringbuffer_read`; the first argument says whether `data` is not NULL.
unfoldable pub read : Bool → Ring → ℕ → Read
read given r len =
    if not given
    then record { count = 0; bytes = []; ring = r }
    else if len == 0
    then record { count = 0; bytes = []; ring = r }
    else (let available = used r.size r.read_ptr r.write_ptr in
        if available == 0
        then record { count = 0; bytes = []; ring = r }
        else (let to_read = clip len available in
            record {
              count = to_read;
              bytes = copy_out r.buf r.size r.read_ptr to_read;
              ring = record r { read_ptr = add_size r.read_ptr to_read % r.size };
            }))

-- `ringbuffer_writeable`
unfoldable pub writeable : Ring → ℕ
writeable r =
    if leb r.read_ptr r.write_ptr
    then (let available = add_size (sub_size r.size r.write_ptr) r.read_ptr in
        if ltb 1 available then sub_size available 1 else 0)
    else sub_size (sub_size r.read_ptr r.write_ptr) 1

-- `ringbuffer_readable`
unfoldable pub readable : Ring → ℕ
readable r =
    if leb r.read_ptr r.write_ptr
    then sub_size r.write_ptr r.read_ptr
    else add_size (sub_size r.size r.read_ptr) r.write_ptr

-- `ringbuffer_reset`
unfoldable pub reset : Ring → Ring
reset r = record r { read_ptr = 0; write_ptr = 0 }

-- `ringbuffer_read_inline`: the offset of `*data` from `buf`, and `*len`.
unfoldable pub read_inline : Ring → ℕ × ℕ
read_inline r = (
  r.read_ptr,
  if leb r.read_ptr r.write_ptr
      then sub_size r.write_ptr r.read_ptr
      else add_size (sub_size r.size r.read_ptr) r.write_ptr,
)

-- `ringbuffer_write_inline`: the offset of `*data` from `buf`, and `*len`.
unfoldable pub write_inline : Ring → ℕ × ℕ
write_inline r = (
  r.write_ptr,
  if leb r.read_ptr r.write_ptr
      then (if (r.read_ptr == 0) && (r.write_ptr == r.size) then 0 else sub_size r.size r.write_ptr)
      else sub_size r.read_ptr r.write_ptr,
)

-- The loop of `ringbuffer_batch_write` over the chunks left, with the pointer loaded once, `wp` the
-- local write pointer, and the bytes written so far.
pub record BatchWrite : Type 0 where
  pub buf : Memory
  pub wp : ℕ
  pub total : ℕ

unfoldable pub batch_write_loop : ℕ → ℕ → List (Option (List ℕ)) → BatchWrite → BatchWrite
batch_write_loop size rp [] b = b
batch_write_loop size rp (none ∷ chunks) b = batch_write_loop size rp chunks b
batch_write_loop size rp (some [] ∷ chunks) b = batch_write_loop size rp chunks b
batch_write_loop size rp (some (x ∷ xs) ∷ chunks) b =
    let available = space size rp b.wp in
    let to_write = clip (length (x ∷ xs)) available in
    let rest = batch_write_loop size rp chunks (record {
      buf = copy_in b.buf size b.wp (take to_write (x ∷ xs));
      wp = add_size b.wp to_write % size;
      total = add_size b.total to_write;
    }) in
    if available == 0 then b else rest

-- `ringbuffer_batch_write`: each chunk is the bytes at its pointer, none if that is NULL. The store
-- of the pointer is skipped when nothing was written.
unfoldable pub batch_write : Ring → List (Option (List ℕ)) → ℕ × Ring
batch_write r chunks =
    let b =
      batch_write_loop r.size r.read_ptr chunks
        (record { buf = r.buf; wp = r.write_ptr; total = 0 }) in
    (b.total, record r { buf = b.buf; write_ptr = if ltb 0 b.total then b.wp else r.write_ptr })

-- The loop of `ringbuffer_batch_read` over the destinations left: whether each pointer is not NULL,
-- and its length. The bytes stored through each follow one another in `out`.
pub record Fetch : Type 0 where
  pub rp : ℕ
  pub total : ℕ
  pub out : List ℕ

unfoldable pub batch_read_loop : Memory → ℕ → ℕ → List (Bool × ℕ) → Fetch → Fetch
batch_read_loop buf size wp [] b = b
batch_read_loop buf size wp ((given, len) ∷ dests) b =
    let skip = batch_read_loop buf size wp dests b in
    let available = used size b.rp wp in
    let to_read = clip len available in
    let rest = batch_read_loop buf size wp dests (record {
      rp = add_size b.rp to_read % size;
      total = add_size b.total to_read;
      out = b.out ++ copy_out buf size b.rp to_read;
    }) in
    if not given then skip else if len == 0 then skip else if available == 0 then b else rest

-- `ringbuffer_batch_read`
unfoldable pub batch_read : Ring → List (Bool × ℕ) → Read
batch_read r dests =
    let b =
      batch_read_loop r.buf r.size r.write_ptr dests
        (record { rp = r.read_ptr; total = 0; out = [] }) in
    record {
      count = b.total;
      bytes = b.out;
      ring = record r { read_ptr = if ltb 0 b.total then b.rp else r.read_ptr };
    }
