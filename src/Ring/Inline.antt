-- ===== src/Ring/Inline.antt =====
-- `ringbuffer_read_inline` and `ringbuffer_write_inline`, which hand out a pointer and a length.
use websocket.Prelude.{
  ℕ, ◌+◌, ◌-◌, ◌%◌, leb, ◌≡◌, true, sub_size, ◌≤◌, ◌<◌, ◌↔◌, ◌⊎◌, ◌∙◌, arith, bytes_at, sym, ap,
  tabulate, tabulate_congr,
}
use websocket.Ring.{Ring, read_inline, write_inline, readable, writeable, used}
use websocket.Ring.Invariant.{IsValid}
use websocket.Ring.Stored.{contents}
use native.Mathlib.Nat.{mod-eq_of_lt}

-- `ringbuffer_read_inline` hands out as many bytes as can be read. The block that it hands out runs
-- past the end of the buffer exactly when the stored bytes go round the end.
pub read_inline_overrun :
    {r : Ring}
    → IsValid r
    → let (p, len) = read_inline r in
      (len ≡ readable r) × ((r.size < p + len) ↔ ((r.write_ptr < r.read_ptr) × (0 < r.write_ptr)))
unfolding read_inline readable
read_inline_overrun v = ground arith

module _ (r : Ring) (v : IsValid r) (straight : r.read_ptr ≤ r.write_ptr) where
  pub straight_read : read_inline r ≡ (r.read_ptr, r.write_ptr - r.read_ptr)
  unfolding read_inline
  straight_read =
      let v' = v in
      let forward : leb r.read_ptr r.write_ptr ≡ true = ground arith in
      let amount : sub_size r.write_ptr r.read_ptr ≡ r.write_ptr - r.read_ptr = omega arith in
      rw (forward, amount)

  pub straight_used : used r.size r.read_ptr r.write_ptr ≡ r.write_ptr - r.read_ptr
  unfolding used
  straight_used = let v' = v in ground arith

-- Where they do not go round the end, the block is exactly the stored bytes.
pub read_inline-contents :
    {r : Ring}
    → IsValid r
    → (r.read_ptr ≤ r.write_ptr) ⊎ (r.write_ptr ≡ 0)
    → let (p, len) = read_inline r in bytes_at r.buf p len ≡ contents r
unfolding read_inline
read_inline-contents {r} v h =
    tabulate_congr _ _ _ (λ k q. ap r.buf (sym (mod-eq_of_lt (straight k q))))
    ∙ ap (λ t. tabulate t (λ k. r.buf ((r.read_ptr + k) % r.size))) (sym same)
  where
    len : ℕ
    len = (read_inline r).1

    same : used r.size r.read_ptr r.write_ptr ≡ len
    same = unfold used in ground arith

    straight : (k : ℕ) → k < len → r.read_ptr + k < r.size
    straight k q = ground arith

-- `ringbuffer_write_inline` hands out a block inside the buffer and behind no stored byte, but it
-- keeps no byte free: it is one byte more than can be written when the free space reaches the read
-- position without going round the end.
pub write_inline_room :
    {r : Ring}
    → IsValid r
    → let (p, len) = write_inline r in
      (p + len ≤ r.size)
      × (len ≤ writeable r + 1)
      × ((len ≡ writeable r + 1) ↔ ((r.write_ptr < r.read_ptr) ⊎ (r.read_ptr ≡ 0)))
unfolding write_inline writeable
write_inline_room v = ground arith
