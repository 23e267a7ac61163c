-- ===== src/Ring/Setup.antt =====
-- `ringbuffer_init` and `ringbuffer_cleanup`. What vm_allocate and mlock return are arguments: the
-- block's address (none if it fails) and the memory there, and whether the lock succeeded.
use websocket.Prelude.{
  ℕ, ◌+◌, ◌-◌, ◌*◌, ◌/◌, ◌%◌, ◌^◌, ◌≤◌, ◌<◌, ◌≡◌, refl, [], Option, none, some, Bool, true, false,
  ◌==◌, if◌then◌else◌, Memory, arith,
}
use websocket.Ring.{Ring, used}
use websocket.Ring.Invariant.{IsValid}
use websocket.Ring.Stored.{contents}

-- RINGBUFFER_SIZE and RINGBUFFER_ALIGNMENT
abbrev pub ringbuffer_size : ℕ
ringbuffer_size = 8 * 1024 * 1024

abbrev pub ringbuffer_alignment : ℕ
ringbuffer_alignment = 128

-- `x & ~(RINGBUFFER_ALIGNMENT - 1)`
abbrev pub align_down : ℕ → ℕ
align_down x = x / ringbuffer_alignment * ringbuffer_alignment

-- `ringbuffer_init`: whether it returns 0, and the ring.
unfoldable pub init : Ring → Option (ℕ × Memory) → Bool → Bool × Ring
init r none locks = (false, r)
init r (some (addr, memory)) locks =
    let aligned = align_down ((addr + ringbuffer_alignment - 1) % 2 ^ 64) in
    (
      true,
      record {
        base = aligned;
        buf = λ j. memory (aligned + j);
        size = ringbuffer_size;
        read_ptr = 0;
        write_ptr = 0;
        locked = locks;
      },
    )

-- The ring after memset.
abbrev pub zeroed : Ring
zeroed = record { base = 0; buf = λ _. 0; size = 0; read_ptr = 0; write_ptr = 0; locked = false }

-- `ringbuffer_cleanup`: the address passed to munlock and that passed to vm_deallocate, where they
-- are called, and the ring.
pub record Cleanup : Type 0 where
  pub unlocked : Option ℕ
  pub freed : Option ℕ
  pub ring : Ring

unfoldable pub cleanup : Ring → Cleanup
cleanup r = if r.base == 0 then record { unlocked = none; freed = none; ring = r } else record {
  unlocked = if r.locked then some r.base else none;
  freed = some (align_down r.base);
  ring = zeroed;
}

-- Where vm_allocate gives a block that ends within the address space, `ringbuffer_init` returns 0
-- and makes an empty, well-formed ring, aligned to a cache line, whose bytes lie inside the block.
pub init-IsValid :
    (r : Ring) (addr : ℕ) (memory : Memory) (locks : Bool)
    → addr + (ringbuffer_size + ringbuffer_alignment) ≤ 2 ^ 64
    → let (ok, r') = init r (some (addr, memory)) locks in
      (ok ≡ true)
      × IsValid r'
      × (contents r' ≡ [])
      × (r'.base % ringbuffer_alignment ≡ 0)
      × (addr ≤ r'.base)
      × (r'.base + r'.size ≤ addr + (ringbuffer_size + ringbuffer_alignment))
unfolding init used
init-IsValid r addr memory locks h =
    (refl, omega arith, refl, omega arith, omega arith, omega arith)

-- vm_allocate returns page-aligned, non-zero addresses. For such an address `ringbuffer_cleanup`
-- hands the block that `ringbuffer_init` got back to vm_deallocate, unlocks it exactly if it was
-- locked, and leaves a ring that a second `ringbuffer_cleanup` does not touch.
pub cleanup-init :
    (r : Ring) (addr : ℕ) (memory : Memory) (locks : Bool)
    → addr + (ringbuffer_size + ringbuffer_alignment) ≤ 2 ^ 64
    → 0 < addr
    → addr % ringbuffer_alignment ≡ 0
    → let done = cleanup (init r (some (addr, memory)) locks).1 in
      (done.freed ≡ some addr)
      × (done.unlocked ≡ (if locks then some addr else none))
      × (done.ring ≡ zeroed)
      × (cleanup done.ring ≡ record { unlocked = none; freed = none; ring = zeroed })
unfolding init cleanup
cleanup-init r addr memory locks h pos page =
    let base : align_down ((addr + ringbuffer_alignment - 1) % 2 ^ 64) ≡ addr = omega arith in
    let again : align_down addr ≡ addr = omega arith in
    let nonzero : (addr == 0) ≡ false = ground arith in
    rw (base, nonzero, again) (refl, refl, refl, refl)
