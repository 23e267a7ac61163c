-- ===== src/Ring/Invariant.antt =====
-- The well-formedness of a RingBuffer: both positions lie inside it, and no size_t sum wraps.
use websocket.Prelude.{
  ℕ, ◌+◌, ◌-◌, ◌%◌, ◌^◌, ◌≤◌, ◌<◌, ◌≡◌, refl, List, Option, none, some, Bool, arith, min, add_size,
  ltb, if◌then◌else◌,
}
use native.Mathlib.Nat.{mod-eq_of_lt, mod-eq-sub-mod}
use native.Mathlib.Decide.{dec_lt}
use websocket.Ring.{Ring, space, used, clip, write, read, writeable, readable, reset}

pub record IsValid (r : Ring) : Type 0 where
  pub nonempty : 0 < r.size
  pub small : r.size ≤ 2 ^ 62
  pub read_in : r.read_ptr < r.size
  pub write_in : r.write_ptr < r.size

-- A well-formed ring of a given size.
pub record Fits (size : ℕ) (r : Ring) : Type 0 where
  pub valid : IsValid r
  pub same_size : r.size ≡ size

-- The bytes stored, by the two positions.
pub used_lem :
    (size rp wp : ℕ)
    → size ≤ 2 ^ 62
    → rp < size
    → wp < size
    → used size rp wp ≡ (wp + size - rp) % size
unfolding used
used_lem size rp wp h p q = elim (dec_lt (wp + size - rp) size) [
  | yes below ↦ ground (arith, mod-eq_of_lt below)
  | no past ↦ ground (
    arith,
    mod-eq-sub-mod {n = wp + size - rp} {m = size} (omega arith),
    mod-eq_of_lt {n = wp + size - rp - size} {m = size} (omega arith),
  )
]

-- One byte stays free, so that a full ring and an empty one differ.
pub space-add-used :
    (size rp wp : ℕ)
    → size ≤ 2 ^ 62
    → rp < size
    → wp < size
    → space size rp wp + used size rp wp + 1 ≡ size
unfolding space used
space-add-used size rp wp h p q = ground arith

pub clip_lem : (a b : ℕ) → clip a b ≡ min a b
unfolding clip
clip_lem a b = ground arith

-- A position moved on by at most `size` bytes.
pub advance_lem :
    (size p n : ℕ)
    → size ≤ 2 ^ 62
    → p < size
    → n ≤ size
    → add_size p n % size ≡ (if ltb (p + n) size then p + n else p + n - size)
advance_lem size p n h q k = elim (dec_lt (p + n) size) [
  | yes below ↦ ground (arith, mod-eq_of_lt below)
  | no past ↦ ground (
    arith,
    mod-eq-sub-mod {n = p + n} {m = size} (omega arith),
    mod-eq_of_lt {n = p + n - size} {m = size} (omega arith),
  )
]

-- Where the write position stands after `n` bytes, `n` at most the free space.
pub used-advance_write :
    (size rp wp n : ℕ)
    → size ≤ 2 ^ 62
    → rp < size
    → wp < size
    → n ≤ space size rp wp
    → used size rp (add_size wp n % size) ≡ used size rp wp + n
unfolding space used
used-advance_write size rp wp n h p q k = ground (arith, advance_lem size wp n)

pub used-advance_read :
    (size rp wp n : ℕ)
    → size ≤ 2 ^ 62
    → rp < size
    → wp < size
    → n ≤ used size rp wp
    → used size (add_size rp n % size) wp + n ≡ used size rp wp
unfolding used
used-advance_read size rp wp n h p q k = ground (arith, advance_lem size rp n)

-- A free run fits the ring, and one byte of it stays free.
pub space-lt : (size rp wp : ℕ) → size ≤ 2 ^ 62 → rp < size → wp < size → space size rp wp < size
space-lt size rp wp h p q = omega (arith, space-add-used size rp wp h p q)

pub used-lt : (size rp wp : ℕ) → size ≤ 2 ^ 62 → rp < size → wp < size → used size rp wp < size
used-lt size rp wp h p q = omega (arith, space-add-used size rp wp h p q)

pub readable-eq-used : (r : Ring) → readable r ≡ used r.size r.read_ptr r.write_ptr
unfolding readable used
readable-eq-used r = refl

pub writeable-eq-space : (r : Ring) → writeable r ≡ space r.size r.read_ptr r.write_ptr
unfolding writeable space
writeable-eq-space r = refl

pub mod-lt_size : (size a : ℕ) → 0 < size → a % size < size
mod-lt_size size a h = omega arith

-- `ringbuffer_write` keeps the ring well formed.
pub write-IsValid : {r : Ring} (xs : Option (List ℕ)) → IsValid r → IsValid (write r xs).1
unfolding write
write-IsValid {r} none v = v
write-IsValid {r} (some xs) v = ground arith

-- `ringbuffer_read` keeps the ring well formed.
pub read-IsValid : {r : Ring} (given : Bool) (len : ℕ) → IsValid r → IsValid (read given r len).ring
unfolding read
read-IsValid {r} given len v = ground arith

pub reset-IsValid : {r : Ring} → IsValid r → IsValid (reset r)
unfolding reset
reset-IsValid v = ground arith

-- What can be written and what can be read make up the size but for the reserved byte.
pub writeable-add-readable : {r : Ring} → IsValid r → writeable r + readable r + 1 ≡ r.size
writeable-add-readable {r} v = omega (
  arith,
  readable-eq-used r,
  writeable-eq-space r,
  space-add-used r.size r.read_ptr r.write_ptr v.small v.read_in v.write_in,
)
