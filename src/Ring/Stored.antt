-- ===== src/Ring/Stored.antt =====
-- The bytes that a ring holds, and how they change when bytes are copied in and published, or when
-- the read position moves on.
use websocket.Prelude.{
  ℕ, ◌+◌, ◌-◌, ◌%◌, ◌^◌, ◌≤◌, ◌<◌, ◌≡◌, ◌∙◌, List, ◌++◌, length, arith, ap, sym, add_size, take,
  drop, Memory, tabulate, tabulate_congr, tabulate-add, length-tabulate, tabulate-get_or,
  take-tabulate, drop-tabulate,
}
use websocket.Ring.{Ring, space, used, copy_in, copy_out, readable, writeable}
use websocket.Ring.Invariant.{
  IsValid, used-advance_write, used-advance_read, advance_lem, space-add-used, readable-eq-used,
  writeable-eq-space,
}
use websocket.Ring.Copy.{around, copy_in_inside, copy_in_outside, copy_out_lem, wrap_lem}

-- The bytes between the two positions, oldest first.
abbrev pub stored : Memory → ℕ → ℕ → ℕ → List ℕ
stored buf size rp wp = tabulate (used size rp wp) (around buf size rp)

abbrev pub contents : Ring → List ℕ
contents r = stored r.buf r.size r.read_ptr r.write_ptr

pub length-contents : (r : Ring) → length (contents r) ≡ readable r
length-contents r = length-tabulate _ _ ∙ sym (readable-eq-used r)

module _ (buf : Memory) (size rp wp : ℕ) (small : size ≤ 2 ^ 62) (p : rp < size)
    (q : wp < size) where
  -- A stored byte, seen from the write position.
  old_position :
      (k : ℕ) → k < used size rp wp → (rp + k) % size ≡ (wp + (size - used size rp wp + k)) % size
  unfolding used
  old_position k h =
      ground (arith, wrap_lem size rp k, wrap_lem size wp (size - used size rp wp + k))

  -- A place past the stored bytes, seen from the write position.
  new_position :
      (k : ℕ) → used size rp wp + k < size → (rp + (used size rp wp + k)) % size ≡ (wp + k) % size
  unfolding used
  new_position k h = ground (arith, wrap_lem size rp (used size rp wp + k), wrap_lem size wp k)

  module _ (ys : List ℕ) (fits : length ys ≤ space size rp wp) where
    room : used size rp wp + length ys < size
    room = omega (arith, space-add-used size rp wp small p q)

    old_byte :
        (k : ℕ)
        → k < used size rp wp
        → around (copy_in buf size wp ys) size rp k ≡ around buf size rp k
    old_byte k h = rw (old_position k h) (
        copy_in_outside buf size wp ys small q (size - used size rp wp + k) (omega (arith, room))
          (omega (arith, room)))

    -- Copying in past the stored bytes leaves them alone,
    pub stored-copied : stored (copy_in buf size wp ys) size rp wp ≡ stored buf size rp wp
    stored-copied = tabulate_congr _ _ _ old_byte

    -- and puts the copied ones behind the write position.
    pub copied_lem : tabulate (length ys) (around (copy_in buf size wp ys) size wp) ≡ ys
    copied_lem =
        tabulate_congr _ _ _
          (λ k h. copy_in_inside buf size wp ys small q k (omega (arith, room)) h)
        ∙ tabulate-get_or ys 0

    -- Publishing the bytes that stand behind the write position appends them.
    pub stored-publish :
        tabulate (length ys) (around buf size wp) ≡ ys
        → stored buf size rp (add_size wp (length ys) % size) ≡ stored buf size rp wp ++ ys
    stored-publish there = rw (used-advance_write size rp wp (length ys) small p q fits) (
        tabulate-add (used size rp wp) (length ys) (around buf size rp)
        ∙ ap (λ t. stored buf size rp wp ++ t)
            (tabulate_congr _ _ _ (λ k h. ap buf (new_position k (omega (arith, room)))) ∙ there))

  module _ (n : ℕ) (h : n ≤ used size rp wp) where
    split_used : used size rp wp ≡ n + (used size rp wp - n)
    split_used = omega arith

    -- Reading takes bytes from the front.
    pub copy_out-stored : copy_out buf size rp n ≡ take n (stored buf size rp wp)
    copy_out-stored =
        copy_out_lem buf size rp n small p (omega (arith, space-add-used size rp wp small p q))
        ∙ sym (take-tabulate n (used size rp wp - n) (around buf size rp))
        ∙ ap (λ t. take n (tabulate t (around buf size rp))) (sym split_used)

    later_position :
        (k : ℕ) → n + k < size → (add_size rp n % size + k) % size ≡ (rp + (n + k)) % size
    later_position k r = ground (
      arith,
      advance_lem size rp n,
      wrap_lem size rp (n + k),
      wrap_lem size (add_size rp n % size) k,
    )

    -- The bytes from the advanced read position on are those that follow.
    pub stored-advance : stored buf size (add_size rp n % size) wp ≡ drop n (stored buf size rp wp)
    stored-advance =
        tabulate_congr _ _ (λ k. around buf size rp (n + k))
          (λ k r.
            ap buf (later_position k (omega (arith, fewer, space-add-used size rp wp small p q))))
        ∙ ap (λ t. tabulate t (λ k. around buf size rp (n + k))) (omega (arith, fewer))
        ∙ sym (drop-tabulate n (used size rp wp - n) (around buf size rp))
        ∙ ap (λ t. drop n (tabulate t (around buf size rp))) (sym split_used)
      where
        fewer : used size (add_size rp n % size) wp + n ≡ used size rp wp
        fewer = used-advance_read size rp wp n small p q h

-- Bytes copied in at the write position, and published, follow those that were stored.
pub stored-copy_in :
    (buf : Memory) (size rp wp : ℕ)
    → size ≤ 2 ^ 62
    → rp < size
    → wp < size
    → (ys : List ℕ) → length ys ≤ space size rp wp
    → stored (copy_in buf size wp ys) size rp (add_size wp (length ys) % size)
      ≡ stored buf size rp wp ++ ys
stored-copy_in buf size rp wp small p q ys fits =
    stored-publish (copy_in buf size wp ys) size rp wp small p q ys fits
      (copied_lem buf size rp wp small p q ys fits)
    ∙ ap (λ t. t ++ ys) (stored-copied buf size rp wp small p q ys fits)

-- The ring with `ys` copied in at the write position, and published.
abbrev pub publish : Ring → List ℕ → Ring
publish r ys = record r {
  buf = copy_in r.buf r.size r.write_ptr ys;
  write_ptr = add_size r.write_ptr (length ys) % r.size;
}

-- The ring with its read position moved on by `n`.
abbrev pub consume : Ring → ℕ → Ring
consume r n = record r { read_ptr = add_size r.read_ptr n % r.size }

pub publish-IsValid : {r : Ring} (ys : List ℕ) → IsValid r → IsValid (publish r ys)
publish-IsValid ys v = ground arith

pub consume-IsValid : {r : Ring} (n : ℕ) → IsValid r → IsValid (consume r n)
consume-IsValid n v = ground arith

pub contents-publish :
    {r : Ring} (ys : List ℕ)
    → IsValid r
    → length ys ≤ writeable r
    → contents (publish r ys) ≡ contents r ++ ys
contents-publish {r} ys v h =
    stored-copy_in r.buf r.size r.read_ptr r.write_ptr v.small v.read_in v.write_in ys
      (rw writeable-eq-space at h)

pub contents-consume :
    {r : Ring} (n : ℕ) → IsValid r → n ≤ readable r → contents (consume r n) ≡ drop n (contents r)
contents-consume {r} n v h =
    stored-advance r.buf r.size r.read_ptr r.write_ptr v.small v.read_in v.write_in n
      (rw readable-eq-used at h)

-- Bytes copied in at the write position, and not published, do not count.
pub contents-copied :
    {r : Ring} (ys : List ℕ)
    → IsValid r
    → length ys ≤ writeable r
    → contents (record r { buf = copy_in r.buf r.size r.write_ptr ys }) ≡ contents r
contents-copied {r} ys v h =
    stored-copied r.buf r.size r.read_ptr r.write_ptr v.small v.read_in v.write_in ys
      (rw writeable-eq-space at h)
