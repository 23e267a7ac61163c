-- ===== src/Ring/Refine.antt =====
-- A well-formed ring is a bounded queue of bytes: what `ringbuffer_write` and `ringbuffer_read` do
-- to the bytes that it holds.
use native.Mathlib.Decide.{dec_lt}
use websocket.Prelude.{
  ℕ, Bool, Option, none, ◌≤◌, ◌<◌, ◌≡◌, refl, ◌∙◌, List, [], ◌++◌, some, true, false, length, arith,
  ap, sym, min, length-take, take-min, drop-min, take, drop, append-nil, ◌==◌,
}
use websocket.Ring.{Ring, space, used, clip, copy_out, write, read, readable, writeable, reset}
use websocket.Ring.Invariant.{
  IsValid, writeable-add-readable, clip_lem, readable-eq-used, writeable-eq-space,
}
use websocket.Ring.Stored.{
  contents, length-contents, publish, consume, contents-publish, contents-consume, copy_out-stored,
}
use websocket.Ring.Copy.{copy_in_past}

write-nothing :
    (r : Ring) (xs : List ℕ) → min (length xs) (writeable r) ≡ 0 → write r (some xs) ≡ (0, r)
unfolding write
write-nothing r xs h = ground (arith, writeable-eq-space r)

write-publish :
    (r : Ring) (xs : List ℕ) (n : ℕ)
    → n ≡ min (length xs) (writeable r)
    → 0 < n
    → write r (some xs) ≡ (n, publish r (take n xs))
unfolding write
write-publish r xs n h pos =
    let whole : length (take n xs) ≡ n = omega (arith, length-take n xs) in
    let amount : clip (length xs) (space r.size r.read_ptr r.write_ptr) ≡ n =
      omega
        (arith, clip_lem (length xs) (space r.size r.read_ptr r.write_ptr), writeable-eq-space r) in
    let nonempty : (length xs == 0) ≡ false = ground arith in
    let room : (space r.size r.read_ptr r.write_ptr == 0) ≡ false =
      ground (arith, writeable-eq-space r) in
    rw (nonempty, room, amount, whole)

-- On a well-formed ring `ringbuffer_write` takes as many bytes as fit, appends exactly those to
-- what the ring holds, and changes no memory past the end of the ring.
pub write_lem :
    {r : Ring} (xs : List ℕ)
    → IsValid r
    → let (n, r') = write r (some xs) in
      (n ≡ min (length xs) (writeable r))
      × (contents r' ≡ contents r ++ take (writeable r) xs)
      × ((j : ℕ) → r.size ≤ j → r'.buf j ≡ r.buf j)
write_lem {r} xs v = elim (dec_lt 0 (min (length xs) (writeable r))) [
  | no nothing ↦
      let none_taken : min (length xs) (writeable r) ≡ 0 = omega arith in
      rw (write-nothing r xs none_taken) (
        omega arith,
        sym (append-nil (contents r))
            ∙ ap (λ t. contents r ++ t) (take-min 0 (writeable r) xs (omega arith)),
        λ j h. refl,
      )
  | yes some_taken ↦
      let n = min (length xs) (writeable r) in
      let within : length (take n xs) ≤ writeable r = omega (arith, length-take n xs) in
      rw (write-publish r xs n refl some_taken) (
        refl,
        contents-publish (take n xs) v within
            ∙ ap (λ t. contents r ++ t) (take-min n (writeable r) xs refl),
        λ j h.
            copy_in_past r.buf r.size r.write_ptr (take n xs) v.small v.write_in j
              (omega (arith, within, writeable-add-readable v)) h,
      )
]

read-nothing :
    (r : Ring) (len : ℕ)
    → min len (readable r) ≡ 0
    → read true r len ≡ record { count = 0; bytes = []; ring = r }
unfolding read
read-nothing r len h = ground (arith, readable-eq-used r)

read-consume :
    (r : Ring) (len n : ℕ)
    → n ≡ min len (readable r)
    → 0 < n
    → read true r len
      ≡ record { count = n; bytes = copy_out r.buf r.size r.read_ptr n; ring = consume r n }
unfolding read
read-consume r len n h pos =
    let amount : clip len (used r.size r.read_ptr r.write_ptr) ≡ n =
      omega (arith, clip_lem len (used r.size r.read_ptr r.write_ptr), readable-eq-used r) in
    let wanted : (len == 0) ≡ false = ground arith in
    let some_there : (used r.size r.read_ptr r.write_ptr == 0) ≡ false =
      ground (arith, readable-eq-used r) in
    rw (wanted, some_there, amount)

-- On a well-formed ring `ringbuffer_read` returns the oldest bytes, at most `len` of them, and
-- keeps the rest.
pub read_lem :
    {r : Ring} (len : ℕ)
    → IsValid r
    → let out = read true r len in
      (out.count ≡ min len (readable r))
      × (out.bytes ≡ take len (contents r))
      × (contents out.ring ≡ drop len (contents r))
read_lem {r} len v = elim (dec_lt 0 (min len (readable r))) [
  | no nothing ↦
      let none_read : min len (readable r) ≡ 0 = omega arith in
      let all : 0 ≡ min (length (contents r)) len = omega (arith, length-contents r) in
      rw (read-nothing r len none_read)
        (sym none_read, take-min 0 len (contents r) all, drop-min 0 len (contents r) all)
  | yes some_read ↦
      let n = min len (readable r) in
      let all : n ≡ min (length (contents r)) len = omega (arith, length-contents r) in
      rw (read-consume r len n refl some_read) (
        refl,
        copy_out-stored r.buf r.size r.read_ptr r.write_ptr v.small v.read_in v.write_in n
              (omega (arith, readable-eq-used r))
            ∙ take-min n len (contents r) all,
        contents-consume n v (omega arith) ∙ drop-min n len (contents r) all,
      )
]

pub write-size : (r : Ring) (xs : Option (List ℕ)) → (write r xs).1.size ≡ r.size
unfolding write
write-size r none = refl
write-size r (some xs) = ground arith

pub write-base : (r : Ring) (xs : Option (List ℕ)) → (write r xs).1.base ≡ r.base
unfolding write
write-base r none = refl
write-base r (some xs) = ground arith

pub read-size : (given : Bool) (r : Ring) (len : ℕ) → (read given r len).ring.size ≡ r.size
unfolding read
read-size given r len = ground arith

pub reset-size : (r : Ring) → (reset r).size ≡ r.size
unfolding reset
reset-size r = refl

-- `ringbuffer_reset` empties the ring.
pub contents-reset : (r : Ring) → contents (reset r) ≡ []
unfolding reset used
contents-reset r = refl

-- A NULL pointer: nothing is written, nothing is read, and the ring stays as it is.
pub write_null : (r : Ring) → write r none ≡ (0, r)
unfolding write
write_null r = refl

pub read_null : (r : Ring) (len : ℕ) → read false r len ≡ record { count = 0; bytes = []; ring = r }
unfolding read
read_null r len = refl
