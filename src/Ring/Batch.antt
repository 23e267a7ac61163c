-- ===== src/Ring/Batch.antt =====
-- `ringbuffer_batch_write` and `ringbuffer_batch_read` against one write or read of all the bytes.
use native.Mathlib.Nat.{mod-add-mod, mod-eq_of_lt}
use websocket.Prelude.{
  ℕ, ◌+◌, ◌-◌, ◌%◌, ◌^◌, ◌≤◌, ◌<◌, ◌≡◌, refl, ◌∙◌, List, [], ◌∷◌, ◌++◌, Option, none, some, length,
  arith, ap, ap₂, sym, min, length-take, take_of_le, take-append, take-min, add_size, ltb,
  if◌then◌else◌, take, append-nil, append_assoc, ◌==◌, Bool-cases, ==_iff, inl, inr, length-append,
}
use websocket.Ring.{
  Ring, BatchWrite, space, clip, copy_in, batch_write_loop, batch_write, writeable,
}
use websocket.Ring.Invariant.{
  IsValid, space-add-used, used-advance_write, clip_lem, writeable-eq-space,
}
use websocket.Ring.Stored.{stored, contents, stored-copy_in}

-- The bytes of all chunks, those at NULL left out.
unfoldable pub joined : List (Option (List ℕ)) → List ℕ
joined [] = []
joined (none ∷ chunks) = joined chunks
joined (some xs ∷ chunks) = xs ++ joined chunks

-- What the loop has done when it stops, started at `b`.
record Wrote (size rp : ℕ) (xs : List ℕ) (b end : BatchWrite) : Type 0 where
  wp_in : end.wp < size
  moved : end.wp ≡ (b.wp + min (length xs) (space size rp b.wp)) % size
  counted : end.total ≡ b.total + min (length xs) (space size rp b.wp)
  holds : stored end.buf size rp end.wp ≡ stored b.buf size rp b.wp ++ take (space size rp b.wp) xs

module _ (size rp : ℕ) (small : size ≤ 2 ^ 62) (p : rp < size) where
  -- One chunk, clipped to the free space.
  abbrev after_chunk : List ℕ → BatchWrite → BatchWrite
  after_chunk xs b =
      let to_write = clip (length xs) (space size rp b.wp) in
      record {
        buf = copy_in b.buf size b.wp (take to_write xs);
        wp = add_size b.wp to_write % size;
        total = add_size b.total to_write;
      }

  module _ (xs : List ℕ) (b : BatchWrite) (q : b.wp < size) where
    amount : clip (length xs) (space size rp b.wp) ≡ min (length xs) (space size rp b.wp)
    amount = clip_lem (length xs) (space size rp b.wp)

    kept : List ℕ
    kept = take (min (length xs) (space size rp b.wp)) xs

    length-kept : length kept ≡ min (length xs) (space size rp b.wp)
    unfolding kept
    length-kept = omega (arith, length-take (min (length xs) (space size rp b.wp)) xs)

    after_chunk-Wrote : b.total + space size rp b.wp ≤ size → Wrote size rp xs b (after_chunk xs b)
    unfolding kept
    after_chunk-Wrote bounded =
        let holds =
          stored-copy_in b.buf size rp b.wp small p q kept (omega (arith, length-kept))
          ∙ ap (λ t. stored b.buf size rp b.wp ++ t) (take-min _ (space size rp b.wp) xs refl) in
        record {
          wp_in = omega arith;
          moved = rw amount (ap (λ t. t % size) (omega arith));
          counted = omega (arith, amount);
          holds = rw amount (rw length-kept at holds);
        }

    after_chunk-space : space size rp (after_chunk xs b).wp ≡ space size rp b.wp - length xs
    after_chunk-space =
        let n = min (length xs) (space size rp b.wp) in
        rw amount (
          omega (
            arith,
            used-advance_write size rp b.wp n small p q (omega arith),
            space-add-used size rp b.wp small p q,
            space-add-used size rp (add_size b.wp n % size) small p (omega arith),
          ))

  -- The loop over two runs of bytes, one after the other.
  Wrote-trans :
      (xs ys : List ℕ) (b c end : BatchWrite)
      → space size rp c.wp ≡ space size rp b.wp - length xs
      → Wrote size rp xs b c
      → Wrote size rp ys c end
      → Wrote size rp (xs ++ ys) b end
  Wrote-trans xs ys b c end less u v = record {
    wp_in = v.wp_in;
    moved =
        v.moved
        ∙ ap (λ t. (t + min (length ys) (space size rp c.wp)) % size) u.moved
        ∙ mod-add-mod _ _ _
        ∙ ap (λ t. t % size) (omega (arith, length-append {0} xs ys));
    counted = omega (arith, length-append {0} xs ys, u.counted, v.counted);
    holds =
        v.holds
        ∙ ap₂ (λ s t. s ++ take t ys) u.holds less
        ∙ append_assoc (stored b.buf size rp b.wp) (take (space size rp b.wp) xs)
            (take (space size rp b.wp - length xs) ys)
        ∙ ap (λ t. stored b.buf size rp b.wp ++ t) (sym (take-append (space size rp b.wp) xs ys));
  }

  Wrote-nothing :
      (xs : List ℕ) (b : BatchWrite) → b.wp < size → space size rp b.wp ≡ 0 → Wrote size rp xs b b
  Wrote-nothing xs b q full = record {
    wp_in = q;
    moved = sym (ap (λ t. t % size) (omega arith) ∙ mod-eq_of_lt q);
    counted = omega arith;
    holds = rw full (sym (append-nil _));
  }

  batch_write_loop-Wrote :
      (chunks : List (Option (List ℕ))) (b : BatchWrite)
      → b.wp < size
      → b.total + space size rp b.wp ≤ size
      → Wrote size rp (joined chunks) b (batch_write_loop size rp chunks b)
  unfolding batch_write_loop joined
  batch_write_loop-Wrote [] b q bounded = record {
    wp_in = q;
    moved = sym (ap (λ t. t % size) (omega arith) ∙ mod-eq_of_lt q);
    counted = omega arith;
    holds =
        sym (append-nil _)
        ∙ ap (λ t. stored b.buf size rp b.wp ++ t) (sym (take_of_le _ [] (omega arith)));
  }
  batch_write_loop-Wrote (none ∷ chunks) b q bounded = batch_write_loop-Wrote chunks b q bounded
  batch_write_loop-Wrote (some [] ∷ chunks) b q bounded = batch_write_loop-Wrote chunks b q bounded
  batch_write_loop-Wrote (some (x ∷ xs) ∷ chunks) b q bounded =
      let c = after_chunk (x ∷ xs) b in
      let first = after_chunk-Wrote (x ∷ xs) b q bounded in
      let less = after_chunk-space (x ∷ xs) b q in
      let more = batch_write_loop-Wrote chunks c first.wp_in (omega (arith, first.counted, less)) in
      elim (Bool-cases (space size rp b.wp == 0)) [
        | inl full ↦ rw full (Wrote-nothing _ b q ((==_iff _ _).0 full))
        | inr some_room ↦ rw some_room (Wrote-trans (x ∷ xs) (joined chunks) b c _ less first more)
      ]

-- On a well-formed ring `ringbuffer_batch_write` stores what one `ringbuffer_write` of all the
-- chunks, joined, would store, and returns the same count.
pub batch_write_lem :
    {r : Ring} (chunks : List (Option (List ℕ)))
    → IsValid r
    → let (n, r') = batch_write r chunks in
      (n ≡ min (length (joined chunks)) (writeable r))
      × (contents r' ≡ contents r ++ take (writeable r) (joined chunks))
      × IsValid r'
unfolding batch_write
batch_write_lem {r} chunks v =
    let b : BatchWrite = record { buf = r.buf; wp = r.write_ptr; total = 0 } in
    let end = batch_write_loop r.size r.read_ptr chunks b in
    let done =
      batch_write_loop-Wrote r.size r.read_ptr v.small v.read_in chunks b v.write_in (
        omega (arith, space-add-used r.size r.read_ptr r.write_ptr v.small v.read_in v.write_in)) in
    let stays : end.total ≡ 0 → r.write_ptr ≡ end.wp = λ e.
      sym (
        done.moved
        ∙ ap (λ t. t % r.size) (omega (arith, done.counted))
        ∙ mod-eq_of_lt v.write_in) in
    let pointer : (if ltb 0 end.total then end.wp else r.write_ptr) ≡ end.wp =
      ground (arith, stays) in
    rw (pointer, writeable-eq-space r)
      (omega (arith, done.counted), done.holds, omega (arith, done.wp_in))
