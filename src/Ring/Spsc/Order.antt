-- ===== src/Ring/Spsc/Order.antt =====
-- The bytes come out in the order they went in, whatever the interleaving.
use mathlib.Core.Path.{subst}
use native.Mathlib.Nat.{le_refl}
use websocket.Prelude.{
  ℕ, ◌-◌, ◌%◌, ◌≤◌, ◌≡◌, ◌∙◌, sym, ap, ap₂, List, [], ◌++◌, length, take, drop, add_size, arith,
  append-nil, append_assoc, length-take, take-append, take-append-drop, tabulate, Memory,
}
use websocket.Ring.{Ring, space, used, copy_in}
use websocket.Ring.Invariant.{
  IsValid, clip_lem, readable-eq-used, space-add-used, used-advance_write, used-advance_read,
  mod-lt_size,
}
use websocket.Ring.Copy.{around}
use websocket.Ring.Stored.{
  contents, length-contents, stored-copied, copied_lem, stored-publish, copy_out-stored,
  stored-advance,
}
use websocket.Ring.Spsc.{
  System, Producer, Consumer, Step, load_read_ptr, no_room, copy_bytes_in, store_write_ptr,
  load_write_ptr, no_bytes, copy_bytes_out, store_read_ptr, Reach, start, next, writes, reads,
}

-- What the producer relies on: the position it loaded is behind the consumer's, so there is at
-- least the room that it saw; its copied bytes lie past the published ones.
abbrev ProducerOk : Ring → Producer → Type 0
ProducerOk r Producer.resting = Unit {0}
ProducerOk r (Producer.loaded rp xs) =
    space r.size rp r.write_ptr ≤ space r.size r.read_ptr r.write_ptr
ProducerOk r (Producer.copied ys) =
    (length ys ≤ space r.size r.read_ptr r.write_ptr)
    × (tabulate (length ys) (around r.buf r.size r.write_ptr) ≡ ys)

-- What the consumer relies on: at least the bytes that it saw are there, and it copied the oldest.
abbrev ConsumerOk : Ring → Consumer → Type 0
ConsumerOk r Consumer.resting = Unit {0}
ConsumerOk r (Consumer.loaded wp len) =
    used r.size r.read_ptr wp ≤ used r.size r.read_ptr r.write_ptr
ConsumerOk r (Consumer.copied n ys) =
    (n ≤ used r.size r.read_ptr r.write_ptr) × (ys ≡ take n (contents r))

record Inv (s : System) : Type 0 where
  valid : IsValid s.ring
  conserved : s.got ++ contents s.ring ≡ s.sent
  producer_ok : ProducerOk s.ring s.producer
  consumer_ok : ConsumerOk s.ring s.consumer

-- Room that the producer saw is still there.
writes-fit :
    (r : Ring) (rp : ℕ) (xs : List ℕ)
    → space r.size rp r.write_ptr ≤ space r.size r.read_ptr r.write_ptr
    → length (take (writes r rp xs) xs) ≤ space r.size r.read_ptr r.write_ptr
writes-fit r rp xs h =
    omega
      (arith, length-take (writes r rp xs) xs, clip_lem (length xs) (space r.size rp r.write_ptr))

-- The producer's steps leave the bytes that the consumer saw at the front.
ConsumerOk-grow :
    (c : Consumer) (r : Ring) (buf' : Memory) (wp' : ℕ) (zs : List ℕ)
    → used r.size r.read_ptr r.write_ptr ≤ used r.size r.read_ptr wp'
    → contents (record r { buf = buf'; write_ptr = wp' }) ≡ contents r ++ zs
    → ConsumerOk r c
    → ConsumerOk (record r { buf = buf'; write_ptr = wp' }) c
ConsumerOk-grow Consumer.resting r buf' wp' zs h e ok = tt
ConsumerOk-grow (Consumer.loaded wp len) r buf' wp' zs h e ok = omega arith
ConsumerOk-grow (Consumer.copied n ys) r buf' wp' zs h e (few, oldest) =
    let within : n - length (contents r) ≡ 0 =
      omega (arith, length-contents r, readable-eq-used r) in
    (
      omega arith,
      oldest
          ∙ sym (append-nil _)
          ∙ ap (λ k. take n (contents r) ++ take k zs) (sym within)
          ∙ sym (take-append n (contents r) zs)
          ∙ ap (take n) (sym e),
    )

more_room :
    (r : Ring) (n : ℕ)
    → IsValid r
    → n ≤ used r.size r.read_ptr r.write_ptr
    → space r.size r.read_ptr r.write_ptr
      ≤ space r.size (add_size r.read_ptr n % r.size) r.write_ptr
more_room r n v h = omega (
  arith,
  used-advance_read r.size r.read_ptr r.write_ptr n v.small v.read_in v.write_in h,
  space-add-used r.size r.read_ptr r.write_ptr v.small v.read_in v.write_in,
  space-add-used r.size (add_size r.read_ptr n % r.size) r.write_ptr v.small
      (mod-lt_size r.size _ v.nonempty) v.write_in,
)

-- The consumer's store makes room.
ProducerOk-shrink :
    (p : Producer) (r : Ring) (n : ℕ)
    → IsValid r
    → n ≤ used r.size r.read_ptr r.write_ptr
    → ProducerOk r p
    → ProducerOk (record r { read_ptr = add_size r.read_ptr n % r.size }) p
ProducerOk-shrink Producer.resting r n v h ok = tt
ProducerOk-shrink (Producer.loaded rp xs) r n v h ok = omega (arith, more_room r n v h)
ProducerOk-shrink (Producer.copied ys) r n v h (fits, there) =
    (omega (arith, more_room r n v h), there)

Step-Inv : {s t : System} → Step s t → Inv s → Inv t
Step-Inv {s} (load_read_ptr xs e) i = record {
  valid = i.valid;
  conserved = i.conserved;
  producer_ok = omega arith;
  consumer_ok = i.consumer_ok;
}
Step-Inv {s} (no_room rp xs e none_free) i = record {
  valid = i.valid;
  conserved = i.conserved;
  producer_ok = tt;
  consumer_ok = i.consumer_ok;
}
Step-Inv {s} (copy_bytes_in rp xs e some_free) i =
    let ys = take (writes s.ring rp xs) xs in
    let seen = subst (ProducerOk s.ring) e i.producer_ok in
    let fits = writes-fit s.ring rp xs seen in
    let same = stored-copied buf size read_ptr write_ptr small read_in write_in ys fits in
    record {
      valid = record { nonempty = nonempty; small = small; read_in = read_in; write_in = write_in };
      conserved = ap (λ t. s.got ++ t) same ∙ i.conserved;
      producer_ok = (fits, copied_lem buf size read_ptr write_ptr small read_in write_in ys fits);
      consumer_ok =
          ConsumerOk-grow s.consumer s.ring (copy_in buf size write_ptr ys) write_ptr [] (le_refl _)
            (same ∙ sym (append-nil _)) i.consumer_ok;
    }
  where
    open (s.ring) use {buf, size, read_ptr, write_ptr}
    open (i.valid) use {nonempty, small, read_in, write_in}
Step-Inv {s} (store_write_ptr ys e) i =
    let (fits, there) = subst (ProducerOk s.ring) e i.producer_ok in
    let more = stored-publish buf size read_ptr write_ptr small read_in write_in ys fits there in
    record {
      valid = record {
        nonempty = nonempty;
        small = small;
        read_in = read_in;
        write_in = mod-lt_size size _ nonempty;
      };
      conserved =
          ap (λ t. s.got ++ t) more
          ∙ sym (append_assoc s.got (contents s.ring) ys)
          ∙ ap (λ t. t ++ ys) i.conserved;
      producer_ok = tt;
      consumer_ok =
          ConsumerOk-grow s.consumer s.ring buf _ ys
            (omega (
              arith,
              used-advance_write size read_ptr write_ptr (length ys) small read_in write_in fits,
            ))
            more i.consumer_ok;
    }
  where
    open (s.ring) use {buf, size, read_ptr, write_ptr}
    open (i.valid) use {nonempty, small, read_in, write_in}
Step-Inv {s} (load_write_ptr len e) i = record {
  valid = i.valid;
  conserved = i.conserved;
  producer_ok = i.producer_ok;
  consumer_ok = omega arith;
}
Step-Inv {s} (no_bytes wp len e none_there) i = record {
  valid = i.valid;
  conserved = i.conserved;
  producer_ok = i.producer_ok;
  consumer_ok = tt;
}
Step-Inv {s} (copy_bytes_out wp len e some_there) i =
    let seen = subst (ConsumerOk s.ring) e i.consumer_ok in
    let there : reads s.ring wp len ≤ used size read_ptr write_ptr =
      omega (arith, clip_lem len (used size read_ptr wp), seen) in
    record {
      valid = i.valid;
      conserved = i.conserved;
      producer_ok = i.producer_ok;
      consumer_ok =
          (there, copy_out-stored buf size read_ptr write_ptr small read_in write_in _ there);
    }
  where
    open (s.ring) use {buf, size, read_ptr, write_ptr}
    open (i.valid) use {small, read_in, write_in}
Step-Inv {s} (store_read_ptr n ys e) i =
    let (there, oldest) = subst (ConsumerOk s.ring) e i.consumer_ok in
    let fewer = stored-advance buf size read_ptr write_ptr small read_in write_in n there in
    record {
      valid = record {
        nonempty = nonempty;
        small = small;
        read_in = mod-lt_size size _ nonempty;
        write_in = write_in;
      };
      conserved =
          ap₂ (λ t u. (s.got ++ t) ++ u) oldest fewer
          ∙ append_assoc s.got (take n (contents s.ring)) (drop n (contents s.ring))
          ∙ ap (λ t. s.got ++ t) (take-append-drop n (contents s.ring))
          ∙ i.conserved;
      producer_ok = ProducerOk-shrink s.producer s.ring n i.valid there i.producer_ok;
      consumer_ok = tt;
    }
  where
    open (s.ring) use {buf, size, read_ptr, write_ptr}
    open (i.valid) use {nonempty, small, read_in, write_in}

Reach-Inv : {r : Ring} {s : System} → IsValid r → contents r ≡ [] → Reach r s → Inv s
Reach-Inv v empty start = record {
  valid = v;
  conserved = empty;
  producer_ok = tt;
  consumer_ok = tt;
}
Reach-Inv v empty (next before step) = Step-Inv step (Reach-Inv v empty before)

-- In every state that the two threads reach from an empty, well-formed ring, the bytes read so far,
-- followed by those in the ring, are the bytes written so far: none is lost, doubled, reordered or
-- torn.
pub fifo_order :
    {r : Ring} {s : System}
    → IsValid r
    → contents r ≡ []
    → Reach r s
    → s.got ++ contents s.ring ≡ s.sent
fifo_order v empty reach = (Reach-Inv v empty reach).conserved
